-- ===== src/FileCommander/PathOps.antt =====
-- The operations on remote paths of net/file_transfer.c, whose `send_with_ack` and
-- `validate_remote_name` are those of the other client, statement by statement.
pub mod Packets
pub mod Renamed
use rmtdos_utils.Prelude.{
  ℕ, ◌-◌, Bool, true, false, not, Option, none, some, List, [], ◌∷◌, ◌++◌, ◌||◌, if◌then◌else◌,
  length, replicate, be16, be32,
}
use rmtdos_utils.Wire.{Mac}
use rmtdos_utils.Wire.PktType
use rmtdos_utils.Wire.AckCommand
use rmtdos_utils.FileTransfer.State.{file_transfer_name_bytes}
use rmtdos_utils.Client.{RawSocket, Link}
use rmtdos_utils.Client.Put.{Run, file_retries, send_with_ack, validate_remote_name}

abbrev pub file_path_op_directory : ℕ
file_path_op_directory = 1

-- A path in its array, which `memset` has cleared.
abbrev pub path_array : List ℕ → List ℕ
path_array path = path ++ replicate (file_transfer_name_bytes - length path) 0

abbrev pub is_some : {A : Type 0} → Option A → Bool
is_some none = false
is_some (some a) = true

-- The ids are exclusive ors of the session id, a salt and the packet type: arguments.
module _ {W : Type 0} (net : Link W) (sock : RawSocket) (dest : Mac) (transfer_id : ℕ) where
  -- The request, and whether it was acknowledged.
  unfoldable pub request : ℕ → ℕ → ℕ → List ℕ → W → Run Bool W
  request fuel pkt_type ack_command payload w =
      elim (send_with_ack net sock dest transfer_id file_retries fuel pkt_type payload ack_command
        w) [ none ↦ none | some (ack, w1, packets) ↦ some (is_some ack, w1, packets) ]

  -- `true` is the C function's 0.
  unfoldable pub send_path_op : ℕ → ℕ → ℕ → List ℕ → ℕ → W → Run Bool W
  unfolding request
  send_path_op fuel pkt_type ack_command remote_path flags w =
      if not (validate_remote_name remote_path)
      then some (false, w, [])
      else request fuel pkt_type ack_command
          (be32 transfer_id ++ (be16 flags ++ (be16 0 ++ path_array remote_path))) w

  unfoldable pub send_two_path_op : ℕ → ℕ → ℕ → List ℕ → List ℕ → W → Run Bool W
  unfolding request
  send_two_path_op fuel pkt_type ack_command source_path target_path w =
      if not (validate_remote_name source_path) || not (validate_remote_name target_path)
      then some (false, w, [])
      else request fuel pkt_type ack_command
          (be32 transfer_id ++ (path_array source_path ++ path_array target_path)) w

  unfoldable pub file_remote_mkdir : ℕ → List ℕ → W → Run Bool W
  unfolding send_path_op
  file_remote_mkdir fuel remote_path w =
      send_path_op fuel PktType.file_mkdir AckCommand.mkdir remote_path file_path_op_directory w

  unfoldable pub file_remote_delete : ℕ → List ℕ → Bool → W → Run Bool W
  unfolding send_path_op
  file_remote_delete fuel remote_path is_dir w =
      send_path_op fuel PktType.file_delete AckCommand.delete remote_path
        (if is_dir then file_path_op_directory else 0) w

  unfoldable pub file_remote_rename : ℕ → List ℕ → List ℕ → W → Run Bool W
  unfolding send_two_path_op
  file_remote_rename fuel source_path target_path w =
      send_two_path_op fuel PktType.file_rename AckCommand.rename source_path target_path w

  unfoldable pub file_remote_copy : ℕ → List ℕ → List ℕ → W → Run Bool W
  unfolding send_two_path_op
  file_remote_copy fuel source_path target_path w =
      send_two_path_op fuel PktType.file_copy AckCommand.copy source_path target_path w
