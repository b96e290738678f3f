-- ===== src/FileTransfer/Send.antt =====
-- The replies of server/file_transfer.c: what `pktdrv_send` is given, as bytes.
pub mod Replies
use rmtdos_utils.Prelude.{
  ℕ, ◌+◌, ◌*◌, Bool, List, [], ◌∷◌, ◌++◌, ◌==◌, if◌then◌else◌, be16, be32, take, u16,
}
use rmtdos_utils.Wire.{Mac, frame}
use rmtdos_utils.Wire.AckStatus
use rmtdos_utils.Wire.PktType
use rmtdos_utils.FileTransfer.State.{FileTransferState, DirListEntry}

-- `g_pktdrv_info.mac_addr` and `g_ethertype`, which the server sets once, when it starts.
pub record Net : Type 0 where
  pub mac_addr : Mac
  pub ethertype : ℕ

abbrev pub sizeof_file_ack : ℕ
sizeof_file_ack = 12

abbrev pub sizeof_file_get_data : ℕ
sizeof_file_get_data = 12

abbrev pub sizeof_dir_list_data : ℕ
sizeof_dir_list_data = 10

abbrev pub sizeof_dir_list_entry : ℕ
sizeof_dir_list_entry = 74

-- `struct FileAck`
unfoldable pub file_ack_payload : ℕ → ℕ → ℕ → ℕ → List ℕ
file_ack_payload transfer_id command status offset =
    be32 transfer_id ++ (be16 command ++ (be16 status ++ be32 offset))

unfoldable pub send_file_ack : Net → FileTransferState → ℕ → ℕ → ℕ → List ℕ
unfolding file_ack_payload
send_file_ack net s command status offset =
    frame s.client_mac net.mac_addr net.ethertype s.session_id sizeof_file_ack PktType.file_ack
      (file_ack_payload s.transfer_id command status offset)

-- A failure clears `chunk_count`: the new state comes back beside the frame.
unfoldable pub send_file_get_data : Net → FileTransferState → ℕ → FileTransferState × List ℕ
send_file_get_data net s status =
    let count = if status == AckStatus.ok then s.chunk_count else 0 in
    (
      record s { chunk_count = count },
      frame s.client_mac net.mac_addr net.ethertype s.session_id
          (u16 (sizeof_file_get_data + count)) PktType.file_get_data
          (be32 s.transfer_id
            ++ (be32 s.chunk_offset ++ (be16 count ++ (be16 status ++ take count s.chunk)))),
    )

-- `struct DirListEntry` in memory: attributes, a reserved byte, then numbers in network order.
unfoldable pub entry_bytes : DirListEntry → List ℕ
entry_bytes e = e.attributes ∷ 0 ∷ (be32 e.size ++ (be16 e.dos_date ++ (be16 e.dos_time ++ e.name)))

unfoldable pub entries_bytes : List DirListEntry → List ℕ
unfolding entry_bytes
entries_bytes [] = []
entries_bytes (e ∷ es) = entry_bytes e ++ entries_bytes es

unfoldable pub send_dir_list_data : Net → FileTransferState → ℕ → ℕ → List ℕ
unfolding entries_bytes
send_dir_list_data net s status count =
    let count' = if status == AckStatus.ok then count else 0 in
    frame s.client_mac net.mac_addr net.ethertype s.session_id
      (u16 (sizeof_dir_list_data + count' * sizeof_dir_list_entry)) PktType.dir_list_data
      (be32 s.dir_request_id
        ++ (be16 s.dir_start_index
            ++ (be16 count' ++ (be16 status ++ entries_bytes (take count' s.dir_entries)))))
