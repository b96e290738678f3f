-- ===== src/FileCommander/PathOps/Renamed.antt =====
-- A rename that the file manager asks an idle server for.
use rmtdos_utils.Prelude.{
  ℕ, suc, ◌^◌, ◌<◌, ◌≤◌, ◌≡◌, refl, true, false, some, List, [], ◌∷◌, ◌++◌, ltb, if◌then◌else◌,
  arith, length, be32, Bool-cases, inl, inr, length-append,
}
use rmtdos_utils.Wire.PktType
use rmtdos_utils.Wire.AckCommand
use rmtdos_utils.Wire.AckStatus
use rmtdos_utils.FileTransfer.State.{FileTransferState, FileOp, is_pending}
use rmtdos_utils.FileTransfer.Dos.{Int21, rename, dos_rename}
use rmtdos_utils.FileTransfer.Path.{dos_path_equal}
use rmtdos_utils.FileTransfer.Send.{Net, send_file_ack}
use rmtdos_utils.FileTransfer.Receive.{
  file_transfer_handle_packet, dispatch, handle_two_path_op, remember_client, field_string,
  payload_len_of,
}
use rmtdos_utils.FileTransfer.Idle.{
  file_transfer_process_idle, process_op, acknowledge, idle_rename,
}
use rmtdos_utils.Client.{RawSocket, packet_buffer}
use rmtdos_utils.Client.Put.{validate_remote_name}
use rmtdos_utils.Transfer.{World, serve, cable}
use rmtdos_utils.Transfer.Exchange.{
  send_with_ack-answered, send_file_ack-accepted, send_file_ack-ok,
}
use rmtdos_utils.Transfer.Packets.{packet_buffer-FromClient}
use rmtdos_utils.Transfer.Server.{FromClient}
use rmtdos_utils.FileCommander.PathOps.{path_array, request, file_remote_rename}
use rmtdos_utils.FileCommander.PathOps.Packets.{
  field_string-source, field_string-target, length-path_array,
}

length-le_of_valid : (path : List ℕ) → validate_remote_name path ≡ true → length path ≤ 63
unfolding validate_remote_name
length-le_of_valid path h = ground arith

-- DOS accepts the rename.
abbrev pub Renames : {W : Type 0} → Int21 W → W → List ℕ → List ℕ → Type 0
Renames int21 w source target = (int21 w (rename source target)).1.carry ≡ false

-- The disk after a rename: nothing is done if the two paths are the same to DOS.
abbrev pub renamed : {W : Type 0} → Int21 W → W → List ℕ → List ℕ → W
renamed int21 w source target =
    if dos_path_equal source target then w else (int21 w (rename source target)).0

idle_rename-renamed :
    {W : Type 0} (int21 : Int21 W) (s : FileTransferState) (w : W)
    → Renames int21 w s.filename s.target
    → idle_rename int21 s w
      ≡ (s, renamed int21 w s.filename s.target, AckCommand.rename, AckStatus.ok)
unfolding idle_rename dos_rename
idle_rename-renamed int21 s w accepted = elim (Bool-cases (dos_path_equal s.filename s.target)) [
  | inl same ↦ rw (idle_rename, same) refl
  | inr apart ↦ rw (idle_rename, apart) (rw accepted refl)
]

module _ {W : Type 0} (int21 : Int21 W) (fuel : ℕ) (net : Net) (rest : List ℕ) (sock : RawSocket)
    (transfer_id : ℕ) (source target : List ℕ) where
  -- The state with a request that was accepted from the client.
  asked : FileOp → FileTransferState → FileTransferState
  asked op s = record s {
    client_mac = sock.if_addr;
    session_id = sock.session_id;
    transfer_id = transfer_id;
    filename = source;
    target = target;
    pending_op = op;
  }

  handle_two_path_op-asked :
      (op : FileOp) (kind : ℕ) (f : List ℕ) (s : FileTransferState)
      → FromClient sock.if_addr sock.session_id transfer_id kind 132 f
      → field_string f 4 64 ≡ source
      → field_string f 68 64 ≡ target
      → handle_two_path_op op f s ≡ asked op s
  unfolding handle_two_path_op asked remember_client
  handle_two_path_op-asked op kind f s p from to =
      let long : ltb (payload_len_of f) 132 ≡ false = ground (arith, p.sized) in
      rw (handle_two_path_op, long) (rw (p.sender, p.session, p.transfer, from, to) refl)

  serve-renamed :
      (packet : List ℕ) (s : FileTransferState) (w : W)
      → s.pending_op ≡ FileOp.no_op
      → FromClient sock.if_addr sock.session_id transfer_id PktType.file_rename 132 (packet ++ rest)
      → field_string (packet ++ rest) 4 64 ≡ source
      → field_string (packet ++ rest) 68 64 ≡ target
      → Renames int21 w source target
      → serve int21 fuel net rest packet s w
        ≡ some (
          asked FileOp.no_op s,
          renamed int21 w source target,
          send_file_ack net (asked FileOp.no_op s) AckCommand.rename AckStatus.ok s.expected_offset
              ∷ [],
        )
  unfolding serve
  serve-renamed packet s w idle p from to accepted =
      let f = packet ++ rest in
      let ready : is_pending s.pending_op ≡ false = rw idle refl in
      let e : file_transfer_handle_packet f s ≡ asked FileOp.rename s =
        unfold file_transfer_handle_packet dispatch in
        rw (ready, p.kind_ok)
          (handle_two_path_op-asked FileOp.rename PktType.file_rename f s p from to) in
      let done : idle_rename int21 (asked FileOp.no_op s) w
          ≡ (asked FileOp.no_op s, renamed int21 w source target, AckCommand.rename, AckStatus.ok) =
        unfold asked in idle_rename-renamed int21 (asked FileOp.no_op s) w accepted in
      let run : file_transfer_process_idle int21 fuel net (asked FileOp.rename s) w
          ≡ some (
            asked FileOp.no_op s,
            renamed int21 w source target,
            send_file_ack net (asked FileOp.no_op s) AckCommand.rename AckStatus.ok
                  s.expected_offset
                ∷ [],
          ) =
        unfold file_transfer_process_idle process_op acknowledge asked in rw done refl in
      rw e run

module _ {W : Type 0} (int21 : Int21 W) (fuel : ℕ) (net : Net) (rest : List ℕ) (sock : RawSocket)
    (transfer_id : ℕ) (session_fits : sock.session_id < 2 ^ 32)
    (id_fits : transfer_id < 2 ^ 32) where
  -- Over a cable to an idle server on which nothing is lost, a rename of valid names that DOS
  -- accepts is reported as done after one request, and it is done: DOS is called once, with
  -- exactly the two paths, or not at all if the two paths are the same to DOS. The ids have 32
  -- bits.
  pub file_remote_rename-renamed :
      (waits : ℕ) (source target : List ℕ) (v : World W)
      → validate_remote_name source ≡ true
      → validate_remote_name target ≡ true
      → Renames int21 v.disk (path_array source) (path_array target)
      → v.server.pending_op ≡ FileOp.no_op
      → v.inbox ≡ []
      → (server : FileTransferState) × (packet : List ℕ) × (file_remote_rename
            (cable int21 fuel net rest)
            sock
            net.mac_addr
            transfer_id
            (suc waits)
            source
            target
            v
          ≡ some (
            true,
            record {
              server = server;
              disk = renamed int21 v.disk (path_array source) (path_array target);
              inbox = [];
            },
            packet ∷ [],
          ))
  unfolding file_remote_rename asked
  file_remote_rename-renamed waits source target v good fine accepted idle empty =
      let payload = be32 transfer_id ++ (path_array source ++ path_array target) in
      let packet = packet_buffer sock (some net.mac_addr) PktType.file_rename payload in
      let short = length-le_of_valid source good in
      let fits = length-le_of_valid target fine in
      let size : length (be32 transfer_id ++ (path_array source ++ path_array target)) ≡ 132 =
        omega (
          arith,
          length-append (path_array source) (path_array target),
          length-path_array source (omega arith),
          length-path_array target (omega arith),
        ) in
      let from =
        packet_buffer-FromClient net rest sock transfer_id PktType.file_rename
          (path_array source ++ path_array target) 132 session_fits id_fits size (omega arith)
          (omega arith) in
      let after =
        asked int21 fuel net rest sock transfer_id (path_array source) (path_array target)
          FileOp.no_op v.server in
      let reply = send_file_ack net after AckCommand.rename AckStatus.ok v.server.expected_offset in
      let served =
        serve-renamed int21 fuel net rest sock transfer_id (path_array source) (path_array target)
          packet v.server v.disk idle from
          (field_string-source sock net.mac_addr PktType.file_rename transfer_id rest source target
            short)
          (field_string-target sock net.mac_addr PktType.file_rename transfer_id rest source target
            short fits)
          accepted in
      let ours =
        send_file_ack-accepted net sock transfer_id after refl refl refl AckCommand.rename
          v.server.expected_offset id_fits session_fits (omega arith) in
      let ok =
        send_file_ack-ok net sock transfer_id after refl refl refl AckCommand.rename
          v.server.expected_offset in
      let run =
        send_with_ack-answered int21 fuel net rest sock net.mac_addr transfer_id 9 waits
          PktType.file_rename payload AckCommand.rename v after
          (renamed int21 v.disk (path_array source) (path_array target)) reply empty served ours
          ok in
      (after, packet, rw (file_remote_rename, good, fine) (rw (request, run) refl))
