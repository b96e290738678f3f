-- ===== src/FileTransfer/Upload/Complete.antt =====
-- From the server's start, through any steps of an upload.
use rmtdos_utils.Prelude.{
  ℕ, ◌^◌, ◌<◌, ◌≡◌, List, [], some, length, arith, u16_of_int, take_all, get_be16, ◌∷◌, ◌∙◌,
}
use rmtdos_utils.Wire
use rmtdos_utils.Wire.AckStatus
use rmtdos_utils.FileTransfer.State.{FileTransferState, FileOp, file_transfer_init}
use rmtdos_utils.FileTransfer.Dos.{Int21, dos_close_file}
use rmtdos_utils.FileTransfer.Send.{Net, send_file_ack}
use rmtdos_utils.FileTransfer.Idle.{
  idle_put_end, process_op, acknowledge, file_transfer_process_idle,
}
use rmtdos_utils.FileTransfer.Invariant.{file_transfer_init-IsValid}
use rmtdos_utils.FileTransfer.Upload.{Stores, Step, arrives, works, Reach, here, next, IsIntact}
use rmtdos_utils.FileTransfer.Upload.Steps.{handle_packet-IsIntact}
use rmtdos_utils.FileTransfer.Upload.Work.{process_idle-IsIntact}

module _ {W : Type 0} (int21 : Int21 W) (content : W → ℕ → List ℕ) (net : Net) (file : List ℕ)
    (dos : Stores int21 content) (small : length file < 2 ^ 32) where
  init-IsIntact : (w : W) → IsIntact int21 content net file file_transfer_init w
  unfolding file_transfer_init
  init-IsIntact w = ground (arith, file_transfer_init-IsValid)

  Step-IsIntact :
      {s : FileTransferState} {w : W} {s' : FileTransferState} {w' : W}
      → Step int21 content net file s w s' w'
      → IsIntact int21 content net file s w
      → IsIntact int21 content net file s' w'
  Step-IsIntact (arrives frame room from es ew) h =
      rw (es, ew) (handle_packet-IsIntact int21 content net file h frame room from)
  Step-IsIntact (works fuel frames e written) h =
      process_idle-IsIntact int21 content net file dos small h fuel e written

  -- In every state that an upload of a file of fewer than 2 ^ 32 bytes reaches from the server's
  -- start, the open file holds exactly the first `expected_offset` bytes of the file that is
  -- sent: a packet that is lost, repeated or out of order loses nothing and doubles nothing. The
  -- steps are the sender's packets, in any order, and idle calls whose writes do not fail.
  pub Reach-IsIntact :
      {w : W} {s : FileTransferState} {w' : W}
      → Reach int21 content net file file_transfer_init w s w'
      → IsIntact int21 content net file s w'
  Reach-IsIntact {w} here = init-IsIntact w
  Reach-IsIntact (next r step) = Step-IsIntact step (Reach-IsIntact r)

  -- The status of an acknowledged end is OK only for a file that arrived in full.
  put_end_accepted :
      (s : FileTransferState) (w : W) (s1 : FileTransferState) (command offset : ℕ)
      → get_be16 (send_file_ack net s1 command (idle_put_end int21 s w).3 offset) 32 ≡ AckStatus.ok
      → s.expected_offset ≡ s.size
  unfolding send_file_ack idle_put_end Wire.frame
  put_end_accepted s w s1 command offset e = ground arith

  pub content-put_end :
      (s : FileTransferState) (w : W) (handle : ℕ)
      → content (idle_put_end int21 s w).1 handle ≡ content w handle
  unfolding idle_put_end dos_close_file
  content-put_end s w handle = ground (arith, dos.closed w (u16_of_int s.handle) handle)

  -- If the server answers the end of an upload with the status OK, then the file that it has just
  -- closed holds the whole file that was sent, and nothing else. Before, the sender's packets
  -- came in any order and number, with idle calls whose writes did not fail; the file has fewer
  -- than 2 ^ 32 bytes, and DOS keeps its promises of create, write and close.
  pub upload_complete :
      (fuel : ℕ) {w : W} {s : FileTransferState} {w' : W} {s'' : FileTransferState} {w'' : W}
      {frame : List ℕ}
      → Reach int21 content net file file_transfer_init w s w'
      → s.pending_op ≡ FileOp.put_end
      → file_transfer_process_idle int21 fuel net s w' ≡ some (s'', w'', frame ∷ [])
      → get_be16 frame 32 ≡ AckStatus.ok
      → content w'' (u16_of_int s.handle) ≡ file
  upload_complete fuel {w} {s} {w'} {s''} {w''} {frame} r op e good =
      let h = Reach-IsIntact r in
      let active = h.end_active op in
      let cleared = record s { pending_op = FileOp.no_op } in
      let (s1, w1, command, status) = idle_put_end int21 cleared w' in
      let reply = send_file_ack net s1 command status s1.expected_offset in
      let run : file_transfer_process_idle int21 fuel net s w' ≡ some (s1, w1, reply ∷ []) =
        unfold file_transfer_process_idle process_op acknowledge in rw op in
      let ew : w'' ≡ w1 = cc in
      let ef : frame ≡ reply = cc in
      let accepted = put_end_accepted cleared w' s1 command s1.expected_offset (rw ef at good) in
      rw (ew, content-put_end cleared w' (u16_of_int s.handle))
        (h.written active ∙ take_all s.expected_offset file (omega (arith, h.sized active)))
