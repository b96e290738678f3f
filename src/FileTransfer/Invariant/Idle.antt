-- ===== src/FileTransfer/Invariant/Idle.antt =====
-- Every idle call keeps the invariant, clears the operation, and sends a well-formed reply.
use rmtdos_utils.Prelude.{
  ℕ, ◌≡◌, ◌≢◌, refl, some, List, [], ◌∷◌, arith, sym, ◌∙◌, ◌==◌, Option-cases, inl, inr,
  if◌then◌else◌,
}
use rmtdos_utils.FileTransfer.State.{FileTransferState, FileOp}
use rmtdos_utils.FileTransfer.Dos.{Int21}
use rmtdos_utils.Wire.AckStatus
use rmtdos_utils.FileTransfer.Send.{Net, send_file_ack, send_file_get_data, send_dir_list_data}
use rmtdos_utils.FileTransfer.Send.Replies.{
  WellFormed, send_file_get_data-WellFormed, send_dir_list_data-WellFormed,
  send_file_ack-WellFormed,
}
use rmtdos_utils.FileTransfer.Dir.{collect_dir_entries}
use rmtdos_utils.FileTransfer.Idle.{
  Acked, Sent, read_chunk, idle_copy, idle_get_data_req, idle_dir_list_data_req, acknowledge,
  acknowledge_get_begin, process_op, file_transfer_process_idle,
}
use rmtdos_utils.FileTransfer.Invariant.Cases.{
  ReadsAtMost, IsIdle, idle_put_begin-IsIdle, idle_put_data-IsIdle, idle_put_end-IsIdle,
  idle_ack-IsIdle, idle_get_end-IsIdle, idle_mkdir-IsIdle, idle_delete-IsIdle, idle_rename-IsIdle,
  idle_get_begin-IsIdle, read_chunk-IsIdle, idle_copy-IsIdle, collect_dir_entries-IsIdle,
}
use rmtdos_utils.FileTransfer.Invariant.{IsValid}

-- The answer to a request: an idle state, and exactly one well-formed frame.
pub record Replied {W : Type 0} (r : Sent W) : Type 0 where
  pub after : IsIdle r.0
  pub reply : List ℕ
  pub only : r.2 ≡ reply ∷ []
  pub reply_ok : WellFormed reply

send_file_get_data-IsIdle :
    (net : Net) (s : FileTransferState) (status : ℕ)
    → IsIdle s
    → IsIdle (send_file_get_data net s status).0
unfolding send_file_get_data
send_file_get_data-IsIdle net s status h = ground arith

module _ {W : Type 0} (int21 : Int21 W) {s : FileTransferState} (v : IsIdle s) (w : W) where
  idle_get_data_req-Replied :
      (net : Net) → ReadsAtMost int21 → Replied (idle_get_data_req int21 net s w)
  unfolding idle_get_data_req
  idle_get_data_req-Replied net bounded =
      let (idle, small) = read_chunk-IsIdle int21 v w bounded in
      let (s', w', status) = read_chunk int21 s w in
      record {
        after = send_file_get_data-IsIdle net s' status idle;
        reply = (send_file_get_data net s' status).1;
        only = refl;
        reply_ok = send_file_get_data-WellFormed net s' status idle.valid.chunk_sized small;
      }

  idle_dir_list_data_req-Replied :
      (fuel : ℕ) (net : Net) {r : Sent W}
      → idle_dir_list_data_req int21 fuel net s w ≡ some r
      → Replied r
  unfolding idle_dir_list_data_req
  idle_dir_list_data_req-Replied fuel net {r} e =
      elim (Option-cases (collect_dir_entries int21 fuel s w)) [
        | inl out ↦ ground arith
        | inr ((status, count, s', w'), run) ↦
            let (idle, small) = collect_dir_entries-IsIdle int21 v w fuel run in
            let got : r ≡ (s', w', send_dir_list_data net s' status count ∷ []) = ground arith in
            rw got (record {
              after = idle;
              reply = send_dir_list_data net s' status count;
              only = refl;
              reply_ok =
                  send_dir_list_data-WellFormed net s' status count idle.valid.entries_sized
                    idle.valid.entries_named small;
            })
      ]

acknowledge-Replied :
    {W : Type 0} (net : Net) (a : Acked W) {r : Sent W}
    → IsIdle a.0
    → acknowledge net a ≡ some r
    → Replied r
unfolding acknowledge
acknowledge-Replied net (s, w, command, status) {r} v e =
    let f = send_file_ack net s command status s.expected_offset in
    let got : r ≡ (s, w, f ∷ []) = ground arith in
    rw got (record {
      after = v;
      reply = f;
      only = refl;
      reply_ok = send_file_ack-WellFormed net s command status s.expected_offset;
    })

acknowledge_get_begin-Replied :
    {W : Type 0} (net : Net) (a : Acked W) {r : Sent W}
    → IsIdle a.0
    → acknowledge_get_begin net a ≡ some r
    → Replied r
unfolding acknowledge_get_begin
acknowledge_get_begin-Replied net (s, w, command, status) {r} v e =
    let offset = if status == AckStatus.ok then s.size else s.expected_offset in
    let f = send_file_ack net s command status offset in
    let got : r ≡ (s, w, f ∷ []) = ground arith in
    rw got (record {
      after = v;
      reply = f;
      only = refl;
      reply_ok = send_file_ack-WellFormed net s command status offset;
    })

module _ {W : Type 0} (int21 : Int21 W) (bounded : ReadsAtMost int21) (fuel : ℕ) (net : Net) where
  process_op-Replied :
      (op : FileOp) {s : FileTransferState} (w : W) {r : Sent W}
      → op ≢ FileOp.no_op
      → IsIdle s
      → process_op int21 fuel net op s w ≡ some r
      → Replied r
  unfolding process_op
  process_op-Replied FileOp.no_op w h v e = absurd (h refl)
  process_op-Replied FileOp.put_begin w h v e =
      acknowledge-Replied net _ (idle_put_begin-IsIdle int21 v w) e
  process_op-Replied FileOp.put_data w h v e =
      acknowledge-Replied net _ (idle_put_data-IsIdle int21 v w) e
  process_op-Replied FileOp.put_end w h v e =
      acknowledge-Replied net _ (idle_put_end-IsIdle int21 v w) e
  process_op-Replied FileOp.ack w h v e = acknowledge-Replied net _ (idle_ack-IsIdle int21 v w) e
  process_op-Replied FileOp.get_begin w h v e =
      acknowledge_get_begin-Replied net _ (idle_get_begin-IsIdle int21 v w) e
  process_op-Replied FileOp.get_data_req {s} w {r} h v e =
      let got : r ≡ idle_get_data_req int21 net s w = cc in
      rw got (idle_get_data_req-Replied int21 v w net bounded)
  process_op-Replied FileOp.get_end w h v e =
      acknowledge-Replied net _ (idle_get_end-IsIdle int21 v w) e
  process_op-Replied FileOp.dir_list_data_req w h v e =
      idle_dir_list_data_req-Replied int21 v w fuel net e
  process_op-Replied FileOp.mkdir w h v e =
      acknowledge-Replied net _ (idle_mkdir-IsIdle int21 v w) e
  process_op-Replied FileOp.delete w h v e =
      acknowledge-Replied net _ (idle_delete-IsIdle int21 v w) e
  process_op-Replied FileOp.rename w h v e =
      acknowledge-Replied net _ (idle_rename-IsIdle int21 v w) e
  process_op-Replied FileOp.copy {s} w {r} h v e = elim (Option-cases (idle_copy int21 fuel s w)) [
    | inl out ↦ ground arith
    | inr (a, run) ↦ acknowledge-Replied net a (idle_copy-IsIdle int21 v w fuel run) (
        let f : process_op int21 fuel net FileOp.copy s w ≡ acknowledge net a =
          rw (run, process_op) in
        sym f ∙ e)
  ]

  clear-IsIdle :
      {s : FileTransferState} → IsValid s → IsIdle (record s { pending_op = FileOp.no_op })
  clear-IsIdle v = ground arith

  -- An idle call with an operation waiting that comes to its end keeps the invariant, clears the
  -- operation and sends exactly one frame, whose header tells its length and which fits the send
  -- buffer. DOS is assumed to read no more than it is asked for.
  pub file_transfer_process_idle-Replied :
      (s : FileTransferState) (w : W) {r : Sent W}
      → IsValid s
      → s.pending_op ≢ FileOp.no_op
      → file_transfer_process_idle int21 fuel net s w ≡ some r
      → Replied r
  unfolding file_transfer_process_idle
  file_transfer_process_idle-Replied s w v h e =
      process_op-Replied s.pending_op w h (clear-IsIdle v) e
