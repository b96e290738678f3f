-- ===== src/FileTransfer/Upload/Work.antt =====
-- The idle calls of an upload keep `IsIntact`, and what an upload that ends well has written.
use rmtdos_utils.Prelude.{
  ℕ, ◌^◌, ◌<◌, ◌≡◌, refl, true, List, some, length, take, arith, take-add, u16_of_int, inl, inr,
}
use rmtdos_utils.FileTransfer.State.{FileTransferState, FileOp}
use rmtdos_utils.FileTransfer.Dos.{Int21, dos_create_file, dos_write_file}
use rmtdos_utils.FileTransfer.Send.{Net}
use rmtdos_utils.FileTransfer.Idle.{
  idle_put_begin, idle_put_data, idle_put_end, idle_ack, close_active, process_op, acknowledge,
  file_transfer_process_idle,
}
use rmtdos_utils.FileTransfer.Invariant.Cases.{
  IsIdle, idle_put_begin-IsIdle, idle_put_data-IsIdle, idle_put_end-IsIdle, idle_ack-IsIdle,
}
use rmtdos_utils.FileTransfer.Upload.{IsIntact, Stores}

module _ {W : Type 0} (int21 : Int21 W) (content : W → ℕ → List ℕ) (net : Net) (file : List ℕ)
    (dos : Stores int21 content) (small : length file < 2 ^ 32) {s : FileTransferState} {w : W}
    (h : IsIntact int21 content net file s w) where
  abbrev cleared : FileTransferState
  cleared = record s { pending_op = FileOp.no_op }

  cleared-IsIdle : IsIdle cleared
  cleared-IsIdle = record { valid = ground (arith, h.valid); clear = refl }

  idle_put_begin-IsIntact :
      s.size ≡ length file
      → IsIntact int21 content net file
          (idle_put_begin int21 cleared w).0
          (idle_put_begin int21 cleared w).1
  unfolding idle_put_begin dos_create_file
  idle_put_begin-IsIntact size = ground (
    arith,
    dos.created (close_active int21 cleared w) 0 s.filename,
    idle_put_begin-IsIdle int21 cleared-IsIdle w,
  )

  idle_put_data-IsIntact :
      s.pending_op ≡ FileOp.put_data
      → (dos_write_file int21 s.handle s.chunk s.chunk_count w).0 ≡ true
      → IsIntact int21 content net file
          (idle_put_data int21 cleared w).0
          (idle_put_data int21 cleared w).1
  unfolding idle_put_data dos_write_file
  idle_put_data-IsIntact op written = ground (
    arith,
    dos.appended w (u16_of_int s.handle) s.chunk_count (take s.chunk_count s.chunk),
    take-add s.expected_offset s.chunk_count file,
    idle_put_data-IsIdle int21 cleared-IsIdle w,
  )

  idle_put_end-IsIntact :
      IsIntact int21 content net file
        (idle_put_end int21 cleared w).0
        (idle_put_end int21 cleared w).1
  unfolding idle_put_end
  idle_put_end-IsIntact = ground (arith, idle_put_end-IsIdle int21 cleared-IsIdle w)

  idle_ack-IsIntact :
      s.pending_op ≡ FileOp.ack
      → IsIntact int21 content net file (idle_ack int21 cleared w).0 (idle_ack int21 cleared w).1
  unfolding idle_ack
  idle_ack-IsIntact op = ground (arith, idle_ack-IsIdle int21 cleared-IsIdle w)

  -- What an acknowledged case hands on.
  acknowledged :
      (a : FileTransferState × W × ℕ × ℕ) {s' : FileTransferState} {w' : W} {frames : List (List ℕ)}
      → acknowledge net a ≡ some (s', w', frames)
      → IsIntact int21 content net file a.0 a.1
      → IsIntact int21 content net file s' w'
  unfolding acknowledge
  acknowledged (s1, w1, command, status) {s'} {w'} e k =
      let es : s' ≡ s1 = cc in let ew : w' ≡ w1 = cc in rw (es, ew) k

  pub process_idle-IsIntact :
      (fuel : ℕ) {s' : FileTransferState} {w' : W} {frames : List (List ℕ)}
      → file_transfer_process_idle int21 fuel net s w ≡ some (s', w', frames)
      → (s.pending_op ≡ FileOp.put_data
          → (dos_write_file int21 s.handle s.chunk s.chunk_count w).0 ≡ true)
      → IsIntact int21 content net file s' w'
  unfolding file_transfer_process_idle process_op
  process_idle-IsIntact fuel {s'} {w'} e written = elim h.ops [
    | inl op ↦
        let f = rw op at e in
        let es : s' ≡ cleared = cc in
        let ew : w' ≡ w = cc in rw (es, ew) (ground (arith, cleared-IsIdle))
    | inr (inl op) ↦
        acknowledged (idle_put_begin int21 cleared w) (rw op at e)
          (idle_put_begin-IsIntact (h.begin_size op))
    | inr (inr (inl op)) ↦
        acknowledged (idle_put_data int21 cleared w) (rw op at e)
          (idle_put_data-IsIntact op (written op))
    | inr (inr (inr (inl op))) ↦
        acknowledged (idle_put_end int21 cleared w) (rw op at e) idle_put_end-IsIntact
    | inr (inr (inr (inr op))) ↦
        acknowledged (idle_ack int21 cleared w) (rw op at e) (idle_ack-IsIntact op)
  ]
