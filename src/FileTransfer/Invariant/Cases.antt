-- ===== src/FileTransfer/Invariant/Cases.antt =====
-- Each case of the idle call keeps the invariant.
use rmtdos_utils.Prelude.{
  ℕ, min, ◌+◌, ◌≤◌, ◌≡◌, Bool, some, List, arith, u16_of_int, length-overlay, Option-cases, inl,
  inr,
}
use rmtdos_utils.FileTransfer.State.{
  FileTransferState, FileOp, file_transfer_chunk_bytes, dir_list_page_entries, rmtdos_path_bytes,
}
use rmtdos_utils.FileTransfer.Dos.{
  Int21, read, dos_read_file, dos_seek_file, dos_create_file, dos_open_read_file, dos_find_first,
  dos_get_dta, dos_set_dta,
}
use rmtdos_utils.FileTransfer.Dir.{collect_loop, collect_dir_entries}
use rmtdos_utils.FileTransfer.Path.{build_dir_pattern}
use rmtdos_utils.FileTransfer.Copy.{dos_get_file_size, dos_copy_file, copy_loop}
use rmtdos_utils.FileTransfer.Idle.{
  Acked, idle_put_begin, idle_put_data, idle_put_end, idle_ack, idle_get_begin, read_chunk,
  idle_get_end, idle_mkdir, idle_delete, idle_rename, idle_copy, close_active,
}
use rmtdos_utils.FileTransfer.Invariant.{IsValid}
use rmtdos_utils.FileTransfer.Invariant.Buffers.{
  length-dos_find_first, length-copy_loop, collect_loop-Kept,
}

-- DOS never reads more than it is asked for.
pub record ReadsAtMost {W : Type 0} (int21 : Int21 W) : Type 0 where
  pub at_most : (w : W) (handle count : ℕ) → (int21 w (read handle count)).1.ax ≤ count

-- A state between two operations.
pub record IsIdle (s : FileTransferState) : Type 0 where
  pub valid : IsValid s
  pub clear : s.pending_op ≡ FileOp.no_op

module _ {W : Type 0} (int21 : Int21 W) {s : FileTransferState} (v : IsIdle s) (w : W) where
  pub idle_put_begin-IsIdle : IsIdle (idle_put_begin int21 s w).0
  unfolding idle_put_begin
  idle_put_begin-IsIdle = ground arith

  pub idle_put_data-IsIdle : IsIdle (idle_put_data int21 s w).0
  unfolding idle_put_data
  idle_put_data-IsIdle = ground arith

  pub idle_put_end-IsIdle : IsIdle (idle_put_end int21 s w).0
  unfolding idle_put_end
  idle_put_end-IsIdle = ground arith

  pub idle_ack-IsIdle : IsIdle (idle_ack int21 s w).0
  unfolding idle_ack
  idle_ack-IsIdle = ground arith

  pub idle_get_end-IsIdle : IsIdle (idle_get_end int21 s w).0
  unfolding idle_get_end
  idle_get_end-IsIdle = ground arith

  pub idle_mkdir-IsIdle : IsIdle (idle_mkdir int21 s w).0
  unfolding idle_mkdir
  idle_mkdir-IsIdle = ground arith

  pub idle_delete-IsIdle : IsIdle (idle_delete int21 s w).0
  unfolding idle_delete
  idle_delete-IsIdle = ground arith

  pub idle_rename-IsIdle : IsIdle (idle_rename int21 s w).0
  unfolding idle_rename
  idle_rename-IsIdle = ground arith

  pub idle_get_begin-IsIdle : IsIdle (idle_get_begin int21 s w).0
  unfolding idle_get_begin dos_get_file_size
  idle_get_begin-IsIdle =
      let w1 = (dos_open_read_file int21 s.filename (close_active int21 s w)).1 in
      ground (
        arith,
        length-dos_find_first int21 s.filename s.dta (dos_set_dta int21 (dos_get_dta int21 w1).2),
      )

  pub read_chunk-IsIdle :
      ReadsAtMost int21
      → IsIdle (read_chunk int21 s w).0
        × ((read_chunk int21 s w).0.chunk_count ≤ file_transfer_chunk_bytes)
  unfolding read_chunk dos_read_file
  read_chunk-IsIdle bounded =
      let w1 = (dos_seek_file int21 s.handle 0 s.chunk_offset w).1 in
      ground (
        arith,
        bounded.at_most w1 (u16_of_int s.handle) s.chunk_count,
        length-overlay (int21 w1 (read (u16_of_int s.handle) s.chunk_count)).1.stored s.chunk,
      )

  pub dos_copy_file-IsIdle :
      (fuel : ℕ) (source target : List ℕ) {done : Bool} {n : ℕ} {s' : FileTransferState} {w' : W}
      → dos_copy_file int21 fuel source target s w ≡ some (done, n, s', w')
      → IsIdle s'
  unfolding dos_copy_file
  dos_copy_file-IsIdle fuel source target {done} {n} {s'} {w'} e =
      let (i, w1) = dos_open_read_file int21 source w in
      let (o, w2) = dos_create_file int21 target w1 in
      elim (Option-cases (copy_loop int21 fuel i o 0 s.chunk w2)) [
        | inl out ↦ ground arith
        | inr ((done', n', chunk', w3), run) ↦
            ground (arith, length-copy_loop int21 fuel i o 0 s.chunk w2 run)
      ]

  pub idle_copy-IsIdle : (fuel : ℕ) {a : Acked W} → idle_copy int21 fuel s w ≡ some a → IsIdle a.0
  unfolding idle_copy
  idle_copy-IsIdle fuel {a} e =
      elim (Option-cases (dos_copy_file int21 fuel s.filename s.target s w)) [
        | inl out ↦ ground arith
        | inr ((done', n', s', w'), run) ↦
            ground (arith, dos_copy_file-IsIdle fuel s.filename s.target run)
      ]

  -- A directory page has at most as many entries as the array of `g_file`.
  pub collect_dir_entries-IsIdle :
      (fuel : ℕ) {status count : ℕ} {s' : FileTransferState} {w' : W}
      → collect_dir_entries int21 fuel s w ≡ some (status, count, s', w')
      → IsIdle s' × (count ≤ dir_list_page_entries)
  unfolding collect_dir_entries
  collect_dir_entries-IsIdle fuel {status} {count} {s'} {w'} e =
      let (segment, offset, w1) = dos_get_dta int21 w in
      let most = min s.dir_max_entries dir_list_page_entries in
      elim (Option-cases (build_dir_pattern (rmtdos_path_bytes + 5) s.dir_path)) [
        | inl out ↦ ground arith
        | inr (pattern, built) ↦
            let (found, dta, w2) = dos_find_first int21 pattern s.dta (dos_set_dta int21 w1) in
            let sized = length-dos_find_first int21 pattern s.dta (dos_set_dta int21 w1) in
            elim (Option-cases
              (collect_loop int21 fuel s.dir_start_index most 0 0 s.dir_entries dta w2)) [
                | inl out ↦ ground (arith, sized)
                | inr ((count', entries', dta', w3), run) ↦ ground (
                  arith,
                  sized,
                  collect_loop-Kept int21 s.dir_start_index most fuel 0 0 s.dir_entries dta w2
                      v.valid.entries_named (omega arith) run,
                )
              ]
      ]
