-- ===== src/FileTransfer/Copy.antt =====
-- `dos_copy_file` and `dos_get_file_size` of server/file_transfer.c. Both use buffers of `g_file`:
-- `chunk` for the bytes in transit and `dta` for the search; they return its new state.
pub mod Total
use rmtdos_utils.Prelude.{
  ℕ, zero, suc, ◌+◌, Bool, true, false, Option, none, some, List, ◌==◌, if◌then◌else◌, ℤ, is_neg,
  u16_of_int, u32,
}
use rmtdos_utils.FileTransfer.State.{FileTransferState, file_transfer_chunk_bytes}
use rmtdos_utils.FileTransfer.Dos.{
  Int21, dos_open_read_file, dos_create_file, dos_read_file, dos_write_file, dos_close_file,
  dos_find_first, dos_get_dta, dos_set_dta, dos_restore_dta, dta_get_u32, u32_max,
}

module _ {W : Type 0} (int21 : Int21 W) where
  unfoldable pub dos_get_file_size : List ℕ → FileTransferState → W → ℕ × FileTransferState × W
  dos_get_file_size filename s w =
      let (segment, offset, w') = dos_get_dta int21 w in
      let (found, dta, w'') = dos_find_first int21 filename s.dta (dos_set_dta int21 w') in
      let w''' = dos_restore_dta int21 segment offset w'' in
      (if found then dta_get_u32 dta 26 else u32_max, record s { dta = dta }, w''')

  -- The loop `for (;;)`: one read and one write a round. It gives the status (`true` for 0), the
  -- bytes copied, the chunk and the world; `none` when the fuel has run out.
  unfoldable pub copy_loop : ℕ → ℤ → ℤ → ℕ → List ℕ → W → Option (Bool × ℕ × List ℕ × W)
  copy_loop zero in_handle out_handle copied chunk w = none
  copy_loop (suc fuel) in_handle out_handle copied chunk w =
      let (count, chunk', w') = dos_read_file int21 in_handle chunk file_transfer_chunk_bytes w in
      let (written, w'') = dos_write_file int21 out_handle chunk' (u16_of_int count) w' in
      let rest = copy_loop fuel in_handle out_handle (u32 (copied + u16_of_int count)) chunk' w'' in
      if is_neg count
      then some (false, copied, chunk', w')
      else if u16_of_int count == 0
      then some (true, copied, chunk', w')
      else if written
      then rest
      else some (false, copied, chunk', w'')

  -- `true` is the C function's 0; the second part is `*bytes_copied`.
  unfoldable pub dos_copy_file :
      ℕ → List ℕ → List ℕ → FileTransferState → W → Option (Bool × ℕ × FileTransferState × W)
  dos_copy_file fuel source target s w =
      let (in_handle, w1) = dos_open_read_file int21 source w in
      let (out_handle, w2) = dos_create_file int21 target w1 in
      let close = λ (v : W). dos_close_file int21 in_handle (dos_close_file int21 out_handle v) in
      if is_neg in_handle
      then some (false, 0, s, w1)
      else if is_neg out_handle
      then some (false, 0, s, close w2)
      else elim (copy_loop fuel in_handle out_handle 0 s.chunk w2) [
        | none ↦ none
        | some (status, copied, chunk, w3) ↦
            some (status, copied, record s { chunk = chunk }, close w3)
      ]
