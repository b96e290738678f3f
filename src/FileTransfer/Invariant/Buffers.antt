-- ===== src/FileTransfer/Invariant/Buffers.antt =====
-- The DOS calls and the loops leave the arrays of `g_file` at their sizes.
use rmtdos_utils.Prelude.{
  ℕ, zero, suc, ◌+◌, ◌≤◌, ◌≡◌, Bool, some, List, [], ◌∷◌, arith, ℤ, length, length-overlay,
  length-set, set, replicate, drop, u16_of_int, u32, u16,
}
use rmtdos_utils.FileTransfer.State.{DirListEntry, file_transfer_chunk_bytes}
use rmtdos_utils.FileTransfer.Dos.{
  Int21, read, find_first, find_next, dos_read_file, dos_write_file, dos_find_first, dos_find_next,
}
use rmtdos_utils.FileTransfer.Dir.{copy_name, copy_dta_name, entry_of_dta, collect_loop}
use rmtdos_utils.FileTransfer.Copy.{copy_loop}
use rmtdos_utils.FileTransfer.Invariant.{NamesSized}

length-copy_dta_name : (dta : List ℕ) → length (copy_dta_name dta) ≡ 64
unfolding copy_dta_name
length-copy_dta_name dta = length-overlay (copy_name 63 (drop 30 dta)) (replicate 64 0)

NamesSized-set :
    (entries : List DirListEntry) (i : ℕ) (dta : List ℕ)
    → NamesSized entries
    → NamesSized (set entries i (entry_of_dta dta))
unfolding entry_of_dta
NamesSized-set [] i dta h = tt
NamesSized-set (e ∷ es) zero dta h = (length-copy_dta_name dta, h.1)
NamesSized-set (e ∷ es) (suc i) dta h = (h.0, NamesSized-set es i dta h.1)

module _ {W : Type 0} (int21 : Int21 W) where
  pub length-dos_read_file :
      (handle : ℤ) (buffer : List ℕ) (count : ℕ) (w : W)
      → length (dos_read_file int21 handle buffer count w).1 ≡ length buffer
  unfolding dos_read_file
  length-dos_read_file handle buffer count w =
      length-overlay (int21 w (read (u16_of_int handle) count)).1.stored buffer

  pub length-dos_find_first :
      (pattern dta : List ℕ) (w : W) → length (dos_find_first int21 pattern dta w).1 ≡ length dta
  unfolding dos_find_first
  length-dos_find_first pattern dta w =
      length-overlay (int21 w (find_first 0x37 pattern)).1.stored dta

  length-dos_find_next : (dta : List ℕ) (w : W) → length (dos_find_next int21 dta w).1 ≡ length dta
  unfolding dos_find_next
  length-dos_find_next dta w = length-overlay (int21 w find_next).1.stored dta

  pub length-copy_loop :
      (fuel : ℕ) (i o : ℤ) (copied : ℕ) (chunk : List ℕ) (w : W) {done : Bool} {n : ℕ}
      {chunk' : List ℕ} {w' : W}
      → copy_loop int21 fuel i o copied chunk w ≡ some (done, n, chunk', w')
      → length chunk' ≡ length chunk
  unfolding copy_loop
  length-copy_loop zero i o copied chunk w e = cc
  length-copy_loop (suc fuel) i o copied chunk w {done} {n} {chunk'} {w'} e = ground (
    arith,
    length-dos_read_file i chunk file_transfer_chunk_bytes w,
    length-copy_loop fuel i o
        (u32 (copied + u16_of_int (dos_read_file int21 i chunk file_transfer_chunk_bytes w).0))
        (dos_read_file int21 i chunk file_transfer_chunk_bytes w).1
        (dos_write_file int21 o (dos_read_file int21 i chunk file_transfer_chunk_bytes w).1
          (u16_of_int (dos_read_file int21 i chunk file_transfer_chunk_bytes w).0)
          (dos_read_file int21 i chunk file_transfer_chunk_bytes w).2).1
        {done = done} {n = n} {chunk' = chunk'} {w' = w'},
  )

-- What `collect_loop` keeps of the entries and of the disk transfer area.
pub record Kept (entries : List DirListEntry) (dta : List ℕ) (most : ℕ) (count : ℕ)
    (entries' : List DirListEntry) (dta' : List ℕ) : Type 0 where
  pub entries_kept : length entries' ≡ length entries
  pub names_kept : NamesSized entries'
  pub dta_kept : length dta' ≡ length dta
  pub bounded : count ≤ most

module _ {W : Type 0} (int21 : Int21 W) (start most : ℕ) where
  pub collect_loop-Kept :
      (fuel seen count : ℕ) (entries : List DirListEntry) (dta : List ℕ) (w : W) {count' : ℕ}
      {entries' : List DirListEntry} {dta' : List ℕ} {w' : W}
      → NamesSized entries
      → count ≤ most
      → collect_loop int21 fuel start most seen count entries dta w
        ≡ some (count', entries', dta', w')
      → Kept entries dta most count' entries' dta'
  unfolding collect_loop
  collect_loop-Kept zero seen count entries dta w names h e = cc
  collect_loop-Kept (suc fuel) seen count entries dta w {count'} {entries'} {dta'} {w'} names h e =
      ground (
        arith,
        length-dos_find_next int21 dta w,
        length-set entries count (entry_of_dta dta),
        NamesSized-set entries count dta names,
        collect_loop-Kept fuel (u16 (seen + 1)) count entries (dos_find_next int21 dta w).1
            (dos_find_next int21 dta w).2 {count' = count'} {entries' = entries'} {dta' = dta'}
            {w' = w'},
        collect_loop-Kept fuel (u16 (seen + 1)) (count + 1) (set entries count (entry_of_dta dta))
            (dos_find_next int21 dta w).1 (dos_find_next int21 dta w).2 {count' = count'}
            {entries' = entries'} {dta' = dta'} {w' = w'},
      )
