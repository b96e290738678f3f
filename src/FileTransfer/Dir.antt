-- ===== src/FileTransfer/Dir.antt =====
-- `copy_dta_name` and `collect_dir_entries` of server/file_transfer.c.
pub mod Listing
pub mod Page
pub mod Reported
use rmtdos_utils.Prelude.{
  ℕ, zero, suc, ◌+◌, Option, none, some, List, [], ◌∷◌, ◌==◌, ◌&&◌, ltb, leb, if◌then◌else◌, byte,
  drop, set, replicate, overlay, u16, min,
}
use rmtdos_utils.Wire.AckStatus
use rmtdos_utils.FileTransfer.State.{
  FileTransferState, DirListEntry, rmtdos_path_bytes, dir_list_page_entries,
}
use rmtdos_utils.FileTransfer.Dos.{
  Int21, dos_find_first, dos_find_next, dos_get_dta, dos_set_dta, dos_restore_dta, dta_get_u16,
  dta_get_u32,
}
use rmtdos_utils.FileTransfer.Path.{build_dir_pattern}

-- The loop of `copy_dta_name`: `room` is `dest_len - 1 - i`.
unfoldable pub copy_name : ℕ → List ℕ → List ℕ
copy_name zero src = []
copy_name (suc room) [] = []
copy_name (suc room) (c ∷ src) = let rest = copy_name room src in if c == 0 then [] else c ∷ rest

-- `copy_dta_name(entry->name, 64)` on an entry that `memset` has cleared.
unfoldable pub copy_dta_name : List ℕ → List ℕ
unfolding copy_name
copy_dta_name dta = overlay (copy_name 63 (drop 30 dta)) (replicate 64 0)

-- The entry that the disk transfer area describes.
unfoldable pub entry_of_dta : List ℕ → DirListEntry
entry_of_dta dta = record {
  attributes = byte dta 21;
  size = dta_get_u32 dta 26;
  dos_time = dta_get_u16 dta 22;
  dos_date = dta_get_u16 dta 24;
  name = copy_dta_name dta;
}

module _ {W : Type 0} (int21 : Int21 W) where
  -- The `do … while` loop, entered with an entry in `dta`; `none` when the fuel has run out.
  unfoldable pub collect_loop :
      ℕ
      → (start max_entries seen count : ℕ) → List DirListEntry
      → List ℕ
      → W
      → Option (ℕ × List DirListEntry × List ℕ × W)
  collect_loop zero start max_entries seen count entries dta w = none
  collect_loop (suc fuel) start max_entries seen count entries dta w =
      let wanted = leb start seen && ltb count max_entries in
      let entries' = if wanted then set entries count (entry_of_dta dta) else entries in
      let count' = if wanted then count + 1 else count in
      let (found, dta', w') = dos_find_next int21 dta w in
      let rest = collect_loop fuel start max_entries (u16 (seen + 1)) count' entries' dta' w' in
      if ltb count' max_entries
      then (if found then rest else some (count', entries', dta', w'))
      else some (count', entries', dta, w)

  -- The status and the count, with the new state and world.
  unfoldable pub collect_dir_entries :
      ℕ → FileTransferState → W → Option (ℕ × ℕ × FileTransferState × W)
  collect_dir_entries fuel s w =
      let max_entries = min s.dir_max_entries dir_list_page_entries in
      elim (build_dir_pattern (rmtdos_path_bytes + 5) s.dir_path) [
        | none ↦ some (AckStatus.error, 0, s, w)
        | some pattern ↦
            let (segment, offset, w1) = dos_get_dta int21 w in
            let (found, dta, w2) = dos_find_first int21 pattern s.dta (dos_set_dta int21 w1) in
            if found
            then elim (collect_loop fuel s.dir_start_index max_entries 0 0 s.dir_entries dta w2) [
              | none ↦ none
              | some (count, entries, dta', w3) ↦ some (
                AckStatus.ok,
                count,
                record s { dta = dta'; dir_entries = entries },
                dos_restore_dta int21 segment offset w3,
              )
            ]
            else some
                (AckStatus.ok, 0, record s { dta = dta }, dos_restore_dta int21 segment offset w2)
      ]
