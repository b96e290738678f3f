-- ===== src/FileTransfer/Dir/Listing.antt =====
-- `collect_dir_entries` as a whole: the page of the directory that was asked for.
use native.Mathlib.Nat.{sub-zero, zero-add}
use rmtdos_utils.Prelude.{
  ℕ, zero, suc, ◌+◌, ◌^◌, ◌≤◌, ◌<◌, ◌≡◌, true, false, some, List, [], ◌∷◌, arith, length, take,
  get_or, min, ap, sym, ◌∙◌,
}
use rmtdos_utils.Wire.AckStatus
use rmtdos_utils.FileTransfer.State.{FileTransferState, rmtdos_path_bytes, dir_list_page_entries}
use rmtdos_utils.FileTransfer.Dos.{
  Int21, find_first, find_next, dos_find_first, dos_get_dta, dos_set_dta, dos_restore_dta,
}
use rmtdos_utils.FileTransfer.Path.{build_dir_pattern}
use rmtdos_utils.FileTransfer.Path.Equal.{c_string}
use rmtdos_utils.FileTransfer.Path.Pattern.{build_dir_pattern_total}
use rmtdos_utils.FileTransfer.Invariant.{IsValid}
use rmtdos_utils.FileTransfer.Dir.{collect_dir_entries}
use rmtdos_utils.FileTransfer.Dir.Page.Loop.{collect_loop-Collected}
use rmtdos_utils.FileTransfer.Dir.Reported.{AreAreas, reported_page, page-reported}
use rmtdos_utils.FileTransfer.Dir.Page.{Remaining, overlay-same, page-nil}

-- What DOS reports for a pattern: nothing, or a first entry and then the others.
abbrev pub Found : {W : Type 0} → Int21 W → W → List ℕ → List (List ℕ) → Type 0
Found int21 w pattern [] = (int21 w (find_first 0x37 pattern)).1.carry ≡ true
Found int21 w pattern (d ∷ ds) =
    ((int21 w (find_first 0x37 pattern)).1.carry ≡ false)
    × ((int21 w (find_first 0x37 pattern)).1.stored ≡ d)
    × (length d ≡ 43)
    × Remaining int21 (int21 w (find_first 0x37 pattern)).0 ds

-- The reply's contents: the state and world after `collect_dir_entries`, and the count.
pub record Listed {W : Type 0} (int21 : Int21 W) (fuel : ℕ) (s : FileTransferState) (w : W)
    (listing : List (List ℕ)) : Type 0 where
  pub count : ℕ
  pub after : FileTransferState
  pub w' : W
  pub returns : collect_dir_entries int21 fuel s w ≡ some (AckStatus.ok, count, after, w')
  pub counted :
      count
      ≡ length
          (reported_page s.dir_start_index (min s.dir_max_entries dir_list_page_entries) listing)
  pub stored :
      take count after.dir_entries
      ≡ reported_page s.dir_start_index (min s.dir_max_entries dir_list_page_entries) listing

Remaining-AreAreas :
    {W : Type 0} (int21 : Int21 W) (w : W) (ds : List (List ℕ)) → Remaining int21 w ds → AreAreas ds
Remaining-AreAreas int21 w [] h = tt
Remaining-AreAreas int21 w (d ∷ ds) h = (h.2, Remaining-AreAreas int21 (int21 w find_next).0 ds h.3)

-- The path that the server keeps always gives a pattern.
pub c_string_bound : (xs : List ℕ) (i : ℕ) → get_or xs i 1 ≡ 0 → length (c_string xs) ≤ i
unfolding c_string
c_string_bound [] i h = absurd (omega arith)
c_string_bound (x ∷ xs) zero h = ground arith
c_string_bound (x ∷ xs) (suc i) h = ground (arith, c_string_bound xs i h)

pub dir_pattern :
    {s : FileTransferState}
    → IsValid s
    → (pattern : List ℕ) × (build_dir_pattern (rmtdos_path_bytes + 5) s.dir_path ≡ some pattern)
      × (length pattern < rmtdos_path_bytes + 5)
dir_pattern {s} v =
    build_dir_pattern_total s.dir_path (c_string_bound s.dir_path 127 v.dir_path_ok.ended)

module _ {W : Type 0} (int21 : Int21 W) {s : FileTransferState} (v : IsValid s) (w : W) where
  abbrev searching : W
  searching = dos_set_dta int21 (dos_get_dta int21 w).2

  Found-none :
      (pattern : List ℕ)
      → Found int21 searching pattern []
      → (dos_find_first int21 pattern s.dta searching).0 ≡ false
  unfolding dos_find_first
  Found-none pattern found = rw found

  Found-first :
      (pattern d : List ℕ) (ds : List (List ℕ))
      → Found int21 searching pattern (d ∷ ds)
      → dos_find_first int21 pattern s.dta searching
        ≡ (true, d, (int21 searching (find_first 0x37 pattern)).0)
  unfolding dos_find_first
  Found-first pattern d ds found = ground (
    arith,
    overlay-same (int21 searching (find_first 0x37 pattern)).1.stored s.dta
        (omega (arith, ap length found.1, v.dta_sized)),
  )

  -- The reply to a page request, in a well-formed state: whatever the directory holds, and
  -- wherever the page begins, the entries sent are exactly that page of what DOS reports, in its
  -- order, each with the attributes, size, date, time and name at their places in the area that
  -- DOS fills, and the loop ends with as much fuel as there are entries. The directory has fewer
  -- than 65536 entries.
  pub collect_dir_entries_page :
      (fuel : ℕ) (listing : List (List ℕ))
      → Found int21 searching (dir_pattern v).0 listing
      → length listing ≤ fuel
      → length listing < 2 ^ 16
      → Listed int21 fuel s w listing
  unfolding collect_dir_entries
  collect_dir_entries_page fuel [] found enough few =
      let (pattern, built, fits) = dir_pattern v in
      let (segment, offset, w1) = dos_get_dta int21 w in
      let none_left =
        sym (page-reported s.dir_start_index (min s.dir_max_entries dir_list_page_entries) [] tt)
        ∙ page-nil s.dir_start_index (min s.dir_max_entries dir_list_page_entries) in
      record {
        count = 0;
        after = record s { dta = (dos_find_first int21 pattern s.dta searching).1 };
        w' = dos_restore_dta int21 segment offset (dos_find_first int21 pattern s.dta searching).2;
        returns = rw (built, Found-none pattern found, collect_dir_entries);
        counted = rw none_left;
        stored = rw none_left;
      }
  collect_dir_entries_page fuel (d ∷ ds) found enough few =
      let (pattern, built, fits) = dir_pattern v in
      let (segment, offset, w1) = dos_get_dta int21 w in
      let most = min s.dir_max_entries dir_list_page_entries in
      let same = page-reported s.dir_start_index most (d ∷ ds) (
        found.2,
        Remaining-AreAreas int21 (int21 searching (find_first 0x37 pattern)).0 ds found.3,
      ) in
      let c =
        collect_loop-Collected int21 s.dir_start_index (min s.dir_max_entries dir_list_page_entries)
          fuel 0 0 s.dir_entries d (int21 searching (find_first 0x37 pattern)).0 ds found.3 found.2
          (omega arith) (omega arith) (omega arith) (omega (arith, v.entries_sized)) in
      record {
        count = c.count';
        after = record s { dta = c.dta'; dir_entries = c.entries' };
        w' = dos_restore_dta int21 segment offset c.w';
        returns = rw (built, Found-first pattern d ds found, c.returns, collect_dir_entries);
        counted = simp (sub-zero, zero-add) at c.counted ∙ ap (λ es. length es) same;
        stored = simp (sub-zero) at c.stored ∙ same;
      }
