-- ===== src/FileTransfer/Dir/Page/Loop.antt =====
-- All rounds of `collect_loop`.
use rmtdos_utils.Prelude.{
  ℕ, zero, suc, ◌+◌, ◌-◌, ◌^◌, ◌≤◌, ◌<◌, ◌≡◌, true, false, List, [], ◌∷◌, arith, length, ltb, u16,
  Bool-cases, inl, inr, ◌∙◌,
}
use rmtdos_utils.FileTransfer.State.{DirListEntry}
use rmtdos_utils.FileTransfer.Dos.{Int21, find_next, dos_find_next}
use rmtdos_utils.FileTransfer.Dir.{collect_loop}
use rmtdos_utils.FileTransfer.Dir.Page.{Remaining, Collected, page-none, page-nil}
use rmtdos_utils.FileTransfer.Dir.Page.Round.{
  next-end, next-more, count1, entries1, one-Round, ended,
}

module _ {W : Type 0} (int21 : Int21 W) (start most : ℕ) where
  -- The page is full: the search is not asked again.
  full_page :
      (fuel seen count : ℕ) (entries : List DirListEntry) (dta : List ℕ) (w : W)
      (ds : List (List ℕ))
      → count ≡ seen - start
      → most ≤ length entries
      → ltb (count1 start most seen count) most ≡ false
      → Collected int21 (suc fuel) start most seen count entries dta w ds
  full_page fuel seen count entries dta w ds place room full =
      let n = count1 start most seen count in
      let es = entries1 start most seen count entries dta in
      let round = one-Round start most seen count entries dta ds place room in
      let (total, put) =
        ended start most seen count entries dta ds n es round
          (page-none (start - (seen + 1)) (most - n) ds (ground arith)) in
      record {
        count' = n;
        entries' = es;
        dta' = dta;
        w' = w;
        returns = unfold collect_loop in rw full;
        counted = total;
        stored = put;
      }

  -- The search has no more entries.
  last_entry :
      (fuel seen count : ℕ) (entries : List DirListEntry) (dta : List ℕ) (w : W)
      → Remaining int21 w []
      → count ≡ seen - start
      → most ≤ length entries
      → ltb (count1 start most seen count) most ≡ true
      → Collected int21 (suc fuel) start most seen count entries dta w []
  last_entry fuel seen count entries dta w r place room more =
      let n = count1 start most seen count in
      let es = entries1 start most seen count entries dta in
      let round = one-Round start most seen count entries dta [] place room in
      let (total, put) =
        ended start most seen count entries dta [] n es round
          (page-nil (start - (seen + 1)) (most - n)) in
      record {
        count' = n;
        entries' = es;
        dta' = (dos_find_next int21 dta w).1;
        w' = (dos_find_next int21 dta w).2;
        returns = unfold collect_loop in rw (more, next-end int21 dta w r);
        counted = total;
        stored = put;
      }

  -- The page has room and the search goes on: the next round.
  continues :
      (fuel seen count : ℕ) (entries : List DirListEntry) (dta : List ℕ) (w : W) (d : List ℕ)
      (ds : List (List ℕ))
      → Remaining int21 w (d ∷ ds)
      → length dta ≡ 43
      → seen + 1 < 2 ^ 16
      → ltb (count1 start most seen count) most ≡ true
      → collect_loop int21 (suc fuel) start most seen count entries dta w
        ≡ collect_loop int21 fuel start most
            (seen + 1)
            (count1 start most seen count)
            (entries1 start most seen count entries dta)
            d
            (int21 w find_next).0
  unfolding collect_loop
  continues fuel seen count entries dta w d ds r h k more =
      let wrap : u16 (seen + 1) ≡ seen + 1 = omega arith in
      rw (more, next-more int21 dta w d ds h r, wrap)

  pub collect_loop-Collected :
      (fuel seen count : ℕ) (entries : List DirListEntry) (dta : List ℕ) (w : W)
      (ds : List (List ℕ))
      → Remaining int21 w ds
      → length dta ≡ 43
      → length ds < fuel
      → seen + length ds < 2 ^ 16
      → count ≡ seen - start
      → most ≤ length entries
      → Collected int21 fuel start most seen count entries dta w ds
  collect_loop-Collected zero seen count entries dta w ds r h f k place room = absurd (omega arith)
  collect_loop-Collected (suc fuel) seen count entries dta w [] r h f k place room =
      elim (Bool-cases (ltb (count1 start most seen count) most)) [
        | inl more ↦ last_entry fuel seen count entries dta w r place room more
        | inr full ↦ full_page fuel seen count entries dta w [] place room full
      ]
  collect_loop-Collected (suc fuel) seen count entries dta w (d ∷ ds) r h f k place room =
      let n = count1 start most seen count in
      let es = entries1 start most seen count entries dta in
      let round = one-Round start most seen count entries dta (d ∷ ds) place room in
      elim (Bool-cases (ltb n most)) [
        | inl more ↦
            let c =
              collect_loop-Collected fuel (seen + 1) n es d (int21 w find_next).0 ds r.3 r.2
                (omega arith) (omega arith) (round.place1 (ground arith))
                (omega (arith, round.room1)) in
            record {
              count' = c.count';
              entries' = c.entries';
              dta' = c.dta';
              w' = c.w';
              returns =
                  continues fuel seen count entries dta w d ds r h (omega arith) more ∙ c.returns;
              counted = c.counted ∙ round.counted1;
              stored = c.stored ∙ round.stored1;
            }
        | inr full ↦ full_page fuel seen count entries dta w (d ∷ ds) place room full
      ]
