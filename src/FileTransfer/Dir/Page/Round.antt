-- ===== src/FileTransfer/Dir/Page/Round.antt =====
-- One round of `collect_loop`.
use mathlib.Core.List.{append_assoc, append-nil}
use rmtdos_utils.Prelude.{
  ℕ, ◌+◌, ◌-◌, ◌≤◌, ◌<◌, ◌≡◌, refl, Bool, true, false, List, [], ◌∷◌, ◌++◌, arith, length, take,
  set, ltb, leb, Bool-cases, inl, inr, ◌&&◌, if◌then◌else◌, ap, ap₂, sym, ◌∙◌, length-set,
}
use rmtdos_utils.FileTransfer.State.{DirListEntry}
use rmtdos_utils.FileTransfer.Dos.{Int21, find_next, dos_find_next}
use rmtdos_utils.FileTransfer.Dir.{entry_of_dta}
use rmtdos_utils.FileTransfer.Dir.Page.{
  Remaining, page, overlay-same, take-set, page-skip, page-here, page-none,
}

module _ {W : Type 0} (int21 : Int21 W) where
  pub next-end :
      (dta : List ℕ) (w : W) → Remaining int21 w [] → (dos_find_next int21 dta w).0 ≡ false
  unfolding dos_find_next
  next-end dta w r = rw r

  pub next-more :
      (dta : List ℕ) (w : W) (d : List ℕ) (ds : List (List ℕ))
      → length dta ≡ 43
      → Remaining int21 w (d ∷ ds)
      → dos_find_next int21 dta w ≡ (true, d, (int21 w find_next).0)
  unfolding dos_find_next
  next-more dta w d ds h r =
      ground (arith, overlay-same (int21 w find_next).1.stored dta (omega (arith, ap length r.1)))

-- The count and the entries after one round.
module _ (start most seen count : ℕ) where
  abbrev pub wanted : Bool
  wanted = leb start seen && ltb count most

  abbrev pub count1 : ℕ
  count1 = if wanted then count + 1 else count

  module _ (entries : List DirListEntry) (dta : List ℕ) where
    abbrev pub entries1 : List DirListEntry
    entries1 = if wanted then set entries count (entry_of_dta dta) else entries

-- One round takes its entry off the page, or passes it over.
pub record Round (start most seen count : ℕ) (entries : List DirListEntry) (dta : List ℕ)
    (ds : List (List ℕ)) (n : ℕ) (es : List DirListEntry) : Type 0 where
  pub place1 : n < most → n ≡ seen + 1 - start
  pub room1 : length es ≡ length entries
  pub counted1 :
      n + length (page (start - (seen + 1)) (most - n) ds)
      ≡ count + length (page (start - seen) (most - count) (dta ∷ ds))
  pub stored1 :
      take n es ++ page (start - (seen + 1)) (most - n) ds
      ≡ take count entries ++ page (start - seen) (most - count) (dta ∷ ds)

module _ (start most seen count : ℕ) (entries : List DirListEntry) (dta : List ℕ)
    (ds : List (List ℕ)) (place : count ≡ seen - start) (room : most ≤ length entries) where
  Round-taken :
      start ≤ seen
      → count < most
      → Round start most seen count entries dta ds
          (count + 1)
          (set entries count (entry_of_dta dta))
  Round-taken here more =
      let rest = page 0 (most - count - 1) ds in
      let later : page (start - (seen + 1)) (most - (count + 1)) ds ≡ rest =
        ap₂ (λ a b. page a b ds) {y = 0} {v = most - count - 1} (omega arith) (omega arith) in
      let now : page (start - seen) (most - count) (dta ∷ ds) ≡ entry_of_dta dta ∷ rest =
        page-here (start - seen) (most - count) dta ds (omega arith) (omega arith) in
      record {
        place1 = λ _. omega arith;
        room1 = length-set entries count (entry_of_dta dta);
        counted1 = rw (later, now) (omega arith);
        stored1 =
            rw (later, now, take-set entries count (entry_of_dta dta) (omega arith))
              (append_assoc (take count entries) (entry_of_dta dta ∷ []) rest);
      }

  Round-skipped :
      seen < start → count < most → Round start most seen count entries dta ds count entries
  Round-skipped before more =
      let same : page (start - seen) (most - count) (dta ∷ ds)
          ≡ page (start - (seen + 1)) (most - count) ds =
        page-skip (start - seen) (most - count) dta ds (omega arith)
        ∙ ap (λ a. page a (most - count) ds) (omega arith) in
      record { place1 = λ _. omega arith; room1 = refl; counted1 = rw same; stored1 = rw same }

  Round-full : most ≤ count → Round start most seen count entries dta ds count entries
  Round-full full =
      let later : page (start - (seen + 1)) (most - count) ds ≡ [] =
        page-none (start - (seen + 1)) (most - count) ds (omega arith) in
      let now : page (start - seen) (most - count) (dta ∷ ds) ≡ [] =
        page-none (start - seen) (most - count) (dta ∷ ds) (omega arith) in
      record {
        place1 = λ m. absurd (omega arith);
        room1 = refl;
        counted1 = rw (later, now);
        stored1 = rw (later, now);
      }

  pub one-Round :
      Round start most seen count entries dta ds
        (count1 start most seen count)
        (entries1 start most seen count entries dta)
  one-Round = elim (Bool-cases (leb start seen)) [
    | inl here ↦ elim (Bool-cases (ltb count most)) [
      | inl more ↦ rw (here, more) (Round-taken (ground arith) (ground arith))
      | inr full ↦ rw (here, full) (Round-full (ground arith))
    ]
    | inr before ↦ elim (Bool-cases (ltb count most)) [
      | inl more ↦ rw before (Round-skipped (ground arith) (ground arith))
      | inr full ↦ rw before (Round-full (ground arith))
    ]
  ]

-- Nothing of the page is left after this round.
pub ended :
    (start most seen count : ℕ) (entries : List DirListEntry) (dta : List ℕ) (ds : List (List ℕ))
    (n : ℕ) (es : List DirListEntry)
    → Round start most seen count entries dta ds n es
    → page (start - (seen + 1)) (most - n) ds ≡ []
    → (n ≡ count + length (page (start - seen) (most - count) (dta ∷ ds)))
      × (take n es ≡ take count entries ++ page (start - seen) (most - count) (dta ∷ ds))
ended start most seen count entries dta ds n es round end =
    let total = rw end at round.counted1 in
    (omega (arith, total), sym (append-nil (take n es)) ∙ (rw end at round.stored1))
