-- ===== src/FileTransfer/Dir/Page.antt =====
-- What `collect_loop` collects: one page of the directory.
pub mod Loop
pub mod Round
use mathlib.Core.List.{append_assoc, append-nil}
use rmtdos_utils.Prelude.{
  ℕ, zero, suc, ◌+◌, ◌-◌, ◌^◌, ◌≤◌, ◌<◌, ◌≡◌, refl, Bool, true, false, some, List, [], ◌∷◌, ◌++◌,
  map, arith, length, take, drop, set, overlay, ltb, leb, u16, Bool-cases, inl, inr, ◌&&◌,
  if◌then◌else◌, ap, ap₂, sym, ◌∙◌, length-set,
}
use rmtdos_utils.FileTransfer.State.{DirListEntry}
use rmtdos_utils.FileTransfer.Dos.{Int21, find_next, dos_find_next}
use rmtdos_utils.FileTransfer.Dir.{entry_of_dta, collect_loop}

-- What DOS still has to report of a directory search: each `find_next` stores the next entry.
abbrev pub Remaining : {W : Type 0} → Int21 W → W → List (List ℕ) → Type 0
Remaining int21 w [] = (int21 w find_next).1.carry ≡ true
Remaining int21 w (d ∷ ds) =
    ((int21 w find_next).1.carry ≡ false)
    × ((int21 w find_next).1.stored ≡ d)
    × (length d ≡ 43)
    × Remaining int21 (int21 w find_next).0 ds

-- A page: `left` entries at most, after `skip` that are passed over.
abbrev pub page : ℕ → ℕ → List (List ℕ) → List DirListEntry
page skip left ds = map entry_of_dta (take left (drop skip ds))

-- The outcome of the loop: the page was put behind the entries that were there.
pub record Collected {W : Type 0} (int21 : Int21 W) (fuel start most seen count : ℕ)
    (entries : List DirListEntry) (dta : List ℕ) (w : W) (ds : List (List ℕ)) : Type 0 where
  pub count' : ℕ
  pub entries' : List DirListEntry
  pub dta' : List ℕ
  pub w' : W
  pub returns :
      collect_loop int21 fuel start most seen count entries dta w
      ≡ some (count', entries', dta', w')
  pub counted : count' ≡ count + length (page (start - seen) (most - count) (dta ∷ ds))
  pub stored :
      take count' entries' ≡ take count entries ++ page (start - seen) (most - count) (dta ∷ ds)

pub overlay-same : (d dta : List ℕ) → length d ≡ length dta → overlay d dta ≡ d
overlay-same [] [] h = refl
overlay-same [] (y ∷ ys) h = absurd (omega arith)
overlay-same (x ∷ xs) [] h = absurd (omega arith)
overlay-same (x ∷ xs) (y ∷ ys) h = ap (λ r. x ∷ r) (overlay-same xs ys (omega arith))

-- Writing at the end of a prefix extends it by what is written.
pub take-set :
    (entries : List DirListEntry) (n : ℕ) (e : DirListEntry)
    → n < length entries
    → take (n + 1) (set entries n e) ≡ take n entries ++ (e ∷ [])
take-set [] n e h = absurd (omega arith)
take-set (x ∷ xs) zero e h = refl
take-set (x ∷ xs) (suc n) e h =
    ap (λ m. take m (x ∷ set xs n e)) {y = suc (n + 1)} (omega arith)
    ∙ ap (λ r. x ∷ r) (take-set xs n e (omega arith))

pub page-skip :
    (skip left : ℕ) (d : List ℕ) (ds : List (List ℕ))
    → 0 < skip
    → page skip left (d ∷ ds) ≡ page (skip - 1) left ds
page-skip zero left d ds h = absurd (omega arith)
page-skip (suc skip) left d ds h = ap (λ k. page k left ds) (omega arith)

pub page-here :
    (skip left : ℕ) (d : List ℕ) (ds : List (List ℕ))
    → skip ≡ 0
    → 0 < left
    → page skip left (d ∷ ds) ≡ entry_of_dta d ∷ page 0 (left - 1) ds
page-here zero zero d ds e h = absurd (omega arith)
page-here zero (suc left) d ds e h = ap (λ k. entry_of_dta d ∷ page 0 k ds) (omega arith)
page-here (suc skip) left d ds e h = absurd (omega arith)

pub page-none : (skip left : ℕ) (ds : List (List ℕ)) → left ≡ 0 → page skip left ds ≡ []
page-none skip zero ds e = refl
page-none skip (suc left) ds e = absurd (omega arith)

pub page-nil : (skip left : ℕ) → page skip left [] ≡ []
page-nil zero zero = refl
page-nil zero (suc left) = refl
page-nil (suc skip) zero = refl
page-nil (suc skip) (suc left) = refl
