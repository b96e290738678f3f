-- ===== src/FileTransfer/Dir/Reported.antt =====
-- What DOS reports of a directory entry, as the disk transfer area lays it out.
use rmtdos_utils.Prelude.{
  ℕ, zero, suc, ◌+◌, ◌-◌, ◌*◌, ◌≤◌, ◌≡◌, refl, List, [], ◌∷◌, ◌++◌, map, arith, length, take, drop,
  byte, overlay, replicate, length-drop, ap, ap₂, ◌∙◌, ◌==◌, if◌then◌else◌,
}
use rmtdos_utils.FileTransfer.State.{DirListEntry}
use rmtdos_utils.FileTransfer.Dos.{dta_get_u16, dta_get_u32}
use rmtdos_utils.FileTransfer.Path.Equal.{c_string}
use rmtdos_utils.FileTransfer.Dir.{copy_name, copy_dta_name, entry_of_dta}
use rmtdos_utils.FileTransfer.Dir.Page.{page}

-- Attributes at 21, time at 22, date at 24 and size at 26, the lower bytes first; the name at 30, up
-- to its NUL, in an array of 64 bytes.
unfoldable pub reported : List ℕ → DirListEntry
reported d =
    let name = c_string (drop 30 d) in
    record {
      attributes = byte d 21;
      size = byte d 26 + 256 * (byte d 27 + 256 * (byte d 28 + 256 * byte d 29));
      dos_time = byte d 22 + 256 * byte d 23;
      dos_date = byte d 24 + 256 * byte d 25;
      name = name ++ replicate (64 - length name) 0;
    }

-- A page of a directory: `left` entries at most, after `skip` that are passed over.
abbrev pub reported_page : ℕ → ℕ → List (List ℕ) → List DirListEntry
reported_page skip left ds = map reported (take left (drop skip ds))

-- Every area is as long as DOS makes it.
abbrev pub AreAreas : List (List ℕ) → Type 0
AreAreas [] = Unit {0}
AreAreas (d ∷ ds) = (length d ≡ 43) × AreAreas ds

copy_name-c_string : (room : ℕ) (xs : List ℕ) → length xs ≤ room → copy_name room xs ≡ c_string xs
unfolding copy_name c_string
copy_name-c_string zero [] h = refl
copy_name-c_string zero (x ∷ xs) h = absurd (omega arith)
copy_name-c_string (suc room) [] h = refl
copy_name-c_string (suc room) (x ∷ xs) h =
    ap (λ r. if x == 0 then [] else x ∷ r) (copy_name-c_string room xs (omega arith))

length-c_string : (xs : List ℕ) → length (c_string xs) ≤ length xs
unfolding c_string
length-c_string [] = omega arith
length-c_string (x ∷ xs) = ground (arith, length-c_string xs)

overlay-replicate :
    (n : ℕ) (xs : List ℕ)
    → length xs ≤ n
    → overlay xs (replicate n 0) ≡ xs ++ replicate (n - length xs) 0
overlay-replicate n [] h = ap (λ m. replicate m 0) (omega arith)
overlay-replicate zero (x ∷ xs) h = absurd (omega arith)
overlay-replicate (suc n) (x ∷ xs) h =
    ap (λ r. x ∷ r)
      (overlay-replicate n xs (omega arith)
        ∙ ap (λ m. xs ++ replicate m 0) {y = suc n - suc (length xs)} (omega arith))

name-reported :
    (d : List ℕ)
    → length d ≡ 43
    → copy_dta_name d ≡ c_string (drop 30 d) ++ replicate (64 - length (c_string (drop 30 d))) 0
unfolding copy_dta_name
name-reported d size =
    let short : length (drop 30 d) ≤ 13 = omega (arith, size, length-drop 30 d) in
    rw (copy_dta_name, copy_name-c_string 63 (drop 30 d) (omega arith))
      (overlay-replicate 64 (c_string (drop 30 d)) (omega (arith, length-c_string (drop 30 d))))

abbrev entry : ℕ → ℕ → ℕ → ℕ → List ℕ → DirListEntry
entry attributes size date time name = record {
  attributes = attributes;
  size = size;
  dos_date = date;
  dos_time = time;
  name = name;
}

same_fields :
    (attributes : ℕ) {size size' date date' time time' : ℕ} {name name' : List ℕ}
    → name ≡ name'
    → size ≡ size'
    → date ≡ date'
    → time ≡ time'
    → entry attributes size date time name ≡ entry attributes size' date' time' name'
same_fields attributes n s d t = rw (n, s, d, t) refl

entry_of_dta-reported : (d : List ℕ) → length d ≡ 43 → entry_of_dta d ≡ reported d
unfolding entry_of_dta reported dta_get_u16 dta_get_u32
entry_of_dta-reported d size =
    same_fields (byte d 21) (name-reported d size) (omega arith) (omega arith) (omega arith)

take-AreAreas : (n : ℕ) (ds : List (List ℕ)) → AreAreas ds → AreAreas (take n ds)
take-AreAreas zero ds h = tt
take-AreAreas (suc n) [] h = tt
take-AreAreas (suc n) (d ∷ ds) h = (h.0, take-AreAreas n ds h.1)

drop-AreAreas : (n : ℕ) (ds : List (List ℕ)) → AreAreas ds → AreAreas (drop n ds)
drop-AreAreas zero ds h = h
drop-AreAreas (suc n) [] h = tt
drop-AreAreas (suc n) (d ∷ ds) h = drop-AreAreas n ds h.1

map-reported : (ds : List (List ℕ)) → AreAreas ds → map entry_of_dta ds ≡ map reported ds
map-reported [] h = refl
map-reported (d ∷ ds) h = ap₂ (λ e es. e ∷ es) (entry_of_dta-reported d h.0) (map-reported ds h.1)

pub page-reported :
    (skip left : ℕ) (ds : List (List ℕ))
    → AreAreas ds
    → page skip left ds ≡ reported_page skip left ds
page-reported skip left ds h =
    map-reported (take left (drop skip ds)) (take-AreAreas left _ (drop-AreAreas skip ds h))
