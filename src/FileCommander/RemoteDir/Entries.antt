-- ===== src/FileCommander/RemoteDir/Entries.antt =====
-- The entries of the server's reply, as the file manager reads them.
use Prim.Native.Nat.{bit_and}
use mathlib.Core.List.{append_assoc}
use rmtdos_utils.Prelude.{
  ℕ, zero, suc, ◌^◌, ◌<◌, ◌≤◌, ◌≡◌, ◌∙◌, refl, sym, ap, ap₂, not, List, [], ◌∷◌, ◌++◌, map, arith,
  ◌==◌, length, take, drop, overlay, get_or, length-take, be16_roundtrip, be32_roundtrip, get_be16,
}
use rmtdos_utils.Wire.{frame}
use rmtdos_utils.Wire.AckStatus
use rmtdos_utils.FileTransfer.State.{FileTransferState, DirListEntry}
use rmtdos_utils.FileTransfer.Invariant.{NamesSized}
use rmtdos_utils.FileTransfer.Send.Replies.{send_dir_list_data-WellFormed}
use rmtdos_utils.FileTransfer.Send.{Net, send_dir_list_data, entry_bytes, entries_bytes}
use rmtdos_utils.FileTransfer.Path.Equal.{c_string}
use rmtdos_utils.FileTransfer.Dir.Listing.{c_string_bound}
use rmtdos_utils.FileCommander.RemoteDir.{RemoteDirEntry, read_entry, read_entries, page_of}
use rmtdos_utils.FileCommander.RemoteDir.Listing.{take-of_le}

-- An entry of the server as the file manager shows it.
abbrev pub shown : DirListEntry → RemoteDirEntry
shown e = record {
  name = c_string e.name;
  attributes = e.attributes;
  size = e.size;
  dos_date = e.dos_date;
  dos_time = e.dos_time;
  is_dir = not (bit_and e.attributes 0x10 == 0);
}

-- The name fills its array and ends in it, and the numbers have their C types.
pub record IsEntry (e : DirListEntry) : Type 0 where
  pub sized : length e.name ≡ 64
  pub ended : get_or e.name 63 1 ≡ 0
  pub size_ok : e.size < 2 ^ 32
  pub date_ok : e.dos_date < 2 ^ 16
  pub time_ok : e.dos_time < 2 ^ 16

abbrev pub AreEntries : List DirListEntry → Type 0
AreEntries [] = Unit {0}
AreEntries (e ∷ es) = IsEntry e × AreEntries es

module _ {ℓ} {A : Type ℓ} where
  pub drop-append_of_length : (n : ℕ) (xs ys : List A) → length xs ≡ n → drop n (xs ++ ys) ≡ ys
  drop-append_of_length zero [] ys h = refl
  drop-append_of_length zero (x ∷ xs) ys h = absurd (omega arith)
  drop-append_of_length (suc n) [] ys h = absurd (omega arith)
  drop-append_of_length (suc n) (x ∷ xs) ys h = drop-append_of_length n xs ys (omega arith)

  overlay-append :
      (xs ys : List A) → length xs ≤ length ys → overlay xs ys ≡ xs ++ drop (length xs) ys
  overlay-append [] ys h = refl
  overlay-append (x ∷ xs) [] h = absurd (omega arith)
  overlay-append (x ∷ xs) (y ∷ ys) h = ap (λ r. x ∷ r) (overlay-append xs ys (omega arith))

c_string-append :
    (name rest : List ℕ) (i : ℕ) → get_or name i 1 ≡ 0 → c_string (name ++ rest) ≡ c_string name
unfolding c_string
c_string-append [] rest i h = absurd (omega arith)
c_string-append (c ∷ name) rest zero h = ground arith
c_string-append (c ∷ name) rest (suc i) h = ground (arith, c_string-append name rest i h)

read_entry-entry_bytes :
    (e : DirListEntry) (rest : List ℕ) → IsEntry e → read_entry (entry_bytes e ++ rest) ≡ shown e
unfolding entry_bytes
read_entry-entry_bytes e rest v =
    let size = be32_roundtrip e.size v.size_ok in
    let date = be16_roundtrip e.dos_date v.date_ok in
    let time = be16_roundtrip e.dos_time v.time_ok in
    let name : take 63 (c_string (e.name ++ rest)) ≡ c_string e.name =
      rw (c_string-append e.name rest 63 v.ended)
        (take-of_le 63 (c_string e.name) (c_string_bound e.name 63 v.ended)) in
    rw (name, size, date, time) refl

drop-entry_bytes :
    (e : DirListEntry) (rest : List ℕ) → length e.name ≡ 64 → drop 74 (entry_bytes e ++ rest) ≡ rest
unfolding entry_bytes
drop-entry_bytes e rest h = drop-append_of_length 64 e.name rest h

read_entries-entries_bytes :
    (es : List DirListEntry) (rest : List ℕ)
    → AreEntries es
    → read_entries (length es) (entries_bytes es ++ rest) ≡ map shown es
unfolding read_entries entries_bytes
read_entries-entries_bytes [] rest h = refl
read_entries-entries_bytes (e ∷ es) rest h =
    let more = entries_bytes es ++ rest in
    let split = append_assoc (entry_bytes e) (entries_bytes es) rest in
    let first = read_entry-entry_bytes e more h.0 in
    let next = drop-entry_bytes e more h.0.sized in
    ap (λ xs. read_entries (suc (length es)) xs) split
    ∙ ap₂ (λ a b. a ∷ b) first
        (ap (λ xs. read_entries (length es) xs) next ∙ read_entries-entries_bytes es rest h.1)

AreEntries-NamesSized : (es : List DirListEntry) → AreEntries es → NamesSized es
AreEntries-NamesSized [] h = tt
AreEntries-NamesSized (e ∷ es) h = (h.0.sized, AreEntries-NamesSized es h.1)

AreEntries-take : (n : ℕ) (es : List DirListEntry) → AreEntries es → AreEntries (take n es)
AreEntries-take zero es h = tt
AreEntries-take (suc n) [] h = tt
AreEntries-take (suc n) (e ∷ es) h = (h.0, AreEntries-take n es h.1)

page_of-reply :
    (net : Net) (s : FileTransferState) (count : ℕ) (tail : List ℕ)
    → AreEntries s.dir_entries
    → length s.dir_entries ≡ 16
    → count ≤ 16
    → read_entries
        (get_be16 (send_dir_list_data net s AckStatus.ok count) 32)
        (drop 36 (send_dir_list_data net s AckStatus.ok count ++ tail))
      ≡ map shown (take count s.dir_entries)
unfolding send_dir_list_data frame
page_of-reply net s count tail h full fits =
    let es = take count s.dir_entries in
    let counted : length es ≡ count = omega (arith, length-take count s.dir_entries) in
    let told = be16_roundtrip count (omega arith) in
    ap (λ n. read_entries n (entries_bytes es ++ tail)) (told ∙ sym counted)
    ∙ read_entries-entries_bytes es tail (AreEntries-take count s.dir_entries h)

-- The file manager reads in a page reply of the server the entries that the server put into it,
-- each with its name up to the NUL, its attributes, size, date and time, whatever stood in the
-- receive array before. Of the 16 entries the names fill and end in their arrays and the numbers
-- fit their C types; the receive array has 1514 bytes.
pub page_of-send_dir_list_data :
    (net : Net) (s : FileTransferState) (count : ℕ) (stale : List ℕ)
    → AreEntries s.dir_entries
    → length s.dir_entries ≡ 16
    → count ≤ 16
    → length stale ≡ 1514
    → page_of stale (send_dir_list_data net s AckStatus.ok count)
      ≡ map shown (take count s.dir_entries)
page_of-send_dir_list_data net s count stale h few fits whole =
    let f = send_dir_list_data net s AckStatus.ok count in
    let well =
      send_dir_list_data-WellFormed net s AckStatus.ok count few
        (AreEntries-NamesSized s.dir_entries h) fits in
    let old = overlay-append f stale (omega (arith, well.fits)) in
    ap (λ xs. read_entries (get_be16 f 32) (drop 36 xs)) old
    ∙ page_of-reply net s count (drop (length f) stale) h few fits
