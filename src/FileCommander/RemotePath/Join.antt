-- ===== src/FileCommander/RemotePath/Join.antt =====
-- Entering a directory and leaving it again.
use rmtdos_utils.Prelude.{
  ℕ, ◌<◌, ◌≡◌, ◌∙◌, refl, sym, ap, true, false, none, some, List, [], ◌∷◌, ◌++◌, ◌&&◌, ◌==◌, ltb,
  if◌then◌else◌, arith, length, take, length-append, Option-cases, inl, inr,
}
use mathlib.Core.List.{append_assoc}
use rmtdos_utils.FileCommander.RemotePath.{
  backslash, is_here, is_up, ends_in_slash, before_slash, parent_path, remote_path_join,
}
use rmtdos_utils.FileCommander.RemoteDir.Listing.{take-of_le}

-- A name of the directory: not empty, and without a backslash.
pub record IsName (name : List ℕ) : Type 0 where
  pub single : before_slash name ≡ none
  pub not_here : is_here name ≡ false
  pub not_up : is_up name ≡ false

-- The root of a drive, or a longer path that does not end in a backslash.
pub data IsDir (dir : List ℕ) : Type 0 where
  root : (drive : List ℕ) → dir ≡ drive ++ backslash ∷ [] → length drive ≡ 2 → IsDir dir
  below : 2 < length dir → ends_in_slash dir ≡ false → IsDir dir

before_slash-append :
    (front name : List ℕ)
    → before_slash name ≡ none
    → before_slash (front ++ backslash ∷ name) ≡ some front
unfolding before_slash
before_slash-append [] name h = ground arith
before_slash-append (c ∷ front) name h = ground (arith, before_slash-append front name h)

-- A path ends as the part at its end does.
ends_in_slash-append :
    (front : List ℕ) (c : ℕ) (s : List ℕ) → ends_in_slash (front ++ c ∷ s) ≡ ends_in_slash (c ∷ s)
unfolding ends_in_slash
ends_in_slash-append [] c s = refl
ends_in_slash-append (d ∷ []) c s = refl
ends_in_slash-append (d ∷ e ∷ front) c s = ends_in_slash-append (e ∷ front) c s

before_slash-tail :
    (c : ℕ) (s : List ℕ)
    → before_slash (c ∷ s) ≡ none
    → (before_slash s ≡ none) × ((c == backslash) ≡ false)
unfolding before_slash
before_slash-tail c s h = elim (Option-cases (before_slash s)) [
  | inl e ↦ (e, ground arith)
  | inr (front, e) ↦ absurd (ground arith)
]

ends_in_slash-of_single : (name : List ℕ) → before_slash name ≡ none → ends_in_slash name ≡ false
unfolding ends_in_slash
ends_in_slash-of_single [] h = refl
ends_in_slash-of_single (c ∷ []) h = (before_slash-tail c [] h).1
ends_in_slash-of_single (c ∷ d ∷ s) h =
    ends_in_slash-of_single (d ∷ s) (before_slash-tail c (d ∷ s) h).0

-- The parent of a path is what stands before its last name.
parent_path-append :
    (front : List ℕ) (c : ℕ) (s : List ℕ)
    → before_slash (c ∷ s) ≡ none
    → length (front ++ backslash ∷ c ∷ s) < 128
    → parent_path (front ++ backslash ∷ c ∷ s)
      ≡ (if ltb 2 (length front) then front else front ++ backslash ∷ [])
unfolding parent_path
parent_path-append front c s single fits =
    let path = front ++ backslash ∷ c ∷ s in
    let whole : take 127 path ≡ path = take-of_le 127 path (omega arith) in
    let open_end : ends_in_slash path ≡ false =
      ends_in_slash-append front backslash (c ∷ s) ∙ ends_in_slash-of_single (c ∷ s) single in
    let front_ok = before_slash-append front (c ∷ s) single in
    let kept : (ltb 3 (length path) && ends_in_slash path) ≡ false = ground arith in
    rw (parent_path, whole) (rw kept (rw front_ok refl))

remote_path_join-name :
    (out_len : ℕ) (dir name path : List ℕ)
    → IsName name
    → remote_path_join out_len dir name ≡ some path
    → path ≡ (if ends_in_slash dir then dir ++ name else dir ++ (backslash ∷ name))
unfolding remote_path_join
remote_path_join-name out_len dir name path n e = ground (arith, n.not_here, n.not_up)

remote_path_join-parent :
    (path : List ℕ)
    → length (parent_path path) < 128
    → remote_path_join 128 path (b'.' ∷ b'.' ∷ []) ≡ some (parent_path path)
unfolding remote_path_join
remote_path_join-parent path fits = ground arith

-- The parent of a path that was made from a directory and a name.
parent_path-of_dir :
    (dir : List ℕ) (c : ℕ) (s path : List ℕ)
    → IsDir dir
    → before_slash (c ∷ s) ≡ none
    → path ≡ (if ends_in_slash dir then dir ++ c ∷ s else dir ++ (backslash ∷ c ∷ s))
    → length path < 128
    → (parent_path path ≡ dir) × (length dir < 128)
unfolding ends_in_slash
parent_path-of_dir dir c s path (root drive is two) single e fits =
    let slash : ends_in_slash dir ≡ true = rw is (ends_in_slash-append drive backslash []) in
    let made : path ≡ drive ++ (backslash ∷ c ∷ s) =
      e ∙ rw slash (rw is (append_assoc drive (backslash ∷ []) (c ∷ s))) in
    let front : parent_path path
        ≡ (if ltb 2 (length drive) then drive else drive ++ backslash ∷ []) =
      rw made (parent_path-append drive c s single (rw made at fits)) in
    let short : ltb 2 (length drive) ≡ false = ground arith in
    (
      front ∙ rw short (sym is),
      omega (arith, ap (λ (xs : List ℕ). length xs) is, length-append drive (backslash ∷ [])),
    )
parent_path-of_dir dir c s path (below long open_end) single e fits =
    let made : path ≡ dir ++ (backslash ∷ c ∷ s) = e ∙ rw open_end refl in
    let front : parent_path path ≡ (if ltb 2 (length dir) then dir else dir ++ backslash ∷ []) =
      rw made (parent_path-append dir c s single (rw made at fits)) in
    let deep : ltb 2 (length dir) ≡ true = ground arith in
    (
      front ∙ rw deep refl,
      omega (
        arith,
        fits,
        ap (λ (xs : List ℕ). length xs) made,
        length-append dir (backslash ∷ c ∷ s),
      ),
    )

-- Joining a name to a remote directory and then `..` to the result gives the directory again. The
-- directory is the root of a drive or a longer path that does not end in a backslash, the name
-- has no backslash and is not empty, `.` or `..`, and the joined path has fewer than 128
-- characters.
pub remote_path_join-up :
    (out_len : ℕ) (dir name path : List ℕ)
    → IsDir dir
    → IsName name
    → remote_path_join out_len dir name ≡ some path
    → length path < 128
    → remote_path_join 128 path (b'.' ∷ b'.' ∷ []) ≡ some dir
remote_path_join-up out_len dir [] path d n e fits = let h = n.not_here in absurd (cc)
remote_path_join-up out_len dir (c ∷ s) path d n e fits =
    let made = remote_path_join-name out_len dir (c ∷ s) path n e in
    let (same, short) = parent_path-of_dir dir c s path d n.single made fits in
    remote_path_join-parent path (rw same short) ∙ ap some same
