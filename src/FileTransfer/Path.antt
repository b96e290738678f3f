-- ===== src/FileTransfer/Path.antt =====
-- The path functions of server/file_transfer.c. A `char *` is the list of the bytes from there
-- on; every array that reaches these functions holds a NUL.
pub mod Equal
pub mod Pattern
use rmtdos_utils.Prelude.{
  ℕ, zero, suc, ◌+◌, ◌-◌, Bool, true, false, Option, none, some, List, [], ◌∷◌, ◌++◌, ◌&&◌, ◌||◌,
  ◌==◌, ltb, leb, if◌then◌else◌, length,
}

unfoldable pub path_char_fold : ℕ → ℕ
path_char_fold ch =
    if leb b'a' ch && leb ch b'z' then ch - (b'a' - b'A') else if ch == b'/' then b'\\' else ch

-- The byte at a pointer.
abbrev pub deref : List ℕ → ℕ
deref [] = 0
deref (c ∷ s) = c

unfoldable pub dos_path_equal : List ℕ → List ℕ → Bool
unfolding path_char_fold
dos_path_equal [] rhs = 0 == deref rhs
dos_path_equal (a ∷ lhs) [] = a == 0
dos_path_equal (a ∷ lhs) (b ∷ rhs) =
    if (a == 0) || (b == 0)
    then a == b
    else if path_char_fold a == path_char_fold b
    then dos_path_equal lhs rhs
    else false

unfoldable pub has_wildcard : List ℕ → Bool
has_wildcard [] = false
has_wildcard (c ∷ s) = if c == 0 then false else (c == b'*') || (c == b'?') || has_wildcard s

-- The copying loop of `build_dir_pattern`: `room` is `dest_len - 1 - i`. It gives the characters
-- put in `dest` and what of the path is left.
unfoldable pub copy_pattern : ℕ → List ℕ → List ℕ × List ℕ
copy_pattern zero path = ([], path)
copy_pattern (suc room) [] = ([], [])
copy_pattern (suc room) (c ∷ path) =
    let (dest, rest) = copy_pattern room path in
    if c == 0 then ([], c ∷ path) else ((if c == b'/' then b'\\' else c) ∷ dest, rest)

-- `dest[len - 1]`
abbrev pub last_or : List ℕ → ℕ → ℕ
last_or [] d = d
last_or (c ∷ s) d = last_or s c

abbrev pub all_files : List ℕ
all_files = b'*' ∷ b'.' ∷ b'*' ∷ []

-- The end of `build_dir_pattern`, once the path is copied: what is appended, if it fits.
unfoldable pub finish_pattern : ℕ → List ℕ → Option (List ℕ)
unfolding has_wildcard
finish_pattern dest_len dest =
    if has_wildcard dest
    then some dest
    else if length dest == 0
    then none
    else if last_or dest 0 == b'\\'
    then (if leb dest_len (length dest + 4) then none else some (dest ++ all_files))
    else if last_or dest 0 == b':'
    then (if leb dest_len (length dest + 5) then none else some (dest ++ b'\\' ∷ all_files))
    else (if leb dest_len (length dest + 5) then none else some (dest ++ b'\\' ∷ all_files))

-- `if (!path[0]) path = ".";`
unfoldable pub start_path : List ℕ → List ℕ
start_path path = if deref path == 0 then b'.' ∷ [] else path

-- The C string left in `dest`, or `none` for -1.
unfoldable pub build_dir_pattern : ℕ → List ℕ → Option (List ℕ)
build_dir_pattern dest_len path =
    let (dest, rest) = copy_pattern (dest_len - 1) (start_path path) in
    if deref rest == 0 then finish_pattern dest_len dest else none
