-- ===== src/FileTransfer/Path/Pattern.antt =====
-- `build_dir_pattern` on the paths that the server keeps: it succeeds, and its result fits.
use rmtdos_utils.Prelude.{
  ℕ, zero, suc, ◌+◌, ◌-◌, ◌≤◌, ◌<◌, ◌≡◌, refl, some, List, [], ◌∷◌, arith, length, length-append,
  Option-cases, inl, inr,
}
use rmtdos_utils.FileTransfer.State.{rmtdos_path_bytes}
use rmtdos_utils.FileTransfer.Path.{
  copy_pattern, finish_pattern, build_dir_pattern, deref, all_files, start_path,
}
use rmtdos_utils.FileTransfer.Path.Equal.{c_string}

-- The copy stops at the end of a path that is shorter than the room, and takes all of it.
copy_pattern_all :
    (room : ℕ) (path : List ℕ)
    → length (c_string path) ≤ room
    → (deref (copy_pattern room path).1 ≡ 0)
      × (length (copy_pattern room path).0 ≡ length (c_string path))
unfolding copy_pattern c_string
copy_pattern_all zero [] h = (refl, refl)
copy_pattern_all zero (c ∷ path) h = ground arith
copy_pattern_all (suc room) [] h = (refl, refl)
copy_pattern_all (suc room) (c ∷ path) h = ground (arith, copy_pattern_all room path)

copy_pattern_bound : (room : ℕ) (path : List ℕ) → length (copy_pattern room path).0 ≤ room
unfolding copy_pattern
copy_pattern_bound zero path = omega arith
copy_pattern_bound (suc room) [] = omega arith
copy_pattern_bound (suc room) (c ∷ path) = ground (arith, copy_pattern_bound room path)

-- Any pattern that `finish_pattern` gives leaves room for its NUL.
finish_pattern_fits :
    (dest_len : ℕ) (dest : List ℕ) {pattern : List ℕ}
    → length dest < dest_len
    → finish_pattern dest_len dest ≡ some pattern
    → length pattern < dest_len
unfolding finish_pattern
finish_pattern_fits dest_len dest h e =
    ground (arith, length-append dest all_files, length-append dest (b'\\' ∷ all_files))

-- Whatever the path, a pattern that `build_dir_pattern` accepts fits the array, which is not
-- empty, with its NUL.
pub build_dir_pattern_fits :
    (dest_len : ℕ) (path : List ℕ) {pattern : List ℕ}
    → 0 < dest_len
    → build_dir_pattern dest_len path ≡ some pattern
    → length pattern < dest_len
unfolding build_dir_pattern
build_dir_pattern_fits dest_len path {pattern} h e = ground (
  arith,
  finish_pattern_fits dest_len (copy_pattern (dest_len - 1) (start_path path)).0
      {pattern = pattern},
  copy_pattern_bound (dest_len - 1) (start_path path),
)

finish_pattern_total :
    (dest_len : ℕ) (dest : List ℕ)
    → 0 < length dest
    → length dest + 5 < dest_len
    → (pattern : List ℕ) × (finish_pattern dest_len dest ≡ some pattern)
unfolding finish_pattern
finish_pattern_total dest_len dest h k = elim (Option-cases (finish_pattern dest_len dest)) [
  | inl e ↦ absurd (ground arith)
  | inr s ↦ s
]

start_path-length :
    (path : List ℕ)
    → length (c_string path) ≤ rmtdos_path_bytes - 1
    → (0 < length (c_string (start_path path)))
      × (length (c_string (start_path path)) ≤ rmtdos_path_bytes - 1)
unfolding start_path c_string
start_path-length [] h = (omega arith, omega arith)
start_path-length (c ∷ path) h = ground arith

-- The pattern array of `collect_dir_entries` is large enough: any path of at most 127 characters,
-- the empty one included, gives a pattern, which fits the array with its NUL.
pub build_dir_pattern_total :
    (path : List ℕ)
    → length (c_string path) ≤ rmtdos_path_bytes - 1
    → (pattern : List ℕ) × (build_dir_pattern (rmtdos_path_bytes + 5) path ≡ some pattern)
      × (length pattern < rmtdos_path_bytes + 5)
build_dir_pattern_total path h =
    let (positive, small) = start_path-length path h in
    let (ended, all) = copy_pattern_all 132 (start_path path) (omega arith) in
    let (pattern, e) =
      finish_pattern_total 133 (copy_pattern 132 (start_path path)).0 (omega arith) (omega arith) in
    let f : build_dir_pattern 133 path ≡ some pattern = unfold build_dir_pattern in rw ended e in
    (pattern, f, build_dir_pattern_fits 133 path (omega arith) f)
