-- ===== src/Tests/Paths.antt =====
-- Paths of a few characters.
use rmtdos_utils.Prelude.{ℕ, ◌≡◌, ◌<◌, ◌+◌, refl, arith, List, [], ◌∷◌, some, length}
use rmtdos_utils.FileTransfer.State.{rmtdos_path_bytes}
use rmtdos_utils.FileTransfer.Path.{
  dos_path_equal, build_dir_pattern, start_path, copy_pattern, finish_pattern, has_wildcard,
}
use rmtdos_utils.FileTransfer.Path.Equal.{all_alike, dos_path_equal-all_alike, c_string}
use rmtdos_utils.FileTransfer.Path.Pattern.{build_dir_pattern_fits, build_dir_pattern_total}

-- c:/a and C:\A
abbrev lower : List ℕ
lower = b'c' ∷ b':' ∷ b'/' ∷ b'a' ∷ 0 ∷ []

abbrev upper : List ℕ
upper = b'C' ∷ b':' ∷ b'\\' ∷ b'A' ∷ 0 ∷ []

dos_path_equal-all_alike_example :
    dos_path_equal lower upper ≡ all_alike (c_string lower) (c_string upper)
dos_path_equal-all_alike_example = dos_path_equal-all_alike lower upper

build_dir_pattern_fits_example : 8 < 10
unfolding build_dir_pattern start_path copy_pattern finish_pattern has_wildcard
build_dir_pattern_fits_example = build_dir_pattern_fits 10 lower (omega arith) refl

build_dir_pattern_total_example :
    (pattern : List ℕ) × (build_dir_pattern (rmtdos_path_bytes + 5) lower ≡ some pattern)
    × (length pattern < rmtdos_path_bytes + 5)
unfolding c_string
build_dir_pattern_total_example = build_dir_pattern_total lower (omega arith)
