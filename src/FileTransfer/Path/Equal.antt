-- ===== src/FileTransfer/Path/Equal.antt =====
-- `dos_path_equal` against its meaning: two C strings are equal but for the case of letters and the
-- direction of slashes.
use rmtdos_utils.Prelude.{
  ℕ, ◌+◌, ◌≡◌, refl, Bool, true, false, List, [], ◌∷◌, arith, ◌==◌, ◌&&◌, ◌||◌, leb, if◌then◌else◌,
}
use rmtdos_utils.FileTransfer.Path.{path_char_fold, dos_path_equal}

-- The characters of a C string, up to its NUL.
unfoldable pub c_string : List ℕ → List ℕ
c_string [] = []
c_string (c ∷ s) = if c == 0 then [] else c ∷ c_string s

-- A small letter and its capital, or a slash and a backslash.
unfoldable pub is_variant : ℕ → ℕ → Bool
is_variant a b = (leb 97 a && (leb a 122 && a == b + 32)) || (a == b'/' && b == b'\\')

-- One character, or two that DOS takes for one in a path.
unfoldable pub is_alike : ℕ → ℕ → Bool
is_alike a b = a == b || (is_variant a b || is_variant b a)

unfoldable pub all_alike : List ℕ → List ℕ → Bool
all_alike [] [] = true
all_alike [] (b ∷ rhs) = false
all_alike (a ∷ lhs) [] = false
all_alike (a ∷ lhs) (b ∷ rhs) = let rest = all_alike lhs rhs in is_alike a b && rest

fold-is_alike : (a b : ℕ) → (path_char_fold a == path_char_fold b) ≡ is_alike a b
unfolding path_char_fold is_alike is_variant
fold-is_alike a b = ground arith

-- Paths compare equal exactly when they are as long as each other and have at each place the same
-- character, a letter in two cases, or a slash and a backslash.
pub dos_path_equal-all_alike :
    (lhs rhs : List ℕ) → dos_path_equal lhs rhs ≡ all_alike (c_string lhs) (c_string rhs)
unfolding dos_path_equal c_string all_alike
dos_path_equal-all_alike [] [] = refl
dos_path_equal-all_alike [] (b ∷ rhs) = ground arith
dos_path_equal-all_alike (a ∷ lhs) [] = ground arith
dos_path_equal-all_alike (a ∷ lhs) (b ∷ rhs) =
    ground (arith, fold-is_alike a b, dos_path_equal-all_alike lhs rhs)
