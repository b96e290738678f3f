-- ===== src/Prelude/Lists.antt =====
-- Lists measured and indexed by native numbers, under the library's names, and `overlay`.
use Prim.Native.Nat.{ℕ, zero, suc, ◌+◌, ◌-◌, ◌<◌, ◌≤◌, min}
use mathlib.Core.Path.{◌≡◌, refl, ap, ◌∙◌}
use mathlib.Core.List.{List, [], ◌∷◌, ◌++◌}
use native.Mathlib.Omega.{arith}

module _ {ℓ} {A : Type ℓ} where
  -- All elements of a list have a property.
  abbrev pub Every : (A → Type 0) → List A → Type 0
  Every P [] = Unit {0}
  Every P (x ∷ xs) = P x × Every P xs

  abbrev pub length : List A → ℕ
  length [] = 0
  length (x ∷ xs) = suc (length xs)

  abbrev pub get_or : List A → ℕ → A → A
  get_or [] i d = d
  get_or (x ∷ xs) zero d = x
  get_or (x ∷ xs) (suc i) d = get_or xs i d

  -- A write out of bounds changes nothing.
  abbrev pub set : List A → ℕ → A → List A
  set [] i v = []
  set (x ∷ xs) zero v = v ∷ xs
  set (x ∷ xs) (suc i) v = x ∷ set xs i v

  abbrev pub take : ℕ → List A → List A
  take zero xs = []
  take (suc n) [] = []
  take (suc n) (x ∷ xs) = x ∷ take n xs

  abbrev pub drop : ℕ → List A → List A
  drop zero xs = xs
  drop (suc n) [] = []
  drop (suc n) (x ∷ xs) = drop n xs

  abbrev pub replicate : ℕ → A → List A
  replicate zero a = []
  replicate (suc n) a = a ∷ replicate n a

  -- An array `old` after bytes were copied over its beginning: what does not fit is dropped.
  abbrev pub overlay : List A → List A → List A
  overlay [] old = old
  overlay (x ∷ xs) [] = []
  overlay (x ∷ xs) (y ∷ ys) = x ∷ overlay xs ys

  pub length-append : (xs ys : List A) → length (xs ++ ys) ≡ length xs + length ys
  length-append [] ys = omega arith
  length-append (x ∷ xs) ys = omega (arith, length-append xs ys)

  pub length-set : (xs : List A) (i : ℕ) (v : A) → length (set xs i v) ≡ length xs
  length-set [] i v = refl
  length-set (x ∷ xs) zero v = refl
  length-set (x ∷ xs) (suc i) v = ap suc (length-set xs i v)

  pub length-overlay : (xs ys : List A) → length (overlay xs ys) ≡ length ys
  length-overlay [] ys = refl
  length-overlay (x ∷ xs) [] = refl
  length-overlay (x ∷ xs) (y ∷ ys) = ap suc (length-overlay xs ys)

  pub length-replicate : (n : ℕ) (a : A) → length (replicate n a) ≡ n
  length-replicate zero a = refl
  length-replicate (suc n) a = ap suc (length-replicate n a)

  pub length-take : (n : ℕ) (xs : List A) → length (take n xs) ≡ min n (length xs)
  length-take zero xs = omega arith
  length-take (suc n) [] = omega arith
  length-take (suc n) (x ∷ xs) = omega (arith, length-take n xs)

  pub length-drop : (n : ℕ) (xs : List A) → length (drop n xs) ≡ length xs - n
  length-drop zero xs = omega arith
  length-drop (suc n) [] = omega arith
  length-drop (suc n) (x ∷ xs) = omega (arith, length-drop n xs)

  -- What was copied over the beginning of a long enough array is read back from it.
  pub take-overlay :
      (xs ys : List A) → length xs ≤ length ys → take (length xs) (overlay xs ys) ≡ xs
  take-overlay [] ys h = refl
  take-overlay (x ∷ xs) [] h = absurd (omega arith)
  take-overlay (x ∷ xs) (y ∷ ys) h = ap (λ r. x ∷ r) (take-overlay xs ys (omega arith))

module _ {ℓ} {A : Type ℓ} where
  take-nil : (n : ℕ) → take {A = A} n [] ≡ []
  take-nil zero = refl
  take-nil (suc n) = refl

  -- A prefix and the chunk that follows it make up the longer prefix.
  pub take-add : (n k : ℕ) (xs : List A) → take (n + k) xs ≡ take n xs ++ take k (drop n xs)
  take-add zero k xs = ap (λ m. take m xs) (omega arith)
  take-add (suc n) k [] = rw (take-nil (suc n + k), take-nil k)
  take-add (suc n) k (x ∷ xs) =
      ap (λ m. take m (x ∷ xs)) {y = suc (n + k)} (omega arith) ∙ ap (λ r. x ∷ r) (take-add n k xs)

module _ {ℓ} {A : Type ℓ} where
  pub get_or-set_self :
      (xs : List A) (i : ℕ) (v d : A) → i < length xs → get_or (set xs i v) i d ≡ v
  get_or-set_self [] i v d h = absurd (omega arith)
  get_or-set_self (x ∷ xs) zero v d h = refl
  get_or-set_self (x ∷ xs) (suc i) v d h = get_or-set_self xs i v d (omega arith)

  pub take-overlay_of_length :
      (n : ℕ) (xs ys : List A) → length xs ≡ n → n ≤ length ys → take n (overlay xs ys) ≡ xs
  take-overlay_of_length n xs ys e h = rw (← e) (take-overlay xs ys (omega arith))

  pub take_all : (n : ℕ) (xs : List A) → n ≡ length xs → take n xs ≡ xs
  take_all n xs e = rw e (all xs)
    where
      all : (xs : List A) → take (length xs) xs ≡ xs
      all [] = refl
      all (x ∷ xs) = ap (λ r. x ∷ r) (all xs)

  pub take-append-drop : (n : ℕ) (xs : List A) → take n xs ++ drop n xs ≡ xs
  take-append-drop zero xs = refl
  take-append-drop (suc n) [] = refl
  take-append-drop (suc n) (x ∷ xs) = ap (λ r. x ∷ r) (take-append-drop n xs)

module _ {ℓ} {A : Type ℓ} where
  drop_nil : (n : ℕ) → drop {A = A} n [] ≡ []
  drop_nil zero = refl
  drop_nil (suc n) = refl

  pub drop-drop : (n k : ℕ) (xs : List A) → drop n (drop k xs) ≡ drop (k + n) xs
  drop-drop n zero xs = ap (λ m. drop m xs) (omega arith)
  drop-drop n (suc k) [] = drop_nil n ∙ ap (λ m. drop {A = A} m []) {x = suc (k + n)} (omega arith)
  drop-drop n (suc k) (x ∷ xs) =
      drop-drop n k xs ∙ ap (λ m. drop m (x ∷ xs)) {x = suc (k + n)} (omega arith)

  -- The part of a long enough list that was put before other elements is read back.
  pub take-take_append :
      (n : ℕ) (xs rest : List A) → n ≤ length xs → take n (take n xs ++ rest) ≡ take n xs
  take-take_append zero xs rest h = refl
  take-take_append (suc n) [] rest h = absurd (omega arith)
  take-take_append (suc n) (x ∷ xs) rest h =
      ap (λ r. x ∷ r) (take-take_append n xs rest (omega arith))
