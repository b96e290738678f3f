-- ===== src/FileCommander/PathOps/Packets.antt =====
-- The paths that the server reads in a request.
use mathlib.Core.List.{append_assoc}
use rmtdos_utils.Prelude.{
  ℕ, zero, suc, ◌-◌, ◌≤◌, ◌≡◌, ◌∙◌, refl, ap, some, List, [], ◌∷◌, ◌++◌, arith, length, take, drop,
  set, get_or, replicate, be32, length-append, length-replicate,
}
use rmtdos_utils.Wire.{Mac, frame}
use rmtdos_utils.FileTransfer.Receive.{field_string}
use rmtdos_utils.FileTransfer.State.{file_transfer_name_bytes}
use rmtdos_utils.Client.{RawSocket, packet_buffer}
use rmtdos_utils.FileCommander.PathOps.{path_array}
use rmtdos_utils.FileCommander.RemoteDir.Entries.{drop-append_of_length}

pub length-path_array : (path : List ℕ) → length path ≤ 64 → length (path_array path) ≡ 64
length-path_array path short = omega (
  arith,
  length-append path (replicate (64 - length path) 0),
  length-replicate {A = ℕ} (64 - length path) 0,
)

take-append_of_length : (n : ℕ) (xs ys : List ℕ) → length xs ≡ n → take n (xs ++ ys) ≡ xs
take-append_of_length zero [] ys h = refl
take-append_of_length zero (x ∷ xs) ys h = absurd (omega arith)
take-append_of_length (suc n) [] ys h = absurd (omega arith)
take-append_of_length (suc n) (x ∷ xs) ys h =
    ap (λ r. x ∷ r) (take-append_of_length n xs ys (omega arith))

set-get_or : (xs : List ℕ) (i v : ℕ) → get_or xs i v ≡ v → set xs i v ≡ xs
set-get_or [] i v h = refl
set-get_or (x ∷ xs) zero v h = ground (arith, h)
set-get_or (x ∷ xs) (suc i) v h = ap (λ r. x ∷ r) (set-get_or xs i v h)

get_or-zeros : (k i : ℕ) → get_or {A = ℕ} (replicate k 0) i 0 ≡ 0
get_or-zeros zero i = refl
get_or-zeros (suc k) zero = refl
get_or-zeros (suc k) (suc i) = get_or-zeros k i

get_or-padding :
    (path : List ℕ) (k i : ℕ) → length path ≤ i → get_or (path ++ replicate k 0) i 0 ≡ 0
get_or-padding [] k i h = get_or-zeros k i
get_or-padding (c ∷ path) k zero h = absurd (omega arith)
get_or-padding (c ∷ path) k (suc i) h = get_or-padding path k i (omega arith)

-- An array of 64 bytes that holds a path is read as it is.
read_path_array :
    (path rest : List ℕ)
    → length path ≤ 63
    → set (take 64 (path_array path ++ rest)) 63 0 ≡ path_array path
read_path_array path rest short =
    ap (λ xs. set xs 63 0)
      (take-append_of_length 64 (path_array path) rest (length-path_array path (omega arith)))
    ∙ set-get_or (path_array path) 63 0 (get_or-padding path (64 - length path) 63 (omega arith))

module _ (sock : RawSocket) (dest : Mac) (kind transfer_id : ℕ) (rest : List ℕ) where
  pub field_string-source :
      (source target : List ℕ)
      → length source ≤ 63
      → field_string
          (packet_buffer sock
              (some dest)
              kind
              (be32 transfer_id ++ (path_array source ++ path_array target))
            ++ rest)
          4
          file_transfer_name_bytes
        ≡ path_array source
  unfolding field_string packet_buffer frame
  field_string-source source target short =
      ap (λ xs. set (take 64 xs) 63 0) (append_assoc (path_array source) (path_array target) rest)
      ∙ read_path_array source (path_array target ++ rest) short

  pub field_string-target :
      (source target : List ℕ)
      → length source ≤ 63
      → length target ≤ 63
      → field_string
          (packet_buffer sock
              (some dest)
              kind
              (be32 transfer_id ++ (path_array source ++ path_array target))
            ++ rest)
          68
          file_transfer_name_bytes
        ≡ path_array target
  unfolding field_string packet_buffer frame
  field_string-target source target short fits =
      ap (λ xs. set (take 64 (drop 64 xs)) 63 0)
        (append_assoc (path_array source) (path_array target) rest)
      ∙ (ap (λ xs. set (take 64 xs) 63 0)
            (drop-append_of_length 64 (path_array source) (path_array target ++ rest)
              (length-path_array source (omega arith)))
          ∙ read_path_array target rest fits)
