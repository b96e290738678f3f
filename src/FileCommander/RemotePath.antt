-- ===== src/FileCommander/RemotePath.antt =====
-- The remote paths of ui/commander.c: `remote_path_join`. A path is given without its NUL.
pub mod Join
use rmtdos_utils.Prelude.{
  ℕ, ◌-◌, Bool, true, false, Option, none, some, List, [], ◌∷◌, ◌++◌, ◌&&◌, ◌||◌, ◌==◌, ltb,
  if◌then◌else◌, length, take,
}
use rmtdos_utils.FileTransfer.State.{rmtdos_path_bytes}

abbrev pub backslash : ℕ
backslash = 0x5c

-- `strcmp(name, ".") == 0 || name[0] == 0`
abbrev pub is_here : List ℕ → Bool
is_here [] = true
is_here (c ∷ []) = c == b'.'
is_here (c ∷ d ∷ name) = false

abbrev pub is_up : List ℕ → Bool
is_up [] = false
is_up (c ∷ []) = false
is_up (c ∷ d ∷ []) = (c == b'.') && (d == b'.')
is_up (c ∷ d ∷ e ∷ name) = false

-- Whether the last character is a backslash.
unfoldable pub ends_in_slash : List ℕ → Bool
ends_in_slash [] = false
ends_in_slash (c ∷ []) = c == backslash
ends_in_slash (c ∷ d ∷ s) = ends_in_slash (d ∷ s)

-- What stands before the backslash that `strrchr` finds.
unfoldable pub before_slash : List ℕ → Option (List ℕ)
before_slash [] = none
before_slash (c ∷ s) = elim (before_slash s) [
  | some front ↦ some (c ∷ front)
  | none ↦ if c == backslash then some [] else none
]

-- The array `tmp` after the branch for `..`: the root of a drive keeps its backslash.
unfoldable pub parent_path : List ℕ → List ℕ
unfolding ends_in_slash before_slash
parent_path dir =
    let tmp = take (rmtdos_path_bytes - 1) dir in
    let trimmed =
      if ltb 3 (length tmp) && ends_in_slash tmp then take (length tmp - 1) tmp else tmp in
    elim (before_slash trimmed) [
      | none ↦ trimmed
      | some front ↦ if ltb 2 (length front) then front else front ++ backslash ∷ []
    ]

-- The path, if it fits `out_len` bytes with its NUL.
unfoldable pub remote_path_join : ℕ → List ℕ → List ℕ → Option (List ℕ)
remote_path_join out_len dir name =
    let out =
      if is_here name
      then dir
      else if is_up name
      then parent_path dir
      else if ends_in_slash dir
      then dir ++ name
      else dir ++ (backslash ∷ name) in
    if ltb (length out) out_len then some out else none
