-- ===== src/FileTransfer/Invariant.antt =====
-- The invariant of `g_file`: every array keeps its size and every path its NUL, the upload chunk
-- fits its array, and a transfer in progress has an open file.
pub mod Buffers
pub mod Cases
pub mod Receive
pub mod Idle
use rmtdos_utils.Prelude.{
  ℕ, ◌+◌, ◌-◌, ◌≤◌, ◌<◌, ◌≡◌, refl, Bool, true, false, List, [], ◌∷◌, arith, is_neg, length, get_or,
  set, take, drop, replicate, length-set, length-take, length-drop, length-replicate,
  get_or-set_self,
}
use rmtdos_utils.FileTransfer.State.{
  FileTransferState, FileOp, DirListEntry, file_transfer_init, mode_put, mode_get,
  file_transfer_name_bytes, file_transfer_chunk_bytes, rmtdos_path_bytes, dos_dta_bytes,
  dir_list_page_entries,
}
use rmtdos_utils.FileTransfer.Receive.{field_string, payload_at}

-- An array of `n` bytes whose last byte is NUL.
pub record IsString (n : ℕ) (xs : List ℕ) : Type 0 where
  pub sized : length xs ≡ n
  pub ended : get_or xs (n - 1) 1 ≡ 0

-- Every entry's name fills its array.
abbrev pub NamesSized : List DirListEntry → Type 0
NamesSized [] = Unit {0}
NamesSized (e ∷ es) = (length e.name ≡ 64) × NamesSized es

pub record IsValid (s : FileTransferState) : Type 0 where
  pub chunk_sized : length s.chunk ≡ file_transfer_chunk_bytes
  pub dta_sized : length s.dta ≡ dos_dta_bytes
  pub entries_sized : length s.dir_entries ≡ dir_list_page_entries
  pub entries_named : NamesSized s.dir_entries
  pub filename_ok : IsString file_transfer_name_bytes s.filename
  pub target_ok : IsString file_transfer_name_bytes s.target
  pub dir_path_ok : IsString rmtdos_path_bytes s.dir_path
  pub put_open : s.active ≡ true → s.mode ≡ mode_put → is_neg s.handle ≡ false
  pub get_open : s.active ≡ true → s.mode ≡ mode_get → is_neg s.handle ≡ false
  pub put_fits : s.pending_op ≡ FileOp.put_data → s.chunk_count ≤ file_transfer_chunk_bytes
  pub put_active : s.pending_op ≡ FileOp.put_data → (s.active ≡ true) × (s.mode ≡ mode_put)
  pub put_in_order : s.pending_op ≡ FileOp.put_data → s.chunk_offset ≡ s.expected_offset

-- What the server keeps of a payload's text field is a terminated string of the full size.
pub field_string-IsString :
    (frame : List ℕ) (i n : ℕ)
    → 0 < n
    → payload_at + i + n ≤ length frame
    → IsString n (field_string frame i n)
unfolding field_string
field_string-IsString frame i n h k = record {
  sized = omega (arith, length-set field (n - 1) 0, whole);
  ended = get_or-set_self field (n - 1) 0 1 (omega (arith, whole));
}
  where
    field : List ℕ
    field = take n (drop (payload_at + i) frame)

    whole : length field ≡ n
    whole =
        omega
          (arith, length-take n (drop (payload_at + i) frame), length-drop (payload_at + i) frame)

pub file_transfer_init-IsValid : IsValid file_transfer_init
unfolding file_transfer_init
file_transfer_init-IsValid = ground arith
