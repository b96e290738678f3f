-- ===== src/FileTransfer/Send/Replies.antt =====
-- Every reply's header tells its true length, and it fits `g_send_buffer`.
use rmtdos_utils.Prelude.{
  ℕ, zero, suc, ◌+◌, ◌*◌, ◌≤◌, ◌≡◌, refl, List, [], ◌∷◌, arith, ◌==◌, get_be16, take, length,
  length-take, length-append, Bool-cases, inl, inr,
}
use rmtdos_utils.Wire.{Mac, frame, eth_frame_len, combined_header_len}
use rmtdos_utils.Wire.AckStatus
use rmtdos_utils.Wire.Roundtrip.{payload_len-frame, length-frame}
use rmtdos_utils.FileTransfer.State.{
  FileTransferState, DirListEntry, file_transfer_chunk_bytes, dir_list_page_entries,
}
use rmtdos_utils.FileTransfer.Send.{
  Net, send_file_ack, send_file_get_data, send_dir_list_data, entry_bytes, entries_bytes,
}
use rmtdos_utils.FileTransfer.Invariant.{NamesSized}

pub record WellFormed (f : List ℕ) : Type 0 where
  pub says_its_length : length f ≡ combined_header_len + get_be16 f 22
  pub fits : length f ≤ eth_frame_len

frame-WellFormed :
    (dest src : Mac) (ethertype session_id payload_len kind : ℕ) (payload : List ℕ)
    → payload_len ≡ length payload
    → length payload ≤ 1488
    → WellFormed (frame dest src ethertype session_id payload_len kind payload)
frame-WellFormed dest src ethertype session_id payload_len kind payload e h = record {
  says_its_length = omega (
    arith,
    payload_len-frame dest src ethertype session_id payload_len kind payload (omega arith),
    length-frame dest src ethertype session_id payload_len kind payload,
  );
  fits = omega (arith, length-frame dest src ethertype session_id payload_len kind payload);
}

pub send_file_ack-WellFormed :
    (net : Net) (s : FileTransferState) (command status offset : ℕ)
    → WellFormed (send_file_ack net s command status offset)
unfolding send_file_ack
send_file_ack-WellFormed net s command status offset =
    frame-WellFormed _ _ _ _ _ _ _ refl (omega arith)

-- A reply with a chunk of up to 512 bytes tells its true length in its header and fits an
-- Ethernet frame, whatever the status.
pub send_file_get_data-WellFormed :
    (net : Net) (s : FileTransferState) (status : ℕ)
    → length s.chunk ≡ file_transfer_chunk_bytes
    → s.chunk_count ≤ file_transfer_chunk_bytes
    → WellFormed (send_file_get_data net s status).1
unfolding send_file_get_data
send_file_get_data-WellFormed net s status h k = elim (Bool-cases (status == AckStatus.ok)) [
  | inl good ↦ rw good (
      frame-WellFormed _ _ _ _ _ _ _ (omega (arith, length-take s.chunk_count s.chunk))
        (omega (arith, length-take s.chunk_count s.chunk)))
  | inr bad ↦ rw bad (frame-WellFormed _ _ _ _ _ _ _ refl (omega arith))
]

length-entries_bytes :
    (es : List DirListEntry) → NamesSized es → length (entries_bytes es) ≡ 74 * length es
unfolding entries_bytes
length-entries_bytes [] h = refl
length-entries_bytes (e ∷ es) h =
    omega (arith, length-append (entry_bytes e) (entries_bytes es), length-entries_bytes es h.1)

NamesSized-take : (n : ℕ) (es : List DirListEntry) → NamesSized es → NamesSized (take n es)
NamesSized-take zero es h = tt
NamesSized-take (suc n) [] h = tt
NamesSized-take (suc n) (e ∷ es) h = (h.0, NamesSized-take n es h.1)

-- A reply with a directory page of up to 16 entries, whose names fill their arrays, tells its
-- true length in its header and fits an Ethernet frame, whatever the status.
pub send_dir_list_data-WellFormed :
    (net : Net) (s : FileTransferState) (status count : ℕ)
    → length s.dir_entries ≡ dir_list_page_entries
    → NamesSized s.dir_entries
    → count ≤ dir_list_page_entries
    → WellFormed (send_dir_list_data net s status count)
unfolding send_dir_list_data
send_dir_list_data-WellFormed net s status count h names k =
    let size : length (entries_bytes (take count s.dir_entries)) ≡ 74 * count = omega (
      arith,
      length-entries_bytes (take count s.dir_entries) (NamesSized-take count s.dir_entries names),
      length-take count s.dir_entries,
    ) in
    elim (Bool-cases (status == AckStatus.ok)) [
      | inl good ↦
          rw good (frame-WellFormed _ _ _ _ _ _ _ (omega (arith, size)) (omega (arith, size)))
      | inr bad ↦ rw bad (frame-WellFormed _ _ _ _ _ _ _ refl (omega arith))
    ]
