-- ===== src/FileTransfer/Upload.antt =====
-- An upload as the two ends see it: packets of one sender, in any order and number, between idle
-- calls of the server; what DOS promises of the file that is written; the invariant.
pub mod Complete
pub mod Steps
pub mod Work
use rmtdos_utils.Prelude.{
  ℕ, ◌+◌, ◌≤◌, ◌≡◌, ◌⊎◌, true, false, List, [], ◌++◌, some, length, take, drop, get_be16, get_be32,
  u16_of_int,
}
use rmtdos_utils.Wire.PktType
use rmtdos_utils.FileTransfer.State.{FileTransferState, FileOp, mode_put}
use rmtdos_utils.FileTransfer.Dos.{Int21, create, write, close, dos_write_file}
use rmtdos_utils.FileTransfer.Send.{Net}
use rmtdos_utils.FileTransfer.Receive.{pkt_type_of, file_transfer_handle_packet}
use rmtdos_utils.FileTransfer.Idle.{file_transfer_process_idle}
use rmtdos_utils.FileTransfer.Invariant.{IsValid}

-- The packets that a sender of the file makes. A data packet may be sent at any offset, and again.
pub data FromSender (file frame : List ℕ) : Type 0 where
  begins :
      pkt_type_of frame ≡ PktType.file_put_begin
      → get_be32 frame 30 ≡ length file
      → FromSender file frame
  sends :
      pkt_type_of frame ≡ PktType.file_put_data
      → get_be32 frame 30 + get_be16 frame 34 ≤ length file
      → take (get_be16 frame 34) (drop 36 frame)
        ≡ take (get_be16 frame 34) (drop (get_be32 frame 30) file)
      → FromSender file frame
  ends : pkt_type_of frame ≡ PktType.file_put_end → FromSender file frame

-- What DOS promises of the bytes behind a handle: a created file is empty, a write that says it
-- wrote everything appended it, and closing a file leaves what was written.
pub record Stores {W : Type 0} (int21 : Int21 W) (content : W → ℕ → List ℕ) : Type 0 where
  pub created :
      (w : W) (attributes : ℕ) (path : List ℕ)
      → (int21 w (create attributes path)).1.carry ≡ false
      → content (int21 w (create attributes path)).0 (int21 w (create attributes path)).1.ax ≡ []
  pub appended :
      (w : W) (handle count : ℕ) (bytes : List ℕ)
      → (int21 w (write handle count bytes)).1.carry ≡ false
      → (int21 w (write handle count bytes)).1.ax ≡ count
      → content (int21 w (write handle count bytes)).0 handle ≡ content w handle ++ bytes
  pub closed :
      (w : W) (handle other : ℕ) → content (int21 w (close handle)).0 other ≡ content w other

module _ {W : Type 0} (int21 : Int21 W) (content : W → ℕ → List ℕ) (net : Net) (file : List ℕ) where
  -- One step: a packet of the sender arrives, or DOS is idle and no write fails.
  pub data Step (s : FileTransferState) (w : W) (s' : FileTransferState) (w' : W) : Type 0 where
    arrives :
        (frame : List ℕ)
        → 158 ≤ length frame
        → FromSender file frame
        → s' ≡ file_transfer_handle_packet frame s
        → w' ≡ w
        → Step s w s' w'
    works :
        (fuel : ℕ) (frames : List (List ℕ))
        → file_transfer_process_idle int21 fuel net s w ≡ some (s', w', frames)
        → (s.pending_op ≡ FileOp.put_data
            → (dos_write_file int21 s.handle s.chunk s.chunk_count w).0 ≡ true)
        → Step s w s' w'

  -- The states that such steps lead to.
  pub data Reach (s : FileTransferState) (w : W) : FileTransferState → W → Type 0 where
    here : Reach s w s w
    next :
        {s' s'' : FileTransferState} {w' w'' : W}
        → Reach s w s' w'
        → Step s' w' s'' w''
        → Reach s w s'' w''

  -- The open file holds the first `expected_offset` bytes, and a waiting chunk continues it.
  pub record IsIntact (s : FileTransferState) (w : W) : Type 0 where
    pub valid : IsValid s
    pub only_put : s.active ≡ true → s.mode ≡ mode_put
    pub written : s.active ≡ true → content w (u16_of_int s.handle) ≡ take s.expected_offset file
    pub within : s.active ≡ true → s.expected_offset ≤ length file
    pub sized : s.active ≡ true → s.size ≡ length file
    pub chunk_ok :
        s.pending_op ≡ FileOp.put_data
        → take s.chunk_count s.chunk ≡ take s.chunk_count (drop s.expected_offset file)
    pub chunk_within :
        s.pending_op ≡ FileOp.put_data → s.expected_offset + s.chunk_count ≤ length file
    pub begin_size : s.pending_op ≡ FileOp.put_begin → s.size ≡ length file
    pub end_active : s.pending_op ≡ FileOp.put_end → s.active ≡ true
    pub ack_ok : s.pending_op ≡ FileOp.ack → s.ack_offset ≡ s.expected_offset
    pub ops :
        (s.pending_op ≡ FileOp.no_op)
        ⊎ ((s.pending_op ≡ FileOp.put_begin)
            ⊎ ((s.pending_op ≡ FileOp.put_data)
                ⊎ ((s.pending_op ≡ FileOp.put_end) ⊎ (s.pending_op ≡ FileOp.ack))))
