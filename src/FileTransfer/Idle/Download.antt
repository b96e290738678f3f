-- ===== src/FileTransfer/Idle/Download.antt =====
-- The chunks of a download.
use rmtdos_utils.Prelude.{
  ℕ, ◌+◌, ◌*◌, ◌/◌, ◌%◌, ◌^◌, ◌<◌, ◌≤◌, ◌≡◌, refl, true, false, List, [], ◌∷◌, ◌++◌, arith, length,
  take, drop, be16, be32, u16, u16_of_int, int_of_u16, length-take, take-overlay_of_length, is_neg,
  ap, ltb, ◌==◌, u32, ◌∙◌,
}
use rmtdos_utils.Wire.{frame}
use rmtdos_utils.Wire.AckStatus
use rmtdos_utils.Wire.PktType
use rmtdos_utils.FileTransfer.State.{FileTransferState, mode_get, file_transfer_chunk_bytes}
use rmtdos_utils.FileTransfer.Dos.{Int21, seek, read, dos_seek_file, dos_read_file, u32_max}
use rmtdos_utils.FileTransfer.Send.{Net, send_file_get_data}
use rmtdos_utils.FileTransfer.Idle.{read_chunk, idle_get_data_req}

-- What DOS promises of a file that is open for reading: a seek from its beginning goes to the place
-- that was asked for and reports it, and a read gives the bytes that stand there.
pub record Readable {W : Type 0} (int21 : Int21 W) (handle : ℕ) (place : W → ℕ) (file : List ℕ)
    : Type 0 where
  pub seeks : (w : W) (high low : ℕ) → (int21 w (seek 0 handle high low)).1.carry ≡ false
  pub tells :
      (w : W) (high low : ℕ)
      → ((int21 w (seek 0 handle high low)).1.dx ≡ high)
        × ((int21 w (seek 0 handle high low)).1.ax ≡ low)
  pub moves :
      (w : W) (high low : ℕ) → place (int21 w (seek 0 handle high low)).0 ≡ high * 2 ^ 16 + low
  pub reads : (w : W) (n : ℕ) → (int21 w (read handle n)).1.carry ≡ false
  pub counts :
      (w : W) (n : ℕ) → (int21 w (read handle n)).1.ax ≡ length (take n (drop (place w) file))
  pub gives : (w : W) (n : ℕ) → (int21 w (read handle n)).1.stored ≡ take n (drop (place w) file)

module _ {W : Type 0} (int21 : Int21 W) (place : W → ℕ) (file : List ℕ) (s : FileTransferState)
    (dos : Readable int21 (u16_of_int s.handle) place file) (w : W) where
  abbrev at_chunk : W
  at_chunk =
      (int21 w (
        seek 0 (u16_of_int s.handle) (s.chunk_offset / 2 ^ 16 % 2 ^ 16)
          (s.chunk_offset % 2 ^ 16))).0

  -- The part of the file that was asked for.
  abbrev pub piece : List ℕ
  piece = take s.chunk_count (drop s.chunk_offset file)

  seek_chunk :
      s.chunk_offset < u32_max
      → dos_seek_file int21 s.handle 0 s.chunk_offset w ≡ (s.chunk_offset, at_chunk)
  unfolding dos_seek_file
  seek_chunk h =
      let high = s.chunk_offset / 2 ^ 16 % 2 ^ 16 in
      let low = s.chunk_offset % 2 ^ 16 in
      let (dx, ax) = dos.tells w high low in
      rw (dos_seek_file, dos.seeks w high low, dx, ax) (ap (λ (m : ℕ). (m, at_chunk)) (omega arith))

  read_piece :
      length s.chunk ≡ file_transfer_chunk_bytes
      → s.chunk_count ≤ file_transfer_chunk_bytes
      → s.chunk_offset < u32_max
      → ((dos_read_file int21 s.handle s.chunk s.chunk_count at_chunk).0
          ≡ int_of_u16 (length piece))
        × (take (length piece) (dos_read_file int21 s.handle s.chunk s.chunk_count at_chunk).1
            ≡ piece)
  unfolding dos_read_file
  read_piece sized few h =
      let high = s.chunk_offset / 2 ^ 16 % 2 ^ 16 in
      let low = s.chunk_offset % 2 ^ 16 in
      let there : place at_chunk ≡ s.chunk_offset = dos.moves w high low ∙ omega arith in
      rw
        (
          dos.reads at_chunk s.chunk_count,
          dos.counts at_chunk s.chunk_count,
          dos.gives at_chunk s.chunk_count,
          there,
        )
        (
          refl,
          take-overlay_of_length (length piece) piece s.chunk refl
              (omega (arith, length-take s.chunk_count (drop s.chunk_offset file))),
        )

  -- The state after the chunk was read.
  abbrev filled : FileTransferState
  filled = record s {
    chunk = (dos_read_file int21 s.handle s.chunk s.chunk_count at_chunk).1;
    chunk_count = length piece;
    expected_offset = u32 (s.chunk_offset + length piece);
  }

  module _ (sized : length s.chunk ≡ file_transfer_chunk_bytes)
      (few : s.chunk_count ≤ file_transfer_chunk_bytes) (inside : s.chunk_offset ≤ s.size)
      (small : s.size < u32_max) (active : s.active ≡ true) (getting : s.mode ≡ mode_get) where
    short : length piece ≤ 512
    short = omega (arith, length-take s.chunk_count (drop s.chunk_offset file))

    read_chunk-filled :
        read_chunk int21 s w
        ≡ (filled, (dos_read_file int21 s.handle s.chunk s.chunk_count at_chunk).2, AckStatus.ok)
    unfolding read_chunk
    read_chunk-filled =
        let found = seek_chunk (omega arith) in
        let (count, bytes) = read_piece sized few (omega arith) in
        let size = short in
        let back : u16_of_int (int_of_u16 (length piece)) ≡ length piece = ground arith in
        let fine : is_neg (int_of_u16 (length piece)) ≡ false = ground arith in
        let whole : ltb file_transfer_chunk_bytes s.chunk_count ≡ false = ground arith in
        let within : ltb s.size s.chunk_offset ≡ false = ground arith in
        let ordinary : (s.chunk_offset == u32_max) ≡ false = ground arith in
        rw (read_chunk, active, getting, whole, within, found, ordinary, count, fine, back) refl

    -- The reply to a request for a chunk of a download carries exactly the bytes of the file that
    -- stand at the offset that was asked for, as many as were asked for or as the file still has,
    -- with their number, their offset and the status OK. A download is active, the request is for
    -- at most 512 bytes from within the size that was announced, which is below 2 ^ 32 - 1, and
    -- DOS keeps its promises of seek and read.
    pub idle_get_data_req-piece :
        (net : Net)
        → (idle_get_data_req int21 net s w).2
          ≡ frame s.client_mac net.mac_addr net.ethertype s.session_id
              (12 + length piece)
              PktType.file_get_data
              (be32 s.transfer_id
                ++ (be32 s.chunk_offset ++ (be16 (length piece) ++ (be16 AckStatus.ok ++ piece))))
            ∷ []
    unfolding idle_get_data_req send_file_get_data
    idle_get_data_req-piece net =
        let (count, bytes) = read_piece sized few (omega arith) in
        let exact : u16 (12 + length piece) ≡ 12 + length piece = omega (arith, short) in
        rw (idle_get_data_req, read_chunk-filled, send_file_get_data, exact, bytes) refl
