-- ===== src/Client/Get.antt =====
-- The download of the Linux client: `file_transfer_get` of client/file_transfer.c and what it calls.
pub mod Sound
use rmtdos_utils.Prelude.{
  ℕ, zero, suc, ◌+◌, ◌-◌, Bool, true, false, not, Option, none, some, List, [], ◌∷◌, ◌++◌, ◌&&◌,
  ◌||◌, ◌==◌, ltb, leb, if◌then◌else◌, min, length, take, drop, overlay, replicate, be16, be32,
  get_be16, get_be32,
}
use rmtdos_utils.Wire.{Mac, mac_eq, get_mac, packet_signature}
use rmtdos_utils.Wire.PktType
use rmtdos_utils.Wire.AckCommand
use rmtdos_utils.Wire.AckStatus
use rmtdos_utils.FileTransfer.State.{file_transfer_name_bytes, file_transfer_chunk_bytes}
use rmtdos_utils.Client.{RawSocket, Link, packet_buffer}
use rmtdos_utils.Client.Put.{Run, prepend, file_retries, send_with_ack, validate_remote_name}

-- The tests of `recv_file_get_data` that make it wait for another frame.
unfoldable pub is_file_get_data : RawSocket → Mac → ℕ → ℕ → List ℕ → Bool
is_file_get_data sock dest transfer_id offset buf =
    leb 38 (length buf)
    && (mac_eq (get_mac buf 6) dest
        && (mac_eq (get_mac buf 0) sock.if_addr
            && (get_be32 buf 14 == packet_signature
                && (get_be32 buf 18 == sock.session_id
                    && (get_be16 buf 24 == PktType.file_get_data
                        && (leb 12 (get_be16 buf 22)
                            && (get_be32 buf 26 == transfer_id && get_be32 buf 30 == offset)))))))

-- The tests after which it gives up: the status, and the count against the chunk and the payload.
unfoldable pub is_bad_chunk : List ℕ → Bool
is_bad_chunk buf =
    not (get_be16 buf 36 == AckStatus.ok)
    || (ltb file_transfer_chunk_bytes (get_be16 buf 34)
        || ltb (get_be16 buf 22) (12 + get_be16 buf 34))

-- `resp_count` bytes behind the header, of the array `stale` after the frame was received in it.
abbrev pub chunk_data : List ℕ → List ℕ → List ℕ
chunk_data stale buf = take (get_be16 buf 34) (drop 38 (overlay buf stale))

-- The local file that is written: whether `fopen` and `fclose` succeed, and how many bytes fit.
pub record OutFile : Type 0 where
  pub opens : Bool
  pub room : ℕ
  pub closes : Bool

module _ {W : Type 0} (net : Link W) (sock : RawSocket) (dest : Mac) (transfer_id : ℕ)
    (stale : List ℕ) where
  -- `some` the count and the bytes for 0, `none` for -1.
  unfoldable pub recv_file_get_data : ℕ → ℕ → W → Option (Option (ℕ × List ℕ) × W)
  recv_file_get_data zero offset w = none
  recv_file_get_data (suc fuel) offset w =
      let (got, w') = net.recv w in
      let again = recv_file_get_data fuel offset w' in
      elim got [
        | none ↦ some (none, w')
        | some buf ↦
            if is_file_get_data sock dest transfer_id offset buf
            then (if is_bad_chunk buf
                then some (none, w')
                else some (some (get_be16 buf 34, chunk_data stale buf), w'))
            else again
      ]

  unfoldable pub send_with_data_response : ℕ → ℕ → List ℕ → ℕ → W → Run (Option (ℕ × List ℕ)) W
  send_with_data_response zero fuel req offset w = some (none, w, [])
  send_with_data_response (suc attempts) fuel req offset w =
      let packet = packet_buffer sock (some dest) PktType.file_get_data_req req in
      let (sent, w1) = net.sendto packet w in
      if sent
      then elim (recv_file_get_data fuel offset w1) [
        | none ↦ none
        | some (answer, w2) ↦ elim answer [
          | some chunk ↦ some (some chunk, w2, packet ∷ [])
          | none ↦ prepend (packet ∷ []) (send_with_data_response attempts fuel req offset w2)
        ]
      ]
      else some (none, w1, packet ∷ [])

  -- The loop `while (offset < file_size)`: whether it ran to its end, and the local file.
  unfoldable pub get_loop : ℕ → ℕ → OutFile → ℕ → ℕ → List ℕ → W → Run (Bool × List ℕ) W
  get_loop zero fuel file size offset written w = none
  get_loop (suc rounds) fuel file size offset written w =
      let remaining = size - offset in
      let req =
        be32 transfer_id ++ (be32 offset ++ be16 (min file_transfer_chunk_bytes remaining)) in
      let response = send_with_data_response file_retries fuel req offset w in
      if ltb offset size
      then elim response [
        | none ↦ none
        | some (answer, w1, packets) ↦ elim answer [
          | none ↦ some ((false, written), w1, packets)
          | some (count, bytes) ↦
              let rest = get_loop rounds fuel file size (offset + count) (written ++ bytes) w1 in
              if (count == 0) || ltb remaining count
              then some ((false, written), w1, packets)
              else if ltb file.room (length written + count)
              then some ((false, written ++ take (file.room - length written) bytes), w1, packets)
              else prepend packets rest
        ]
      ]
      else some ((true, written), w, [])

  -- What follows the loop.
  unfoldable pub get_end : ℕ → OutFile → List ℕ → W → Run (Bool × Option (List ℕ)) W
  get_end fuel file written w =
      if file.closes
      then elim (send_with_ack net sock dest transfer_id file_retries fuel PktType.file_get_end
          (be32 transfer_id) AckCommand.end w) [
            | none ↦ none
            | some (ack, w1, packets) ↦ elim ack [
              | none ↦ some ((false, some written), w1, packets)
              | some ack_offset ↦ some ((true, some written), w1, packets)
            ]
          ]
      else some ((false, some written), w, [])

  -- What follows `fopen`, for a file of `size` bytes.
  unfoldable pub get_body : ℕ → OutFile → ℕ → W → Run (Bool × Option (List ℕ)) W
  unfolding get_end
  get_body fuel file size w = elim (get_loop (suc size) fuel file size 0 [] w) [
    | none ↦ none
    | some ((all, written), w1, packets) ↦
        let rest = get_end fuel file written w1 in
        if all then prepend packets rest else some ((false, some written), w1, packets)
  ]

  -- `true` is the C function's 0; the local file comes with it, once it was created.
  unfoldable pub file_transfer_get : ℕ → OutFile → List ℕ → W → Run (Bool × Option (List ℕ)) W
  unfolding get_body
  file_transfer_get fuel file remote_path w =
      let name = remote_path ++ replicate (file_transfer_name_bytes - length remote_path) 0 in
      if validate_remote_name remote_path
      then elim (send_with_ack net sock dest transfer_id file_retries fuel PktType.file_get_begin
          (be32 transfer_id ++ name) AckCommand.begin w) [
            | none ↦ none
            | some (ack, w1, packets) ↦ elim ack [
              | none ↦ some ((false, none), w1, packets)
              | some size ↦
                  let rest = get_body fuel file size w1 in
                  if file.opens then prepend packets rest else some ((false, none), w1, packets)
            ]
          ]
      else some ((false, none), w, [])
