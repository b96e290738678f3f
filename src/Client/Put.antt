-- ===== src/Client/Put.antt =====
-- The upload of the Linux client: `file_transfer_put` of client/file_transfer.c and what it calls.
use rmtdos_utils.Prelude.{
  ℕ, zero, suc, ◌+◌, ◌-◌, ◌^◌, Bool, false, not, Option, none, some, List, [], ◌∷◌, ◌++◌, ◌&&◌,
  ◌||◌, ◌==◌, leb, if◌then◌else◌, min, length, take, drop, replicate, be16, be32, get_be16,
  get_be32,
}
use rmtdos_utils.Wire.{Mac, mac_eq, get_mac, packet_signature}
use rmtdos_utils.Wire.PktType
use rmtdos_utils.Wire.AckCommand
use rmtdos_utils.Wire.AckStatus
use rmtdos_utils.FileTransfer.State.{file_transfer_name_bytes, file_transfer_chunk_bytes}
use rmtdos_utils.Client.{RawSocket, Link, packet_buffer}

abbrev pub file_retries : ℕ
file_retries = 10

-- The tests of `recv_file_ack` on a received frame, the one of its length included.
unfoldable pub is_file_ack : RawSocket → Mac → ℕ → ℕ → List ℕ → Bool
is_file_ack sock dest transfer_id command buf =
    leb 38 (length buf)
    && (mac_eq (get_mac buf 6) dest
        && (mac_eq (get_mac buf 0) sock.if_addr
            && (get_be32 buf 14 == packet_signature
                && (get_be32 buf 18 == sock.session_id
                    && (get_be16 buf 24 == PktType.file_ack
                        && (leb 12 (get_be16 buf 22)
                            && (get_be32 buf 26 == transfer_id && get_be16 buf 30 == command)))))))

-- What a part of a transfer gives: its result, the world, and the frames that were sent; none if the
-- fuel has run out.
abbrev pub Run : Type 0 → Type 0 → Type 0
Run R W = Option (R × W × List (List ℕ))

-- A run after frames that were sent before it.
abbrev pub prepend : {R W : Type 0} → List (List ℕ) → Run R W → Run R W
prepend packets none = none
prepend packets (some (r, w, more)) = some (r, w, packets ++ more)

-- `make_transfer_id` is an exclusive or of the session id and a salt: the id is an argument.
module _ {W : Type 0} (net : Link W) (sock : RawSocket) (dest : Mac) (transfer_id : ℕ) where
  -- `some offset` for 0, `none` for -1; no result at all when `fuel` frames did not bring one.
  unfoldable pub recv_file_ack : ℕ → ℕ → W → Option (Option ℕ × W)
  recv_file_ack zero command w = none
  recv_file_ack (suc fuel) command w =
      let (got, w') = net.recv w in
      let again = recv_file_ack fuel command w' in
      elim got [
        | none ↦ some (none, w')
        | some buf ↦
            if is_file_ack sock dest transfer_id command buf
            then (if get_be16 buf 32 == AckStatus.ok
                then some (some (get_be32 buf 34), w')
                else some (none, w'))
            else again
      ]

  -- The result with the frames that were sent, the first one first.
  unfoldable pub send_with_ack : ℕ → ℕ → ℕ → List ℕ → ℕ → W → Run (Option ℕ) W
  send_with_ack zero fuel pkt_type payload command w = some (none, w, [])
  send_with_ack (suc attempts) fuel pkt_type payload command w =
      let packet = packet_buffer sock (some dest) pkt_type payload in
      let (sent, w1) = net.sendto packet w in
      if sent
      then elim (recv_file_ack fuel command w1) [
        | none ↦ none
        | some (ack, w2) ↦ elim ack [
          | some offset ↦ some (some offset, w2, packet ∷ [])
          | none ↦ prepend (packet ∷ []) (send_with_ack attempts fuel pkt_type payload command w2)
        ]
      ]
      else some (none, w1, packet ∷ [])

  -- The loop `for (;;)`, with what is left to read of the file; `some offset` where it ends by a
  -- `break`.
  unfoldable pub put_loop : ℕ → ℕ → ℕ → List ℕ → W → Run (Option ℕ) W
  put_loop zero fuel offset unread w = none
  put_loop (suc rounds) fuel offset unread w =
      let n = min file_transfer_chunk_bytes (length unread) in
      let payload = be32 transfer_id ++ (be32 offset ++ (be16 n ++ take n unread)) in
      let chunk =
        send_with_ack file_retries fuel PktType.file_put_data payload AckCommand.chunk w in
      if n == 0 then some (some offset, w, []) else elim chunk [
        | none ↦ none
        | some (ack, w1, packets) ↦ elim ack [
          | none ↦ some (none, w1, packets)
          | some ack_offset ↦
              let rest = put_loop rounds fuel ack_offset (drop n unread) w1 in
              if ack_offset == offset + n then prepend packets rest else some (none, w1, packets)
        ]
      ]

unfoldable pub has_slash : List ℕ → Bool
has_slash [] = false
has_slash (c ∷ s) = (c == b'/') || has_slash s

-- `true` is the C function's 0. The name is given without its NUL.
unfoldable pub validate_remote_name : List ℕ → Bool
unfolding has_slash
validate_remote_name remote_path = not (
    (length remote_path == 0)
    || (leb file_transfer_name_bytes (length remote_path) || has_slash remote_path))

-- The local file: `st_size` if `stat` succeeds, whether `fopen` does, the bytes that `fread` gives
-- before it stops, and whether it stopped at an error.
pub record LocalFile : Type 0 where
  pub st_size : Option ℕ
  pub opens : Bool
  pub readable : List ℕ
  pub ferror : Bool

module _ {W : Type 0} (net : Link W) (sock : RawSocket) (dest : Mac) (transfer_id : ℕ) where
  -- What follows the loop of `file_transfer_put`: the end of the upload.
  unfoldable pub put_end : ℕ → ℕ → W → Run Bool W
  put_end fuel size w =
      elim (send_with_ack net sock dest transfer_id file_retries fuel PktType.file_put_end
        (be32 transfer_id ++ be32 size) AckCommand.end w) [
          | none ↦ none
          | some (ack, w1, packets) ↦ elim ack [
            | none ↦ some (false, w1, packets)
            | some ack_offset ↦ some (ack_offset == size, w1, packets)
          ]
        ]

  -- The loop and what follows it, once the file is open and the server has answered the begin.
  unfoldable pub put_body : ℕ → LocalFile → ℕ → W → Run Bool W
  unfolding put_end
  put_body fuel file size w =
      elim (put_loop net sock dest transfer_id (suc (length file.readable)) fuel 0 file.readable
        w) [
          | none ↦ none
          | some (r, w1, packets) ↦ elim r [
            | none ↦ some (false, w1, packets)
            | some offset ↦
                let rest = put_end fuel size w1 in
                if file.ferror then some (false, w1, packets) else prepend packets rest
          ]
        ]

  -- The server is told the size and the name, padded with zeros; it answers with offset 0.
  unfoldable pub put_file : ℕ → LocalFile → ℕ → List ℕ → W → Run Bool W
  unfolding put_body
  put_file fuel file size remote_path w =
      let name = remote_path ++ replicate (file_transfer_name_bytes - length remote_path) 0 in
      elim (send_with_ack net sock dest transfer_id file_retries fuel PktType.file_put_begin
        (be32 transfer_id ++ (be32 size ++ name)) AckCommand.begin w) [
          | none ↦ none
          | some (ack, w1, packets) ↦ elim ack [
            | none ↦ some (false, w1, packets)
            | some ack_offset ↦
                let rest = put_body fuel file size w1 in
                if ack_offset == 0 then prepend packets rest else some (false, w1, packets)
          ]
        ]

  -- `true` is the C function's 0.
  unfoldable pub file_transfer_put : ℕ → LocalFile → List ℕ → W → Run Bool W
  unfolding put_file validate_remote_name
  file_transfer_put fuel file remote_path w =
      if not (validate_remote_name remote_path) then some (false, w, []) else elim file.st_size [
        | none ↦ some (false, w, [])
        | some size ↦
            if leb (2 ^ 32) size || not file.opens
            then some (false, w, [])
            else put_file fuel file size remote_path w
      ]
