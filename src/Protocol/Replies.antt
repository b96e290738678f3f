-- ===== src/Protocol/Replies.antt =====
-- What the client finds in the replies of the protocol handlers.
use rmtdos_utils.Prelude.{
  map, ◌%◌, ◌/◌, ℕ, suc, ◌+◌, ◌*◌, ◌<◌, ◌≤◌, ◌^◌, ◌≡◌, refl, List, [], ◌∷◌, ◌++◌, arith, length, ap,
  ◌∙◌, get_be32, min, take, drop, replicate, be16_roundtrip, be32_roundtrip, take-overlay_of_length,
  length-replicate,
}
use rmtdos_utils.FileTransfer.Receive.{payload_len_of}
use rmtdos_utils.Wire.{Mac, get_mac, frame, max_payload_length, combined_header_len}
use rmtdos_utils.Wire.PktType
use rmtdos_utils.FileTransfer.Send.{Net}
use rmtdos_utils.Protocol.{
  Keystroke, handle_ping, prep_for_reply, read_keys, handle_inject_keystroke,
}

take-append : (xs ys : List ℕ) → take (length xs) (xs ++ ys) ≡ xs
take-append [] ys = refl
take-append (x ∷ xs) ys = ap (λ r. x ∷ r) (take-append xs ys)

take-append_add :
    (hs : List ℕ) (n : ℕ) (xs : List ℕ) → take (length hs + n) (hs ++ xs) ≡ hs ++ take n xs
take-append_add [] n xs = ap (λ m. take m xs) (omega arith)
take-append_add (h ∷ hs) n xs =
    ap (λ m. take m (h ∷ (hs ++ xs))) {y = suc (length hs + n)} (omega arith)
    ∙ ap (λ r. h ∷ r) (take-append_add hs n xs)

-- The first bytes of a frame are those of its headers and of its payload.
take-frame :
    (dest src : Mac) (ethertype session_id payload_len kind n : ℕ) (payload : List ℕ)
    → take (combined_header_len + n) (frame dest src ethertype session_id payload_len kind payload)
      ≡ frame dest src ethertype session_id payload_len kind (take n payload)
unfolding frame
take-frame dest src ethertype session_id payload_len kind n payload =
    take-append_add (frame dest src ethertype session_id payload_len kind []) n payload

pong-frame :
    (net : Net) (packet payload : List ℕ) (session_id n : ℕ)
    → payload_len_of packet ≡ n
    → n ≤ max_payload_length
    → get_be32 packet 18 ≡ session_id
    → take n (drop combined_header_len packet) ≡ payload
    → length payload ≡ n
    → handle_ping net (combined_header_len + n) packet
      ≡ frame (get_mac packet 6) net.mac_addr net.ethertype session_id n PktType.pong payload
unfolding handle_ping prep_for_reply
pong-frame net packet payload session_id n len fits sid body size =
    let short : min max_payload_length (payload_len_of packet) ≡ n = omega arith in
    let echo =
      take-overlay_of_length n payload (replicate max_payload_length 0) size
        (omega (arith, length-replicate {A = ℕ} max_payload_length 0)) in
    rw (handle_ping, short, sid, body, take-frame, echo) refl

-- The pong to a ping of up to a whole frame is the ping's own payload, sent back to its sender in
-- its session, whatever follows the ping in the receive buffer. The session id has 32 bits.
pub handle_ping-frame :
    (net : Net) (dest src : Mac) (ethertype session_id : ℕ) (payload rest : List ℕ)
    → session_id < 2 ^ 32
    → length payload ≤ max_payload_length
    → handle_ping net
        (combined_header_len + length payload)
        (frame dest src ethertype session_id (length payload) PktType.ping payload ++ rest)
      ≡ frame src net.mac_addr net.ethertype session_id (length payload) PktType.pong payload
unfolding frame
handle_ping-frame net dest src ethertype session_id payload rest h k =
    let packet =
      frame dest src ethertype session_id (length payload) PktType.ping payload ++ rest in
    pong-frame net packet payload session_id (length payload)
      (be16_roundtrip (length payload) (omega arith)) k (be32_roundtrip session_id h)
      (take-append payload rest) refl

-- The bytes of the keystrokes that the client sends, which has little-endian words.
abbrev pub key_bytes : List Keystroke → List ℕ
key_bytes [] = []
key_bytes (k ∷ ks) =
    k.bios_scan_code ∷ k.ascii_value ∷ k.flags_17 % 256 ∷ k.flags_17 / 256 % 256 ∷ key_bytes ks

-- A keystroke as the BIOS is told it: the flags are cut to a byte.
abbrev pub injected : Keystroke → Keystroke
injected k = record k { flags_17 = k.flags_17 % 256 }

read_keys-key_bytes :
    (ks : List Keystroke) (rest : List ℕ)
    → read_keys (length ks) (key_bytes ks ++ rest) ≡ map injected ks
unfolding read_keys
read_keys-key_bytes [] rest = refl
read_keys-key_bytes (k ∷ ks) rest = ap (λ r. injected k ∷ r) (read_keys-key_bytes ks rest)

-- The keystrokes of a packet are injected in the order in which the client wrote them, and no
-- others, with their flags cut to a byte, whatever follows the packet in the receive buffer.
-- Their bytes are fewer than 65536.
pub handle_inject_keystroke-frame :
    (dest src : Mac) (ethertype session_id : ℕ) (ks : List Keystroke) (rest : List ℕ)
    → 4 * length ks < 2 ^ 16
    → handle_inject_keystroke (
        frame dest src ethertype session_id (4 * length ks) PktType.inject_keystroke (key_bytes ks)
        ++ rest)
      ≡ map injected ks
unfolding handle_inject_keystroke frame
handle_inject_keystroke-frame dest src ethertype session_id ks rest h =
    ap (λ n. read_keys n (key_bytes ks ++ rest)) {y = length ks} (omega arith)
    ∙ read_keys-key_bytes ks rest
