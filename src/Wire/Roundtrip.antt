-- ===== src/Wire/Roundtrip.antt =====
-- The headers of a frame are read back by the loads of the receivers.
use rmtdos_utils.Prelude.{
  ℕ, ◌+◌, ◌^◌, ◌<◌, ◌≡◌, refl, List, arith, get_be16, get_be32, be16_roundtrip, be32_roundtrip,
  length, drop,
}
use rmtdos_utils.Wire.{Mac, get_mac, frame, packet_signature, combined_header_len}

module _ (dest src : Mac) (ethertype session_id payload_len kind : ℕ) (payload : List ℕ) where
  pub src-frame : get_mac (frame dest src ethertype session_id payload_len kind payload) 6 ≡ src
  unfolding frame
  src-frame = refl

  pub signature-frame :
      get_be32 (frame dest src ethertype session_id payload_len kind payload) 14 ≡ packet_signature
  unfolding frame
  signature-frame = refl

  pub session-frame :
      session_id < 2 ^ 32
      → get_be32 (frame dest src ethertype session_id payload_len kind payload) 18 ≡ session_id
  unfolding frame
  session-frame h = be32_roundtrip session_id h

  pub payload_len-frame :
      payload_len < 2 ^ 16
      → get_be16 (frame dest src ethertype session_id payload_len kind payload) 22 ≡ payload_len
  unfolding frame
  payload_len-frame h = be16_roundtrip payload_len h

  pub kind-frame :
      kind < 2 ^ 16
      → get_be16 (frame dest src ethertype session_id payload_len kind payload) 24 ≡ kind
  unfolding frame
  kind-frame h = be16_roundtrip kind h

  pub payload-frame :
      drop combined_header_len (frame dest src ethertype session_id payload_len kind payload)
      ≡ payload
  unfolding frame
  payload-frame = refl

  pub length-frame :
      length (frame dest src ethertype session_id payload_len kind payload)
      ≡ combined_header_len + length payload
  unfolding frame
  length-frame = omega arith
