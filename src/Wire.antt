-- ===== src/Wire.antt =====
-- common/protocol.h and common/ethernet.h of tools/cga-web: the frame layout that the DOS server
-- and the Linux client share.
pub mod AckCommand
pub mod AckStatus
pub mod PktType
pub mod Roundtrip
use rmtdos_utils.Prelude.{ℕ, ◌+◌, ◌-◌, Bool, List, [], ◌∷◌, ◌++◌, ◌&&◌, ◌==◌, be16, be32, byte}

-- A MAC address, `uint8_t[ETH_ALEN]`.
pub record Mac : Type 0 where
  pub b0 : ℕ
  pub b1 : ℕ
  pub b2 : ℕ
  pub b3 : ℕ
  pub b4 : ℕ
  pub b5 : ℕ

abbrev pub mac_bytes : Mac → List ℕ
mac_bytes m = m.b0 ∷ m.b1 ∷ m.b2 ∷ m.b3 ∷ m.b4 ∷ m.b5 ∷ []

abbrev pub get_mac : List ℕ → ℕ → Mac
get_mac xs i = record {
  b0 = byte xs i;
  b1 = byte xs (i + 1);
  b2 = byte xs (i + 2);
  b3 = byte xs (i + 3);
  b4 = byte xs (i + 4);
  b5 = byte xs (i + 5);
}

-- `!memcmp(a, b, ETH_ALEN)`
unfoldable pub mac_eq : Mac → Mac → Bool
mac_eq a b =
    a.b0 == b.b0
    && (a.b1 == b.b1 && (a.b2 == b.b2 && (a.b3 == b.b3 && (a.b4 == b.b4 && a.b5 == b.b5))))

abbrev pub packet_signature : ℕ
packet_signature = 0x7b6e_05b0

abbrev pub eth_frame_len : ℕ
eth_frame_len = 1514

abbrev pub combined_header_len : ℕ
combined_header_len = 26

abbrev pub max_payload_length : ℕ
max_payload_length = eth_frame_len - combined_header_len

-- A frame as every sender builds it: `EthernetHeader`, `ProtocolHeader`, then the payload.
unfoldable pub frame : Mac → Mac → ℕ → ℕ → ℕ → ℕ → List ℕ → List ℕ
frame dest src ethertype session_id payload_len pkt_type payload =
    mac_bytes dest
    ++ (mac_bytes src
        ++ (be16 ethertype
            ++ (be32 packet_signature
                ++ (be32 session_id ++ (be16 payload_len ++ (be16 pkt_type ++ payload))))))
