-- ===== src/Client.antt =====
-- The network functions of the Linux client, tools/cga-web/src/client/network.c. The socket is a
-- parameter: what `sendto` and `select` with `recv` answer.
pub mod Ending
pub mod Get
pub mod Hosts
pub mod Keyboard
pub mod Put
pub mod Screen
pub mod Sender
use rmtdos_utils.Prelude.{
  ℕ, ◌+◌, ◌-◌, ◌*◌, Bool, Option, none, some, List, [], ◌∷◌, ◌++◌, ltb, if◌then◌else◌, length,
}
use rmtdos_utils.Wire.{Mac, frame}
use rmtdos_utils.Wire.PktType
use rmtdos_utils.Protocol.{Keystroke}
use rmtdos_utils.Protocol.Replies.{key_bytes}

-- `struct RawSocket`, what of it goes into a frame.
pub record RawSocket : Type 0 where
  pub if_addr : Mac
  pub ethertype : ℕ
  pub session_id : ℕ

-- The network: whether a frame was sent, and the next frame, or none if none comes in time.
pub record Link (W : Type 0) : Type 0 where
  pub sendto : List ℕ → W → Bool × W
  pub recv : W → Option (List ℕ) × W

abbrev pub broadcast_addr : Mac
broadcast_addr = record { b0 = 255; b1 = 255; b2 = 255; b3 = 255; b4 = 255; b5 = 255 }

-- The buffer that `send_packet` sends; no destination is the broadcast address.
unfoldable pub packet_buffer : RawSocket → Option Mac → ℕ → List ℕ → List ℕ
packet_buffer sock dest pkt_type payload =
    let to : Mac = elim dest [ none ↦ broadcast_addr | some mac ↦ mac ] in
    frame to sock.if_addr sock.ethertype sock.session_id (length payload) pkt_type payload

unfoldable pub send_ping : RawSocket → Option Mac → List ℕ
unfolding packet_buffer
send_ping sock dest = packet_buffer sock dest PktType.ping (b'P' ∷ b'I' ∷ b'N' ∷ b'G' ∷ [])

unfoldable pub send_status_req : RawSocket → Option Mac → List ℕ
unfolding packet_buffer
send_status_req sock dest = packet_buffer sock dest PktType.status_req []

unfoldable pub send_session_start : RawSocket → Option Mac → List ℕ
unfolding packet_buffer
send_session_start sock dest = packet_buffer sock dest PktType.session_start []

unfoldable pub send_keystrokes : RawSocket → Option Mac → List Keystroke → List ℕ
unfolding packet_buffer
send_keystrokes sock dest keys = packet_buffer sock dest PktType.inject_keystroke (key_bytes keys)
