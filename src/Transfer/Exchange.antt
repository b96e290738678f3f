-- ===== src/Transfer/Exchange.antt =====
-- One request that the server answers at once.
use rmtdos_utils.Prelude.{
  be16_roundtrip, be32_roundtrip, ◌<◌, ◌^◌, ℕ, suc, ◌≡◌, refl, true, some, List, [], ◌∷◌, arith,
  get_be16, get_be32, ap,
}
use rmtdos_utils.Wire.{Mac, mac_eq, frame}
use rmtdos_utils.Wire.AckStatus
use rmtdos_utils.FileTransfer.State.{FileTransferState}
use rmtdos_utils.FileTransfer.Dos.{Int21}
use rmtdos_utils.FileTransfer.Send.{Net, send_file_ack}
use rmtdos_utils.Client.{RawSocket, packet_buffer}
use rmtdos_utils.Client.Put.{is_file_ack, recv_file_ack, send_with_ack}
use rmtdos_utils.Transfer.{World, serve, deliver, take_frame, cable}

module _ {W : Type 0} (int21 : Int21 W) (fuel : ℕ) (net : Net) (rest : List ℕ) (sock : RawSocket)
    (dest : Mac) (transfer_id : ℕ) where
  take_frame-deliver :
      (packet : List ℕ) (v : World W) (s : FileTransferState) (w : W) (reply : List ℕ)
      → v.inbox ≡ []
      → serve int21 fuel net rest packet v.server v.disk ≡ some (s, w, reply ∷ [])
      → take_frame int21 fuel net rest (deliver int21 fuel net rest packet v)
        ≡ (some reply, record { server = s; disk = w; inbox = [] })
  unfolding deliver take_frame
  take_frame-deliver packet v s w reply empty served = rw (deliver, served) (rw empty refl)

  pub send_with_ack-answered :
      (attempts waits pkt_type : ℕ) (payload : List ℕ) (command : ℕ) (v : World W)
      (s : FileTransferState) (w : W) (reply : List ℕ)
      → v.inbox ≡ []
      → serve int21 fuel net rest (packet_buffer sock (some dest) pkt_type payload) v.server v.disk
        ≡ some (s, w, reply ∷ [])
      → is_file_ack sock dest transfer_id command reply ≡ true
      → get_be16 reply 32 ≡ AckStatus.ok
      → send_with_ack
          (cable int21 fuel net rest)
          sock
          dest
          transfer_id
          (suc attempts)
          (suc waits)
          pkt_type
          payload
          command
          v
        ≡ some (
          some (get_be32 reply 34),
          record { server = s; disk = w; inbox = [] },
          packet_buffer sock (some dest) pkt_type payload ∷ [],
        )
  unfolding send_with_ack recv_file_ack
  send_with_ack-answered attempts waits pkt_type payload command v s w reply empty served ours
        good =
      let packet = packet_buffer sock (some dest) pkt_type payload in
      let taken = take_frame-deliver packet v s w reply empty served in
      rw (recv_file_ack, taken, ours, good)
        (ap (λ (u : World W). some (some (get_be32 reply 34), u, packet ∷ []))
          (ap (λ p. p.1) taken))

mac_eq_self : (m : Mac) → mac_eq m m ≡ true
unfolding mac_eq
mac_eq_self m = ground arith

module _ (net : Net) (sock : RawSocket) (transfer_id : ℕ) (s : FileTransferState)
    (known : s.transfer_id ≡ transfer_id) (client : s.client_mac ≡ sock.if_addr)
    (session : s.session_id ≡ sock.session_id) where
  -- The tests of the client hold for an acknowledgement that the server sends it.
  pub send_file_ack-accepted :
      (command offset : ℕ)
      → transfer_id < 2 ^ 32
      → sock.session_id < 2 ^ 32
      → command < 2 ^ 16
      → is_file_ack sock net.mac_addr transfer_id command
          (send_file_ack net s command AckStatus.ok offset)
        ≡ true
  unfolding is_file_ack send_file_ack frame
  send_file_ack-accepted command offset id_fits session_fits command_fits =
      let id = be32_roundtrip transfer_id id_fits in
      let from = be32_roundtrip sock.session_id session_fits in
      let what = be16_roundtrip command command_fits in
      rw (client, session, known)
        (rw (id, from, what, mac_eq_self net.mac_addr, mac_eq_self sock.if_addr) (ground arith))

  pub send_file_ack-offset :
      (command offset : ℕ)
      → offset < 2 ^ 32
      → get_be32 (send_file_ack net s command AckStatus.ok offset) 34 ≡ offset
  unfolding send_file_ack frame
  send_file_ack-offset command offset fits = be32_roundtrip offset fits

  pub send_file_ack-ok :
      (command offset : ℕ)
      → get_be16 (send_file_ack net s command AckStatus.ok offset) 32 ≡ AckStatus.ok
  unfolding send_file_ack frame
  send_file_ack-ok command offset = refl
