-- ===== src/Transfer/Packets.antt =====
-- What the server reads in a packet of the client's upload, with `rest` behind it in the receive
-- buffer.
use rmtdos_utils.Prelude.{
  ℕ, ◌^◌, ◌<◌, ◌≤◌, ◌≡◌, ◌∙◌, refl, some, List, ◌++◌, arith, length, be16, be32, get_be16, get_be32,
  length-append, be16_roundtrip, be32_roundtrip,
}
use rmtdos_utils.Wire.{frame}
use rmtdos_utils.FileTransfer.Send.{Net}
use rmtdos_utils.Client.{RawSocket, packet_buffer}
use rmtdos_utils.Transfer.Server.{FromClient}

module _ (net : Net) (rest : List ℕ) (sock : RawSocket) (transfer_id : ℕ) where
  pub packet_buffer-FromClient :
      (kind : ℕ) (body : List ℕ) (payload_len : ℕ)
      → sock.session_id < 2 ^ 32
      → transfer_id < 2 ^ 32
      → length (be32 transfer_id ++ body) ≡ payload_len
      → payload_len < 2 ^ 16
      → kind < 2 ^ 16
      → FromClient sock.if_addr sock.session_id transfer_id kind payload_len
          (packet_buffer sock (some net.mac_addr) kind (be32 transfer_id ++ body) ++ rest)
  unfolding packet_buffer frame
  packet_buffer-FromClient kind body payload_len session_fits id_fits sized len_fits kind_fits =
      record {
        sender = refl;
        session = be32_roundtrip sock.session_id session_fits;
        sized = be16_roundtrip (length (be32 transfer_id ++ body)) (rw sized len_fits) ∙ sized;
        kind_ok = be16_roundtrip kind kind_fits;
        transfer = be32_roundtrip transfer_id id_fits;
      }

  pub packet_buffer-word :
      (kind word : ℕ) (tail : List ℕ)
      → word < 2 ^ 32
      → get_be32
          (packet_buffer sock (some net.mac_addr) kind (be32 transfer_id ++ (be32 word ++ tail))
            ++ rest)
          30
        ≡ word
  unfolding packet_buffer frame
  packet_buffer-word kind word tail fits = be32_roundtrip word fits

  pub packet_buffer-count :
      (kind offset count : ℕ) (tail : List ℕ)
      → count < 2 ^ 16
      → get_be16
          (packet_buffer sock
              (some net.mac_addr)
              kind
              (be32 transfer_id ++ (be32 offset ++ (be16 count ++ tail)))
            ++ rest)
          34
        ≡ count
  unfolding packet_buffer frame
  packet_buffer-count kind offset count tail fits = be16_roundtrip count fits

  pub length-packet_buffer :
      (kind : ℕ) (payload : List ℕ)
      → 132 ≤ length rest
      → 158 ≤ length (packet_buffer sock (some net.mac_addr) kind payload ++ rest)
  unfolding packet_buffer frame
  length-packet_buffer kind payload room = omega (arith, length-append payload rest)
