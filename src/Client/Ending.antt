-- ===== src/Client/Ending.antt =====
-- The client's upload ends, whatever the network answers.
use rmtdos_utils.Prelude.{
  ℕ, zero, suc, ◌+◌, ◌-◌, ◌^◌, ◌<◌, Bool, not, Option, none, some, List, [], ◌∷◌, ◌++◌, ◌==◌, arith,
  Bool-cases, Option-cases, inl, inr, min, length, take, drop, be16, be32, if_intro, leb, ◌||◌,
  replicate, length-drop,
}
use rmtdos_utils.Wire.{Mac}
use rmtdos_utils.Wire.PktType
use rmtdos_utils.Wire.AckCommand
use rmtdos_utils.Client.{RawSocket, Link, packet_buffer}
use rmtdos_utils.Client.Put.{
  validate_remote_name, LocalFile, Run, prepend, recv_file_ack, send_with_ack, put_loop, put_end,
  put_body, put_file, file_transfer_put,
}

-- There is a result: the fuel has not run out.
abbrev pub Ends : {A : Type 0} → Option A → Type 0
Ends none = ⊥
Ends (some a) = Unit {0}

prepend-Ends : {R W : Type 0} (fs : List (List ℕ)) (r : Run R W) → Ends r → Ends (prepend fs r)
prepend-Ends fs none h = h
prepend-Ends fs (some r) h = tt

-- Among `fuel` frames there is the acknowledgement, or none comes for two seconds.
pub record Quiet {W : Type 0} (net : Link W) (sock : RawSocket) (dest : Mac) (transfer_id fuel : ℕ)
    : Type 0 where
  pub wait_ends :
      (command : ℕ) (w : W) → Ends (recv_file_ack net sock dest transfer_id fuel command w)

module _ {W : Type 0} (net : Link W) (sock : RawSocket) (dest : Mac) (transfer_id fuel : ℕ)
    (quiet : Quiet net sock dest transfer_id fuel) where
  send_with_ack-Ends :
      (attempts pkt_type : ℕ) (payload : List ℕ) (command : ℕ) (w : W)
      → Ends (send_with_ack net sock dest transfer_id attempts fuel pkt_type payload command w)
  unfolding send_with_ack
  send_with_ack-Ends zero pkt_type payload command w = tt
  send_with_ack-Ends (suc attempts) pkt_type payload command w =
      let packet = packet_buffer sock (some dest) pkt_type payload in
      let w1 = (net.sendto packet w).1 in
      let answered : Ends (recv_file_ack net sock dest transfer_id fuel command w1) =
        quiet.wait_ends command w1 in
      elim (Bool-cases (net.sendto packet w).0) [
        | inr down ↦ rw (send_with_ack, down) tt
        | inl sent ↦ elim (Option-cases (recv_file_ack net sock dest transfer_id fuel command w1)) [
          | inl out ↦ absurd (rw out at answered)
          | inr ((some offset, w2), e) ↦ rw (send_with_ack, sent, e) tt
          | inr ((none, w2), e) ↦
              rw (send_with_ack, sent, e)
                (prepend-Ends (packet ∷ []) _
                  (send_with_ack-Ends attempts pkt_type payload command w2))
        ]
      ]

  put_loop-Ends :
      (rounds offset : ℕ) (unread : List ℕ) (w : W)
      → length unread < rounds
      → Ends (put_loop net sock dest transfer_id rounds fuel offset unread w)
  unfolding put_loop
  put_loop-Ends zero offset unread w h = absurd (omega arith)
  put_loop-Ends (suc rounds) offset unread w h =
      let n : ℕ = min 512 (length unread) in
      let payload = be32 transfer_id ++ (be32 offset ++ (be16 n ++ take n unread)) in
      let ends : Ends (
          send_with_ack net sock dest transfer_id 10 fuel PktType.file_put_data payload
            AckCommand.chunk w) =
        send_with_ack-Ends 10 PktType.file_put_data payload AckCommand.chunk w in
      elim (Bool-cases (n == 0)) [
        | inl end ↦ rw (put_loop, end) tt
        | inr more ↦
            elim (Option-cases (
              send_with_ack net sock dest transfer_id 10 fuel PktType.file_put_data payload
                AckCommand.chunk w)) [
                  | inl out ↦ absurd (rw out at ends)
                  | inr ((none, w1, fs), run) ↦ rw (put_loop, more, run) tt
                  | inr ((some ack, w1, fs), run) ↦
                      let positive : 0 < n = ground arith in
                      rw (put_loop, more, run)
                        (if_intro (λ (r : Run (Option ℕ) W). Ends r) (ack == offset + n)
                          (prepend-Ends fs _ (
                            put_loop-Ends rounds ack (drop n unread) w1
                              (omega (arith, length-drop n unread))))
                          tt)
                ]
      ]

  put_end-Ends : (size : ℕ) (w : W) → Ends (put_end net sock dest transfer_id fuel size w)
  unfolding put_end
  put_end-Ends size w =
      let ends =
        send_with_ack-Ends 10 PktType.file_put_end (be32 transfer_id ++ be32 size) AckCommand.end
          w in
      elim (Option-cases (
        send_with_ack net sock dest transfer_id 10 fuel PktType.file_put_end
          (be32 transfer_id ++ be32 size) AckCommand.end w)) [
            | inl out ↦ absurd (rw out at ends)
            | inr ((none, w1, fs), run) ↦ rw (put_end, run) tt
            | inr ((some ack, w1, fs), run) ↦ rw (put_end, run) tt
          ]

  put_body-Ends :
      (file : LocalFile) (size : ℕ) (w : W)
      → Ends (put_body net sock dest transfer_id fuel file size w)
  unfolding put_body
  put_body-Ends file size w =
      let rounds = suc (length file.readable) in
      let ends = put_loop-Ends rounds 0 file.readable w (omega arith) in
      elim (Option-cases (put_loop net sock dest transfer_id rounds fuel 0 file.readable w)) [
        | inl out ↦ absurd (rw out at ends)
        | inr ((none, w1, fs), run) ↦ rw (put_body, run) tt
        | inr ((some offset, w1, fs), run) ↦
            rw (put_body, run)
              (if_intro (λ (r : Run Bool W). Ends r) file.ferror tt
                (prepend-Ends fs _ (put_end-Ends size w1)))
      ]

  put_file-Ends :
      (file : LocalFile) (size : ℕ) (remote_path : List ℕ) (w : W)
      → Ends (put_file net sock dest transfer_id fuel file size remote_path w)
  unfolding put_file
  put_file-Ends file size remote_path w =
      let name = remote_path ++ replicate (64 - length remote_path) 0 in
      let payload = be32 transfer_id ++ (be32 size ++ name) in
      let ends = send_with_ack-Ends 10 PktType.file_put_begin payload AckCommand.begin w in
      elim (Option-cases (
        send_with_ack net sock dest transfer_id 10 fuel PktType.file_put_begin payload
          AckCommand.begin w)) [
            | inl out ↦ absurd (rw out at ends)
            | inr ((none, w1, fs), run) ↦ rw (put_file, run) tt
            | inr ((some ack, w1, fs), run) ↦
                rw (put_file, run)
                  (if_intro (λ (r : Run Bool W). Ends r) (ack == 0)
                    (prepend-Ends fs _ (put_body-Ends file size w1)) tt)
          ]

  -- The client's upload ends for every local file and every remote name, if each wait for an
  -- acknowledgement ends: among `fuel` frames there is one that answers, or none comes in time.
  pub file_transfer_put-Ends :
      (file : LocalFile) (remote_path : List ℕ) (w : W)
      → Ends (file_transfer_put net sock dest transfer_id fuel file remote_path w)
  unfolding file_transfer_put
  file_transfer_put-Ends file remote_path w =
      let P : Run Bool W → Type 0 = λ r. Ends r in
      if_intro P (not (validate_remote_name remote_path)) tt (elim (Option-cases file.st_size) [
        | inl lost ↦ rw lost tt
        | inr (size, found) ↦ rw found (
            if_intro P (leb (2 ^ 32) size || not file.opens) tt
              (put_file-Ends file size remote_path w))
      ])
