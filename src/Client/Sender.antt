-- ===== src/Client/Sender.antt =====
-- The packets of the client's upload, and what the server's theorems on uploads ask of them.
use rmtdos_utils.Prelude.{
  Every, ℕ, zero, suc, ◌+◌, ◌-◌, ◌^◌, ◌<◌, ◌≤◌, ◌≡◌, refl, Bool, not, Option, none, some, List, [],
  ◌∷◌, ◌++◌, ◌==◌, arith, Bool-cases, Option-cases, inl, inr, min, leb, ◌||◌, if_intro, replicate,
  length, take, drop, be16, be32, ap, ◌∙◌, drop-drop, take-take_append, length-drop, be16_roundtrip,
  be32_roundtrip,
}
use rmtdos_utils.Wire.{Mac, frame}
use rmtdos_utils.Wire.PktType
use rmtdos_utils.Wire.AckCommand
use rmtdos_utils.FileTransfer.Upload.{FromSender, begins, sends, ends}
use rmtdos_utils.Client.{RawSocket, Link, packet_buffer}
use rmtdos_utils.Client.Ending.{Ends, Quiet, file_transfer_put-Ends}
use rmtdos_utils.Client.Put.{
  validate_remote_name, LocalFile, Run, prepend, recv_file_ack, send_with_ack, put_loop, put_end,
  put_body, put_file, file_transfer_put,
}

Every-append :
    (P : List ℕ → Type 0) (fs gs : List (List ℕ)) → Every P fs → Every P gs → Every P (fs ++ gs)
Every-append P [] gs h k = k
Every-append P (f ∷ fs) gs h k = (h.0, Every-append P fs gs h.1 k)

-- The frames of a run, if it comes to its end, all have a property.
abbrev Sends : {R W : Type 0} → (List ℕ → Type 0) → Option (R × W × List (List ℕ)) → Type 0
Sends P none = Unit {0}
Sends P (some (r, w, fs)) = Every P fs

-- A run that comes to its end, and whose frames all have a property.
abbrev pub EndsSending :
    {R W : Type 0} → (List ℕ → Type 0) → Option (R × W × List (List ℕ)) → Type 0
EndsSending P none = ⊥
EndsSending P (some (r, w, fs)) = Every P fs

EndsSending-intro :
    {R W : Type 0} (P : List ℕ → Type 0) (r : Run R W) → Ends r → Sends P r → EndsSending P r
EndsSending-intro P none h k = h
EndsSending-intro P (some (r, w, fs)) h k = k

prepend-Sends :
    {R W : Type 0} (P : List ℕ → Type 0) (fs : List (List ℕ)) (r : Run R W)
    → Every P fs
    → Sends P r
    → Sends P (prepend fs r)
prepend-Sends P fs none h k = tt
prepend-Sends P fs (some (r, w, gs)) h k = Every-append P fs gs h k

module _ {W : Type 0} (net : Link W) (sock : RawSocket) (dest : Mac) (transfer_id : ℕ)
    (P : List ℕ → Type 0) where
  send_with_ack-Sends :
      (attempts fuel pkt_type : ℕ) (payload : List ℕ) (command : ℕ) (w : W)
      → P (packet_buffer sock (some dest) pkt_type payload)
      → Sends P (send_with_ack net sock dest transfer_id attempts fuel pkt_type payload command w)
  unfolding send_with_ack
  send_with_ack-Sends zero fuel pkt_type payload command w h = tt
  send_with_ack-Sends (suc attempts) fuel pkt_type payload command w h =
      let packet = packet_buffer sock (some dest) pkt_type payload in
      let w1 = (net.sendto packet w).1 in
      elim (Bool-cases (net.sendto packet w).0) [
        | inr down ↦ rw (send_with_ack, down) (h, tt)
        | inl sent ↦ elim (Option-cases (recv_file_ack net sock dest transfer_id fuel command w1)) [
          | inl out ↦ rw (send_with_ack, sent, out) tt
          | inr ((some offset, w2), e) ↦ rw (send_with_ack, sent, e) (h, tt)
          | inr ((none, w2), e) ↦
              rw (send_with_ack, sent, e)
                (prepend-Sends P (packet ∷ []) _ (h, tt)
                  (send_with_ack-Sends attempts fuel pkt_type payload command w2 h))
        ]
      ]

-- What the server's theorems on uploads ask of a packet, whatever follows it in the buffer.
abbrev pub IsOfSender : List ℕ → List ℕ → Type 0
IsOfSender file packet = (rest : List ℕ) → FromSender file (packet ++ rest)

module _ (sock : RawSocket) (dest : Mac) (transfer_id : ℕ) (file : List ℕ)
    (small : length file < 2 ^ 32) where
  pub begin-FromSender :
      (name : List ℕ)
      → IsOfSender file (
          packet_buffer sock
            (some dest)
            PktType.file_put_begin
            (be32 transfer_id ++ (be32 (length file) ++ name)))
  unfolding packet_buffer frame
  begin-FromSender name rest = begins refl (be32_roundtrip (length file) small)

  pub end-FromSender :
      IsOfSender file (
        packet_buffer sock
          (some dest)
          PktType.file_put_end
          (be32 transfer_id ++ be32 (length file)))
  unfolding packet_buffer frame
  end-FromSender rest = ends refl

  pub chunk-FromSender :
      (offset n : ℕ) (unread : List ℕ)
      → unread ≡ drop offset file
      → n ≡ min 512 (length file - offset)
      → offset ≤ length file
      → IsOfSender file (
          packet_buffer sock
            (some dest)
            PktType.file_put_data
            (be32 transfer_id ++ (be32 offset ++ (be16 n ++ take n unread))))
  unfolding packet_buffer frame
  chunk-FromSender offset n unread eu e h rest =
      let at = be32_roundtrip offset (omega arith) in
      let count = be16_roundtrip n (omega arith) in
      sends refl (omega (arith, at, count)) (
        rw (count, at, eu)
          (take-take_append n (drop offset file) rest (omega (arith, length-drop offset file))))

  module _ {W : Type 0} (net : Link W) where
    put_loop-Sends :
        (rounds fuel offset : ℕ) (unread : List ℕ) (w : W)
        → offset ≤ length file
        → unread ≡ drop offset file
        → Sends (IsOfSender file) (put_loop net sock dest transfer_id rounds fuel offset unread w)
    unfolding put_loop
    put_loop-Sends zero fuel offset unread w h e = tt
    put_loop-Sends (suc rounds) fuel offset unread w h e =
        let P : List ℕ → Type 0 = IsOfSender file in
        let n : ℕ = min 512 (length unread) in
        let left = ap length e ∙ length-drop offset file in
        let payload = be32 transfer_id ++ (be32 offset ++ (be16 n ++ take n unread)) in
        let all : Sends P (
            send_with_ack net sock dest transfer_id 10 fuel PktType.file_put_data payload
              AckCommand.chunk w) =
          send_with_ack-Sends net sock dest transfer_id P 10 fuel PktType.file_put_data payload
            AckCommand.chunk w (chunk-FromSender offset n unread e (omega (arith, left)) h) in
        elim (Bool-cases (n == 0)) [
          | inl end ↦ rw (put_loop, end) tt
          | inr more ↦
              elim (Option-cases (
                send_with_ack net sock dest transfer_id 10 fuel PktType.file_put_data payload
                  AckCommand.chunk w)) [
                    | inl out ↦ rw (put_loop, more, out) tt
                    | inr ((none, w1, fs), run) ↦ rw (put_loop, more, run) (rw run at all)
                    | inr ((some ack, w1, fs), run) ↦
                        rw (put_loop, more, run)
                          (elim (Bool-cases (ack == offset + n)) [
                            | inr wrong ↦ rw wrong (rw run at all)
                            | inl right ↦
                                let same : offset + n ≡ ack = ground arith in
                                rw right (
                                  prepend-Sends P fs _ (rw run at all) (
                                    put_loop-Sends rounds fuel ack (drop n unread) w1
                                      (omega (arith, left, same))
                                      (ap (λ xs. drop n xs) e
                                        ∙ (drop-drop n offset file ∙ ap (λ m. drop m file) same))))
                          ])
                  ]
        ]

    put_end-Sends :
        (fuel : ℕ) (w : W)
        → Sends (IsOfSender file) (put_end net sock dest transfer_id fuel (length file) w)
    unfolding put_end
    put_end-Sends fuel w =
        let all =
          send_with_ack-Sends net sock dest transfer_id (IsOfSender file) 10 fuel
            PktType.file_put_end (be32 transfer_id ++ be32 (length file)) AckCommand.end w
            end-FromSender in
        elim (Option-cases (
          send_with_ack net sock dest transfer_id 10 fuel PktType.file_put_end
            (be32 transfer_id ++ be32 (length file)) AckCommand.end w)) [
              | inl out ↦ rw (put_end, out) tt
              | inr ((none, w1, fs), run) ↦ rw (put_end, run) (rw run at all)
              | inr ((some ack, w1, fs), run) ↦ rw (put_end, run) (rw run at all)
            ]

    module _ (local : LocalFile) (reads : local.readable ≡ file) where
      put_body-Sends :
          (fuel : ℕ) (w : W)
          → Sends (IsOfSender file) (put_body net sock dest transfer_id fuel local (length file) w)
      unfolding put_body
      put_body-Sends fuel w =
          let P : List ℕ → Type 0 = IsOfSender file in
          let rounds = suc (length local.readable) in
          let all : Sends P (put_loop net sock dest transfer_id rounds fuel 0 local.readable w) =
            put_loop-Sends rounds fuel 0 local.readable w (omega arith) reads in
          elim (Option-cases (put_loop net sock dest transfer_id rounds fuel 0 local.readable w)) [
            | inl out ↦ rw (put_body, out) tt
            | inr ((none, w1, fs), run) ↦ rw (put_body, run) (rw run at all)
            | inr ((some offset, w1, fs), run) ↦
                rw (put_body, run)
                  (if_intro (λ (r : Run Bool W). Sends P r) local.ferror (rw run at all)
                    (prepend-Sends P fs _ (rw run at all) (put_end-Sends fuel w1)))
          ]

      put_file-Sends :
          (fuel : ℕ) (remote_path : List ℕ) (w : W)
          → Sends
              (IsOfSender file)
              (put_file net sock dest transfer_id fuel local (length file) remote_path w)
      unfolding put_file
      put_file-Sends fuel remote_path w =
          let P : List ℕ → Type 0 = IsOfSender file in
          let name = remote_path ++ replicate (64 - length remote_path) 0 in
          let payload = be32 transfer_id ++ (be32 (length file) ++ name) in
          let all : Sends P (
              send_with_ack net sock dest transfer_id 10 fuel PktType.file_put_begin payload
                AckCommand.begin w) =
            send_with_ack-Sends net sock dest transfer_id P 10 fuel PktType.file_put_begin payload
              AckCommand.begin w (begin-FromSender name) in
          elim (Option-cases (
            send_with_ack net sock dest transfer_id 10 fuel PktType.file_put_begin payload
              AckCommand.begin w)) [
                | inl out ↦ rw (put_file, out) tt
                | inr ((none, w1, fs), run) ↦ rw (put_file, run) (rw run at all)
                | inr ((some ack, w1, fs), run) ↦
                    rw (put_file, run)
                      (if_intro (λ (r : Run Bool W). Sends P r) (ack == 0)
                        (prepend-Sends P fs _ (rw run at all) (put_body-Sends fuel w1))
                        (rw run at all))
              ]

      file_transfer_put-IsOfSender :
          (fuel : ℕ) (remote_path : List ℕ) (w : W)
          → local.st_size ≡ some (length file)
          → Sends
              (IsOfSender file)
              (file_transfer_put net sock dest transfer_id fuel local remote_path w)
      unfolding file_transfer_put
      file_transfer_put-IsOfSender fuel remote_path w size =
          let P : Run Bool W → Type 0 = λ r. Sends (IsOfSender file) r in
          if_intro P (not (validate_remote_name remote_path)) tt (
            rw size (
              if_intro P (leb (2 ^ 32) (length file) || not local.opens) tt
                (put_file-Sends fuel remote_path w)))

      -- The client's upload of a file comes to its end, and every packet that it has sent by
      -- then, on every path and at every retry, is a packet of a sender of that file as the
      -- server's theorems on uploads ask for, whatever follows it in the receive buffer. The file
      -- has fewer than 2 ^ 32 bytes, `fread` gives its bytes and `stat` its size. Of the network
      -- only this is assumed, that each wait for an acknowledgement ends: among `fuel` frames
      -- there is one that answers, or none comes in time.
      pub file_transfer_put-Sends :
          (fuel : ℕ) (remote_path : List ℕ) (w : W)
          → Quiet net sock dest transfer_id fuel
          → local.st_size ≡ some (length file)
          → EndsSending
              (IsOfSender file)
              (file_transfer_put net sock dest transfer_id fuel local remote_path w)
      file_transfer_put-Sends fuel remote_path w quiet size =
          EndsSending-intro (IsOfSender file)
            (file_transfer_put net sock dest transfer_id fuel local remote_path w)
            (file_transfer_put-Ends net sock dest transfer_id fuel quiet local remote_path w)
            (file_transfer_put-IsOfSender fuel remote_path w size)
