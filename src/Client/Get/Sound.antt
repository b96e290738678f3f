-- ===== src/Client/Get/Sound.antt =====
-- A download that succeeds leaves the remote file.
use rmtdos_utils.Prelude.{
  ℕ, zero, suc, ◌+◌, ◌-◌, ◌≤◌, ◌≡◌, refl, Bool, true, false, Option, none, some, List, [], ◌∷◌,
  ◌++◌, ◌==◌, ◌||◌, arith, Bool-cases, Option-cases, inl, inr, min, length, take, drop, overlay,
  be16, be32, get_be16, get_be32, if_intro, ltb, ap, ap₂, ◌∙◌, sym, take-add, take_all, replicate,
}
use rmtdos_utils.Wire.{Mac, eth_frame_len}
use rmtdos_utils.Wire.PktType
use rmtdos_utils.Wire.AckCommand
use rmtdos_utils.Wire.AckStatus
use rmtdos_utils.Client.{RawSocket, Link, packet_buffer}
use rmtdos_utils.Client.Put.{
  Run, prepend, recv_file_ack, send_with_ack, is_file_ack, validate_remote_name,
}
use rmtdos_utils.Client.Get.{
  OutFile, is_file_get_data, is_bad_chunk, chunk_data, recv_file_get_data, send_with_data_response,
  get_loop, get_end, get_body, file_transfer_get,
}

-- A frame that brings the bytes of the file from an offset on, all of them inside the frame.
pub record Carries (file : List ℕ) (offset : ℕ) (f : List ℕ) : Type 0 where
  pub in_frame : 38 + get_be16 f 34 ≤ length f
  pub in_buffer : length f ≤ eth_frame_len
  pub bytes_ok : take (get_be16 f 34) (drop 38 f) ≡ take (get_be16 f 34) (drop offset file)

-- What the client relies on: the frames that it accepts are answers about this file.
pub record Honest {W : Type 0} (net : Link W) (sock : RawSocket) (dest : Mac) (transfer_id : ℕ)
    (file : List ℕ) : Type 0 where
  pub chunks :
      (w : W) (f : List ℕ) (offset : ℕ)
      → (net.recv w).0 ≡ some f
      → is_file_get_data sock dest transfer_id offset f ≡ true
      → is_bad_chunk f ≡ false
      → Carries file offset f
  pub size :
      (w : W) (f : List ℕ)
      → (net.recv w).0 ≡ some f
      → is_file_ack sock dest transfer_id AckCommand.begin f ≡ true
      → get_be16 f 32 ≡ AckStatus.ok
      → get_be32 f 34 ≡ length file

-- What holds of the result of a run that ends.
abbrev pub Post : {R W F : Type 0} → (R → Type 0) → Option (R × W × F) → Type 0
Post P none = Unit {0}
Post P (some (r, w, fs)) = P r

pub prepend-Post :
    {R W : Type 0} (P : R → Type 0) (fs : List (List ℕ)) (r : Run R W)
    → Post P r
    → Post P (prepend fs r)
prepend-Post P fs none h = tt
prepend-Post P fs (some (r, w, gs)) h = h

-- What a download of the file that returns 0 leaves on the disk.
abbrev pub Saved : List ℕ → Bool × Option (List ℕ) → Type 0
Saved file (ok, local) = ok ≡ true → local ≡ some file

-- What holds of an answer, if there is one.
abbrev pub Given : {A : Type 0} → (A → Type 0) → Option A → Type 0
Given P none = Unit {0}
Given P (some a) = P a

-- What stands at a place of a frame is read from the array that it was received in.
take-drop-overlay :
    (n i : ℕ) (f stale : List ℕ)
    → i + n ≤ length f
    → length f ≤ length stale
    → take n (drop i (overlay f stale)) ≡ take n (drop i f)
take-drop-overlay zero i f stale h k = refl
take-drop-overlay (suc n) i [] stale h k = absurd (omega arith)
take-drop-overlay (suc n) i (x ∷ f) [] h k = absurd (omega arith)
take-drop-overlay (suc n) zero (x ∷ f) (y ∷ stale) h k =
    ap (λ r. x ∷ r) (take-drop-overlay n 0 f stale (omega arith) (omega arith))
take-drop-overlay (suc n) (suc i) (x ∷ f) (y ∷ stale) h k =
    take-drop-overlay (suc n) i f stale (omega arith) (omega arith)

module _ {W : Type 0} (net : Link W) (sock : RawSocket) (dest : Mac) (transfer_id : ℕ)
    (file : List ℕ) (honest : Honest net sock dest transfer_id file) where
  -- The acknowledged size is that of the file.
  recv_file_ack-size :
      (fuel : ℕ) (w : W) {offset : ℕ} {w' : W}
      → recv_file_ack net sock dest transfer_id fuel AckCommand.begin w ≡ some (some offset, w')
      → offset ≡ length file
  unfolding recv_file_ack
  recv_file_ack-size zero w e = absurd (cc)
  recv_file_ack-size (suc fuel) w {offset} {w'} e = elim (Option-cases (net.recv w).0) [
    | inl silent ↦ absurd (ground arith)
    | inr (f, got) ↦ elim (Bool-cases (is_file_ack sock dest transfer_id AckCommand.begin f)) [
      | inr other ↦
          recv_file_ack-size fuel (net.recv w).1 {offset = offset} {w' = w'} (ground arith)
      | inl ours ↦ ground (arith, honest.size w f got ours)
    ]
  ]

  send_with_ack-size :
      (attempts fuel : ℕ) (payload : List ℕ) (w : W)
      → Post (Given (λ offset. offset ≡ length file)) (
          send_with_ack net sock dest transfer_id attempts fuel PktType.file_get_begin payload
            AckCommand.begin w)
  unfolding send_with_ack
  send_with_ack-size zero fuel payload w = tt
  send_with_ack-size (suc attempts) fuel payload w =
      let packet = packet_buffer sock (some dest) PktType.file_get_begin payload in
      let w1 = (net.sendto packet w).1 in
      elim (Bool-cases (net.sendto packet w).0) [
        | inr down ↦ rw (send_with_ack, down) tt
        | inl sent ↦
            elim (Option-cases (recv_file_ack net sock dest transfer_id fuel AckCommand.begin w1)) [
              | inl out ↦ rw (send_with_ack, sent, out) tt
              | inr ((some offset, w2), e) ↦
                  rw (send_with_ack, sent, e) (recv_file_ack-size fuel w1 e)
              | inr ((none, w2), e) ↦
                  rw (send_with_ack, sent, e)
                    (prepend-Post (Given (λ offset. offset ≡ length file)) (packet ∷ []) _
                      (send_with_ack-size attempts fuel payload w2))
            ]
      ]

  module _ (stale : List ℕ) (whole : length stale ≡ eth_frame_len) where
    -- The bytes of an accepted answer are those of the file.
    recv_file_get_data-bytes :
        (fuel offset : ℕ) (w : W) {count : ℕ} {bytes : List ℕ} {w' : W}
        → recv_file_get_data net sock dest transfer_id stale fuel offset w
          ≡ some (some (count, bytes), w')
        → bytes ≡ take count (drop offset file)
    unfolding recv_file_get_data
    recv_file_get_data-bytes zero offset w e = absurd (cc)
    recv_file_get_data-bytes (suc fuel) offset w {count} {bytes} {w'} e =
        elim (Option-cases (net.recv w).0) [
          | inl silent ↦ absurd (ground arith)
          | inr (f, got) ↦ elim (Bool-cases (is_file_get_data sock dest transfer_id offset f)) [
            | inr other ↦
                recv_file_get_data-bytes fuel offset (net.recv w).1 {count = count} {bytes = bytes}
                  {w' = w'} (ground arith)
            | inl ours ↦ elim (Bool-cases (is_bad_chunk f)) [
              | inl bad ↦ absurd (ground arith)
              | inr good ↦
                  let c = honest.chunks w f offset got ours good in
                  let n = get_be16 f 34 in
                  let read =
                    take-drop-overlay n 38 f stale c.in_frame (omega (arith, c.in_buffer)) in
                  let count_ok : count ≡ n = ground arith in
                  let bytes_ok : bytes ≡ chunk_data stale f = ground arith in
                  bytes_ok
                  ∙ (read ∙ (c.bytes_ok ∙ ap (λ k. take k (drop offset file)) (sym count_ok)))
            ]
          ]
        ]

    abbrev Answer : ℕ → ℕ × List ℕ → Type 0
    Answer offset (count, bytes) = bytes ≡ take count (drop offset file)

    send_with_data_response-Answer :
        (attempts fuel : ℕ) (req : List ℕ) (offset : ℕ) (w : W)
        → Post
            (Given (Answer offset))
            (send_with_data_response net sock dest transfer_id stale attempts fuel req offset w)
    unfolding send_with_data_response
    send_with_data_response-Answer zero fuel req offset w = tt
    send_with_data_response-Answer (suc attempts) fuel req offset w =
        let packet = packet_buffer sock (some dest) PktType.file_get_data_req req in
        let w1 = (net.sendto packet w).1 in
        elim (Bool-cases (net.sendto packet w).0) [
          | inr down ↦ rw (send_with_data_response, down) tt
          | inl sent ↦
              elim (Option-cases
                (recv_file_get_data net sock dest transfer_id stale fuel offset w1)) [
                  | inl out ↦ rw (send_with_data_response, sent, out) tt
                  | inr ((some (count, bytes), w2), e) ↦
                      rw (send_with_data_response, sent, e)
                        (recv_file_get_data-bytes fuel offset w1 e)
                  | inr ((none, w2), e) ↦
                      rw (send_with_data_response, sent, e)
                        (prepend-Post (Given (Answer offset)) (packet ∷ []) _
                          (send_with_data_response-Answer attempts fuel req offset w2))
                ]
        ]

    -- A loop that ran to its end has written the whole file.
    abbrev Written : Bool × List ℕ → Type 0
    Written (all, written) = all ≡ true → written ≡ file

    get_loop-Written :
        (rounds fuel : ℕ) (local : OutFile) (offset : ℕ) (written : List ℕ) (w : W)
        → offset ≤ length file
        → written ≡ take offset file
        → Post Written (
            get_loop net sock dest transfer_id stale rounds fuel local
              (length file)
              offset
              written
              w)
    unfolding get_loop
    get_loop-Written zero fuel local offset written w h e = tt
    get_loop-Written (suc rounds) fuel local offset written w h e =
        let size = length file in
        let req = be32 transfer_id ++ (be32 offset ++ be16 (min 512 (size - offset))) in
        let answer : Post (Given (Answer offset))
            (send_with_data_response net sock dest transfer_id stale 10 fuel req offset w) =
          send_with_data_response-Answer 10 fuel req offset w in
        elim (Bool-cases (ltb offset size)) [
          | inr done ↦ rw (get_loop, done) (λ _. e ∙ take_all offset file (ground arith))
          | inl more ↦
              elim (Option-cases
                (send_with_data_response net sock dest transfer_id stale 10 fuel req offset w)) [
                  | inl out ↦ rw (get_loop, more, out) tt
                  | inr ((none, w1, fs), run) ↦ rw (get_loop, more, run) (λ f. absurd (cc))
                  | inr ((some (count, bytes), w1, fs), run) ↦
                      rw (get_loop, more, run)
                        (elim (Bool-cases ((count == 0) || ltb (size - offset) count)) [
                          | inl bad ↦ rw bad (λ f. absurd (cc))
                          | inr good ↦
                              let read : bytes ≡ take count (drop offset file) = rw run at answer in
                              let longer : written ++ bytes ≡ take (offset + count) file =
                                ap₂ (λ a b. a ++ b) e read ∙ sym (take-add offset count file) in
                              rw good (
                                if_intro (Post Written) (ltb local.room (length written + count))
                                  (λ f. absurd (cc))
                                  (prepend-Post Written fs _ (
                                    get_loop-Written rounds fuel local (offset + count)
                                      (written ++ bytes) w1 (ground arith) longer)))
                        ])
                ]
        ]

    get_end-Saved :
        (fuel : ℕ) (local : OutFile) (written : List ℕ) (w : W)
        → written ≡ file
        → Post (Saved file) (get_end net sock dest transfer_id stale fuel local written w)
    unfolding get_end
    get_end-Saved fuel local written w e = elim (Bool-cases local.closes) [
      | inr bad ↦ rw (get_end, bad) (λ f. absurd (cc))
      | inl good ↦
          elim (Option-cases (
            send_with_ack net sock dest transfer_id 10 fuel PktType.file_get_end (be32 transfer_id)
              AckCommand.end w)) [
                | inl out ↦ rw (get_end, good, out) tt
                | inr ((none, w1, fs), run) ↦ rw (get_end, good, run) (λ f. absurd (cc))
                | inr ((some o, w1, fs), run) ↦ rw (get_end, good, run) (λ f. ap some e)
              ]
    ]

    get_body-Saved :
        (fuel : ℕ) (local : OutFile) (w : W)
        → Post (Saved file) (get_body net sock dest transfer_id stale fuel local (length file) w)
    unfolding get_body
    get_body-Saved fuel local w =
        let size = length file in
        let all : Post Written
            (get_loop net sock dest transfer_id stale (suc size) fuel local size 0 [] w) =
          get_loop-Written (suc size) fuel local 0 [] w (omega arith) refl in
        elim (Option-cases
          (get_loop net sock dest transfer_id stale (suc size) fuel local size 0 [] w)) [
            | inl out ↦ rw (get_body, out) tt
            | inr (((true, written), w1, fs), run) ↦
                rw (get_body, run)
                  (prepend-Post (Saved file) fs _
                    (get_end-Saved fuel local written w1 ((rw run at all) refl)))
            | inr (((false, written), w1, fs), run) ↦ rw (get_body, run) (λ f. absurd (cc))
          ]

    -- A download that comes to its end and reports success has saved exactly the remote file,
    -- whatever frames are lost, repeated or sent by others meanwhile. The frames that the client
    -- takes for answers of the server about this transfer are true and carry their bytes, and its
    -- receive buffer has 1514 bytes.
    pub file_transfer_get-Saved :
        (fuel : ℕ) (local : OutFile) (remote_path : List ℕ) (w : W)
        → Post
            (Saved file)
            (file_transfer_get net sock dest transfer_id stale fuel local remote_path w)
    unfolding file_transfer_get
    file_transfer_get-Saved fuel local remote_path w =
        let payload = be32 transfer_id ++ (remote_path ++ replicate (64 - length remote_path) 0) in
        let told : Post (Given (λ offset. offset ≡ length file)) (
            send_with_ack net sock dest transfer_id 10 fuel PktType.file_get_begin payload
              AckCommand.begin w) =
          send_with_ack-size 10 fuel payload w in
        elim (Bool-cases (validate_remote_name remote_path)) [
          | inr bad ↦ rw (file_transfer_get, bad) (λ f. absurd (cc))
          | inl good ↦
              elim (Option-cases (
                send_with_ack net sock dest transfer_id 10 fuel PktType.file_get_begin payload
                  AckCommand.begin w)) [
                    | inl out ↦ rw (file_transfer_get, good, out) tt
                    | inr ((none, w1, fs), run) ↦
                        rw (file_transfer_get, good, run) (λ f. absurd (cc))
                    | inr ((some size, w1, fs), run) ↦
                        let size_ok : size ≡ length file = rw run at told in
                        rw (file_transfer_get, good, run)
                          (if_intro (Post (Saved file)) local.opens
                            (prepend-Post (Saved file) fs _
                              (rw size_ok (get_body-Saved fuel local w1)))
                            (λ f. absurd (cc)))
                  ]
        ]
