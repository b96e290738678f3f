-- ===== src/Transfer/Upload.antt =====
-- A whole upload over the cable: `file_transfer_put` of the client against the server.
use rmtdos_utils.Prelude.{
  ℕ, zero, suc, ◌+◌, ◌-◌, ◌^◌, ◌<◌, ◌≤◌, ◌≡◌, ◌∙◌, refl, ap, true, false, not, some, List, [], ◌∷◌,
  ◌++◌, arith, length, drop, take, min, u16_of_int, be16, be32, length-drop, length-append,
  length-take, length-replicate, drop-drop, take_all, replicate, Bool-cases, inl, inr, ◌==◌, ◌||◌,
  leb,
}
use rmtdos_utils.Wire.PktType
use rmtdos_utils.Wire.AckCommand
use rmtdos_utils.FileTransfer.State.{FileTransferState, FileOp}
use rmtdos_utils.FileTransfer.Dos.{Int21, dos_close_file}
use rmtdos_utils.FileTransfer.Send.{Net}
use rmtdos_utils.FileTransfer.Invariant.{IsValid}
use rmtdos_utils.FileTransfer.Upload.{Stores, IsIntact}
use rmtdos_utils.FileTransfer.Upload.Steps.{handle_packet-IsIntact}
use rmtdos_utils.FileTransfer.Upload.Work.{process_idle-IsIntact}
use rmtdos_utils.Client.{RawSocket, packet_buffer}
use rmtdos_utils.Client.Put.{
  send_with_ack, put_loop, put_end, put_body, put_file, LocalFile, validate_remote_name,
  file_transfer_put,
}
use rmtdos_utils.Client.Sender.{IsOfSender, begin-FromSender, chunk-FromSender}
use rmtdos_utils.Transfer.{World, serve, cable}
use rmtdos_utils.Transfer.Exchange.{
  send_with_ack-answered, send_file_ack-accepted, send_file_ack-offset, send_file_ack-ok,
}
use rmtdos_utils.Transfer.Packets.{
  packet_buffer-FromClient, packet_buffer-word, packet_buffer-count, length-packet_buffer,
}
use rmtdos_utils.Transfer.Server.{
  Accepts, FromClient, Ready, Answered, begin-Answered, chunk-Answered, end-Answered,
  dos_write_file-full,
}

length-le_of_valid : (path : List ℕ) → validate_remote_name path ≡ true → length path ≤ 64
unfolding validate_remote_name
length-le_of_valid path h = ground arith

module _ {W : Type 0} (int21 : Int21 W) (content : W → ℕ → List ℕ) (handle : ℕ)
    (opens : Accepts int21 handle) (stores : Stores int21 content) (fuel : ℕ) (net : Net)
    (rest : List ℕ) (room : 132 ≤ length rest) (sock : RawSocket) (transfer_id : ℕ)
    (session_fits : sock.session_id < 2 ^ 32) (id_fits : transfer_id < 2 ^ 32) (file : List ℕ)
    (small : length file < 2 ^ 32) where
  -- The server has `offset` bytes of the file and waits; the client has received every answer.
  pub record Waiting (offset : ℕ) (v : World W) : Type 0 where
    pub ready : Ready sock.if_addr sock.session_id transfer_id handle (length file) offset v.server
    pub intact : IsIntact int21 content net file v.server v.disk
    pub received : v.inbox ≡ []

  serve-IsIntact :
      (packet : List ℕ) (s : FileTransferState) (w : W) {s' : FileTransferState} {w' : W}
      {frames : List (List ℕ)}
      → IsIntact int21 content net file s w
      → 158 ≤ length (packet ++ rest)
      → IsOfSender file packet
      → serve int21 fuel net rest packet s w ≡ some (s', w', frames)
      → IsIntact int21 content net file s' w'
  unfolding serve
  serve-IsIntact packet s w h long from e =
      process_idle-IsIntact int21 content net file stores small
        (handle_packet-IsIntact int21 content net file h (packet ++ rest) long (from rest)) fuel e
        (λ _.
          dos_write_file-full int21 handle opens fuel net sock.if_addr sock.session_id transfer_id
            packet rest _ _ _ _)

  -- One exchange of the client, as the server answers it.
  exchange :
      (waits kind : ℕ) (payload : List ℕ) (command offset : ℕ) (v : World W)
      (P : FileTransferState → Type 0)
      (a : Answered int21 handle opens fuel net sock.if_addr sock.session_id transfer_id
        (packet_buffer sock (some net.mac_addr) kind payload)
        rest
        command
        offset
        v.server
        v.disk
        P)
      → a.after.transfer_id ≡ transfer_id
      → a.after.client_mac ≡ sock.if_addr
      → a.after.session_id ≡ sock.session_id
      → offset < 2 ^ 32
      → command < 2 ^ 16
      → v.inbox ≡ []
      → send_with_ack
          (cable int21 fuel net rest)
          sock
          net.mac_addr
          transfer_id
          10
          (suc waits)
          kind
          payload
          command
          v
        ≡ some (
          some offset,
          record { server = a.after; disk = a.disk; inbox = [] },
          packet_buffer sock (some net.mac_addr) kind payload ∷ [],
        )
  exchange waits kind payload command offset v P a known client session fits what empty =
      let packet = packet_buffer sock (some net.mac_addr) kind payload in
      let ours =
        send_file_ack-accepted net sock transfer_id a.after known client session command offset
          id_fits session_fits what in
      let ok = send_file_ack-ok net sock transfer_id a.after known client session command offset in
      let at =
        send_file_ack-offset net sock transfer_id a.after known client session command offset
          fits in
      send_with_ack-answered int21 fuel net rest sock net.mac_addr transfer_id 9 waits kind payload
        command v a.after a.disk _ empty a.served ours ok
      ∙ ap (λ n. some (some n, record { server = a.after; disk = a.disk; inbox = [] }, packet ∷ []))
          at

  -- What a chunk does.
  record Stepped (waits offset n : ℕ) (v : World W) : Type 0 where
    after : World W
    packets : List (List ℕ)
    sent :
        send_with_ack
          (cable int21 fuel net rest)
          sock
          net.mac_addr
          transfer_id
          10
          (suc waits)
          PktType.file_put_data
          (be32 transfer_id ++ (be32 offset ++ (be16 n ++ take n (drop offset file))))
          AckCommand.chunk
          v
        ≡ some (some (offset + n), after, packets)
    waiting : Waiting (offset + n) after

  chunk-Stepped :
      (waits offset n : ℕ) (v : World W)
      → n ≡ min 512 (length file - offset)
      → offset ≤ length file
      → Waiting offset v
      → Stepped waits offset n v
  chunk-Stepped waits offset n v en within h =
      let bytes = take n (drop offset file) in
      let payload = be32 transfer_id ++ (be32 offset ++ (be16 n ++ bytes)) in
      let packet = packet_buffer sock (some net.mac_addr) PktType.file_put_data payload in
      let full : length bytes ≡ n =
        omega (arith, length-take n (drop offset file), length-drop offset file) in
      let from : FromClient sock.if_addr sock.session_id transfer_id PktType.file_put_data (10 + n)
          (packet ++ rest) =
        packet_buffer-FromClient net rest sock transfer_id PktType.file_put_data _ (10 + n)
          session_fits id_fits (omega (arith, full)) (omega arith) (omega arith) in
      let a =
        chunk-Answered int21 handle opens fuel net sock.if_addr sock.session_id transfer_id packet
          rest v.server v.disk (length file) offset n h.ready from
          (packet_buffer-word net rest sock transfer_id PktType.file_put_data offset _
            (omega arith))
          (packet_buffer-count net rest sock transfer_id PktType.file_put_data offset n bytes
            (omega arith))
          (omega arith) (omega arith) in
      record {
        after = record { server = a.after; disk = a.disk; inbox = [] };
        packets = packet ∷ [];
        sent =
            exchange waits PktType.file_put_data payload AckCommand.chunk (offset + n) v _ a
              a.state.transfer a.state.to_client a.state.in_session (omega arith) (omega arith)
              h.received;
        waiting = record {
          ready = a.state;
          intact =
              serve-IsIntact packet v.server v.disk h.intact
                (length-packet_buffer net rest sock transfer_id PktType.file_put_data payload room)
                (chunk-FromSender sock net.mac_addr transfer_id file small offset n _ refl en
                  within)
                a.served;
          received = refl;
        };
      }

  -- The loop has sent the rest of the file.
  record Looped (rounds waits offset : ℕ) (v : World W) : Type 0 where
    after : World W
    packets : List (List ℕ)
    looped :
        put_loop
          (cable int21 fuel net rest)
          sock
          net.mac_addr
          transfer_id
          rounds
          (suc waits)
          offset
          (drop offset file)
          v
        ≡ some (some (length file), after, packets)
    waiting : Waiting (length file) after

  put_loop-Looped :
      (rounds waits offset : ℕ) (v : World W)
      → length file - offset < rounds
      → offset ≤ length file
      → Waiting offset v
      → Looped rounds waits offset v
  unfolding put_loop
  put_loop-Looped zero waits offset v enough within h = absurd (omega arith)
  put_loop-Looped (suc rounds) waits offset v enough within h =
      let n = min 512 (length (drop offset file)) in
      let left = length-drop offset file in
      elim (Bool-cases (n == 0)) [
        | inl end ↦
            let all : offset ≡ length file = ground (arith, left) in
            record {
              after = v;
              packets = [];
              looped = rw (put_loop, end) (rw all refl);
              waiting = rw all at h;
            }
        | inr more ↦
            let some_left : 0 < n = ground arith in
            let st = chunk-Stepped waits offset n v (omega (arith, left)) within h in
            let r =
              put_loop-Looped rounds waits (offset + n) st.after (omega (arith, left))
                (omega (arith, left)) st.waiting in
            let right : (offset + n == offset + n) ≡ true = ground arith in
            let on : drop n (drop offset file) ≡ drop (offset + n) file = drop-drop n offset file in
            record {
              after = r.after;
              packets = st.packets ++ r.packets;
              looped = rw (put_loop, more, st.sent) (rw (right, on, r.looped) refl);
              waiting = r.waiting;
            }
      ]

  record Closed (waits : ℕ) (v : World W) : Type 0 where
    after : World W
    packets : List (List ℕ)
    ended :
        put_end
          (cable int21 fuel net rest)
          sock
          net.mac_addr
          transfer_id
          (suc waits)
          (length file)
          v
        ≡ some (true, after, packets)
    stored : content after.disk handle ≡ file

  put_end-Closed : (waits : ℕ) (v : World W) → Waiting (length file) v → Closed waits v
  unfolding put_end dos_close_file
  put_end-Closed waits v h =
      let payload = be32 transfer_id ++ be32 (length file) in
      let packet = packet_buffer sock (some net.mac_addr) PktType.file_put_end payload in
      let from : FromClient sock.if_addr sock.session_id transfer_id PktType.file_put_end 8
          (packet ++ rest) =
        packet_buffer-FromClient net rest sock transfer_id PktType.file_put_end _ 8 session_fits
          id_fits refl (omega arith) (omega arith) in
      let (a, closed) =
        end-Answered int21 handle opens fuel net sock.if_addr sock.session_id transfer_id packet
          rest v.server v.disk (length file) h.ready from
          (packet_buffer-word net rest sock transfer_id PktType.file_put_end (length file) []
            small) in
      let run =
        exchange waits PktType.file_put_end payload AckCommand.end (length file) v _ a
          a.state.transfer a.state.to_client a.state.in_session small (omega arith) h.received in
      let same : (length file == length file) ≡ true = ground arith in
      let kept = stores.closed v.disk (u16_of_int v.server.handle) handle in
      let whole : content v.disk handle ≡ file = ground (
        arith,
        h.ready.handle_ok,
        h.ready.expected,
        h.intact.written h.ready.active,
        take_all (length file) file,
      ) in
      record {
        after = record { server = a.after; disk = a.disk; inbox = [] };
        packets = packet ∷ [];
        ended = rw (put_end, run) (rw same refl);
        stored = rw closed (ground (arith, kept, whole));
      }

  record Begun (waits : ℕ) (remote_path : List ℕ) (v : World W) : Type 0 where
    after : World W
    packets : List (List ℕ)
    begun :
        send_with_ack
          (cable int21 fuel net rest)
          sock
          net.mac_addr
          transfer_id
          10
          (suc waits)
          PktType.file_put_begin
          (be32 transfer_id
            ++ (be32 (length file) ++ (remote_path ++ replicate (64 - length remote_path) 0)))
          AckCommand.begin
          v
        ≡ some (some 0, after, packets)
    waiting : Waiting 0 after

  put_begin-Begun :
      (waits : ℕ) (remote_path : List ℕ) (v : World W)
      → length remote_path ≤ 64
      → v.server.pending_op ≡ FileOp.no_op
      → IsIntact int21 content net file v.server v.disk
      → v.inbox ≡ []
      → Begun waits remote_path v
  put_begin-Begun waits remote_path v short idle intact empty =
      let name = remote_path ++ replicate (64 - length remote_path) 0 in
      let payload = be32 transfer_id ++ (be32 (length file) ++ name) in
      let packet = packet_buffer sock (some net.mac_addr) PktType.file_put_begin payload in
      let sized : length name ≡ 64 = omega (
        arith,
        length-append remote_path (replicate (64 - length remote_path) 0),
        length-replicate {A = ℕ} (64 - length remote_path) 0,
      ) in
      let from : FromClient sock.if_addr sock.session_id transfer_id PktType.file_put_begin 72
          (packet ++ rest) =
        packet_buffer-FromClient net rest sock transfer_id PktType.file_put_begin _ 72 session_fits
          id_fits (omega (arith, sized)) (omega arith) (omega arith) in
      let a0 =
        begin-Answered int21 handle opens fuel net sock.if_addr sock.session_id transfer_id packet
          rest v.server v.disk idle from in
      let told =
        packet_buffer-word net rest sock transfer_id PktType.file_put_begin (length file) name
          small in
      let ready : Ready sock.if_addr sock.session_id transfer_id handle (length file) 0 a0.after =
        rw told at a0.state in
      record {
        after = record { server = a0.after; disk = a0.disk; inbox = [] };
        packets = packet ∷ [];
        begun =
            exchange waits PktType.file_put_begin payload AckCommand.begin 0 v _ a0 ready.transfer
              ready.to_client ready.in_session (omega arith) (omega arith) empty;
        waiting = record {
          ready = ready;
          intact =
              serve-IsIntact packet v.server v.disk intact
                (length-packet_buffer net rest sock transfer_id PktType.file_put_begin payload room)
                (begin-FromSender sock net.mac_addr transfer_id file small name) a0.served;
          received = refl;
        };
      }

  put_body-runs :
      (waits : ℕ) (local : LocalFile) (v : World W) (l : Looped (suc (length file)) waits 0 v)
      (e : Closed waits l.after)
      → local.readable ≡ file
      → local.ferror ≡ false
      → put_body
          (cable int21 fuel net rest)
          sock
          net.mac_addr
          transfer_id
          (suc waits)
          local
          (length file)
          v
        ≡ some (true, e.after, l.packets ++ e.packets)
  unfolding put_body
  put_body-runs waits local v l e whole noerror =
      rw whole (rw (put_body, l.looped) (rw (noerror, e.ended) refl))

  put_file-runs :
      (waits : ℕ) (local : LocalFile) (remote_path : List ℕ) (v : World W)
      (b : Begun waits remote_path v) (l : Looped (suc (length file)) waits 0 b.after)
      (e : Closed waits l.after)
      → local.readable ≡ file
      → local.ferror ≡ false
      → put_file
          (cable int21 fuel net rest)
          sock
          net.mac_addr
          transfer_id
          (suc waits)
          local
          (length file)
          remote_path
          v
        ≡ some (true, e.after, b.packets ++ (l.packets ++ e.packets))
  unfolding put_file
  put_file-runs waits local remote_path v b l e whole noerror =
      rw (put_file, b.begun) (rw (put_body-runs waits local b.after l e whole noerror) refl)

  idle-IsIntact :
      (v : World W)
      → IsValid v.server
      → v.server.pending_op ≡ FileOp.no_op
      → v.server.active ≡ false
      → IsIntact int21 content net file v.server v.disk
  idle-IsIntact v valid idle quiet = ground (arith, valid, idle, quiet)

  -- A client that uploads a file to an idle server, over a cable on which nothing is lost and
  -- with DOS idle once after each packet, is told that the upload succeeded, and then the file
  -- behind the handle is exactly the local file, whatever its size below 2 ^ 32. The remote name
  -- is valid, the local file can be read, the ids have 32 bits, the receive buffer is long
  -- enough, DOS opens the file as that handle and accepts every write, and it keeps its promises
  -- of create, write and close.
  pub file_transfer_put-Delivered :
      (waits : ℕ) (local : LocalFile) (remote_path : List ℕ) (v : World W)
      → local.st_size ≡ some (length file)
      → local.opens ≡ true
      → local.readable ≡ file
      → local.ferror ≡ false
      → validate_remote_name remote_path ≡ true
      → IsValid v.server
      → v.server.pending_op ≡ FileOp.no_op
      → v.server.active ≡ false
      → v.inbox ≡ []
      → (after : World W) × (packets : List (List ℕ)) × (file_transfer_put
            (cable int21 fuel net rest)
            sock
            net.mac_addr
            transfer_id
            (suc waits)
            local
            remote_path
            v
          ≡ some (true, after, packets))
        × (content after.disk handle ≡ file)
  unfolding file_transfer_put
  file_transfer_put-Delivered waits local remote_path v size opened whole noerror name valid idle
        quiet empty =
      let intact = idle-IsIntact v valid idle quiet in
      let short = length-le_of_valid remote_path name in
      let b = put_begin-Begun waits remote_path v short idle intact empty in
      let l =
        put_loop-Looped (suc (length file)) waits 0 b.after (omega arith) (omega arith) b.waiting in
      let e = put_end-Closed waits l.after l.waiting in
      let body = put_file-runs waits local remote_path v b l e whole noerror in
      let fits : (leb (2 ^ 32) (length file) || not local.opens) ≡ false = ground (arith, opened) in
      (e.after, b.packets ++ (l.packets ++ e.packets), rw name (rw size (rw fits body)), e.stored)
