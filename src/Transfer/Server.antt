-- ===== src/Transfer/Server.antt =====
-- The server's side of an upload: each packet of the client, when the server waits for it, is
-- answered at once.
use rmtdos_utils.Prelude.{
  ltb, not, ◌||◌, overlay, ℕ, ◌+◌, ◌^◌, ◌<◌, ◌≤◌, ◌≡◌, refl, true, false, some, List, [], ◌∷◌, ◌++◌,
  arith, get_be16, get_be32, drop, u16_of_int, u32, ◌==◌, ◌∙◌, ℤ, take,
}
use rmtdos_utils.Wire.{Mac, get_mac}
use rmtdos_utils.Wire.PktType
use rmtdos_utils.Wire.AckCommand
use rmtdos_utils.Wire.AckStatus
use rmtdos_utils.FileTransfer.State.{FileTransferState, FileOp, mode_put, is_pending}
use rmtdos_utils.FileTransfer.Dos.{
  Int21, create, write, dos_create_file, dos_write_file, dos_close_file,
}
use rmtdos_utils.FileTransfer.Send.{Net, send_file_ack}
use rmtdos_utils.FileTransfer.Receive.{
  remember_client, file_transfer_handle_packet, dispatch, handle_put_begin, handle_put_data,
  handle_put_end, pkt_type_of, payload_len_of,
}
use rmtdos_utils.FileTransfer.Idle.{
  file_transfer_process_idle, process_op, acknowledge, idle_put_begin, idle_put_data, idle_put_end,
  close_active,
}
use rmtdos_utils.Transfer.{serve}

-- DOS opens the file as `handle` and has room for every write.
pub record Accepts {W : Type 0} (int21 : Int21 W) (handle : ℕ) : Type 0 where
  pub small : handle < 2 ^ 15
  pub creates :
      (w : W) (path : List ℕ)
      → ((int21 w (create 0 path)).1.carry ≡ false) × ((int21 w (create 0 path)).1.ax ≡ handle)
  pub writes :
      (w : W) (h count : ℕ) (bytes : List ℕ)
      → ((int21 w (write h count bytes)).1.carry ≡ false)
        × ((int21 w (write h count bytes)).1.ax ≡ count)

-- The headers and the transfer's id in a packet of the client.
pub record FromClient (client : Mac) (session_id transfer_id kind payload_len : ℕ) (packet : List ℕ)
    : Type 0 where
  pub sender : get_mac packet 6 ≡ client
  pub session : get_be32 packet 18 ≡ session_id
  pub sized : payload_len_of packet ≡ payload_len
  pub kind_ok : pkt_type_of packet ≡ kind
  pub transfer : get_be32 packet 26 ≡ transfer_id

-- The server has received `offset` of the `size` bytes, and waits.
pub record Ready (client : Mac) (session_id transfer_id handle size offset : ℕ)
    (s : FileTransferState) : Type 0 where
  pub idle : s.pending_op ≡ FileOp.no_op
  pub active : s.active ≡ true
  pub mode : s.mode ≡ mode_put
  pub transfer : s.transfer_id ≡ transfer_id
  pub to_client : s.client_mac ≡ client
  pub in_session : s.session_id ≡ session_id
  pub handle_ok : u16_of_int s.handle ≡ handle
  pub size_ok : s.size ≡ size
  pub expected : s.expected_offset ≡ offset

module _ {W : Type 0} (int21 : Int21 W) (handle : ℕ) (dos : Accepts int21 handle) (fuel : ℕ)
    (net : Net) (client : Mac) (session_id transfer_id : ℕ) (packet rest : List ℕ) where
  -- What of a packet the state keeps for the answer.
  record Noted (s : FileTransferState) : Type 0 where
    clear : s.pending_op ≡ FileOp.no_op
    noted_transfer : s.transfer_id ≡ transfer_id
    noted_client : s.client_mac ≡ client
    noted_session : s.session_id ≡ session_id

  begin-Noted :
      (s : FileTransferState)
      → FromClient client session_id transfer_id PktType.file_put_begin 72 (packet ++ rest)
      → Noted (record (handle_put_begin (packet ++ rest) s) { pending_op = FileOp.no_op })
        × ((handle_put_begin (packet ++ rest) s).size ≡ get_be32 (packet ++ rest) 30)
        × ((handle_put_begin (packet ++ rest) s).pending_op ≡ FileOp.put_begin)
  unfolding handle_put_begin
  begin-Noted s p = ground (arith, p.sized, p.transfer, p.sender, p.session)

  begin-Ready :
      (s : FileTransferState) (w : W) (size : ℕ)
      → Noted s
      → s.size ≡ size
      → ((idle_put_begin int21 s w).2 ≡ AckCommand.begin)
        × ((idle_put_begin int21 s w).3 ≡ AckStatus.ok)
        × Ready client session_id transfer_id handle size 0 (idle_put_begin int21 s w).0
  unfolding idle_put_begin dos_create_file
  begin-Ready s w size n sized = ground (
    arith,
    dos.small,
    dos.creates (close_active int21 s w) s.filename,
    n.clear,
    n.noted_transfer,
    n.noted_client,
    n.noted_session,
  )

  -- The answer: an acknowledgement, and the state after it.
  pub record Answered (command offset : ℕ) (s : FileTransferState) (w : W)
      (P : FileTransferState → Type 0) : Type 0 where
    pub after : FileTransferState
    pub disk : W
    pub served :
        serve int21 fuel net rest packet s w
        ≡ some (after, disk, send_file_ack net after command AckStatus.ok offset ∷ [])
    pub state : P after

  pub begin-Answered :
      (s : FileTransferState) (w : W)
      → s.pending_op ≡ FileOp.no_op
      → FromClient client session_id transfer_id PktType.file_put_begin 72 (packet ++ rest)
      → Answered AckCommand.begin 0 s w
          (Ready client session_id transfer_id handle (get_be32 (packet ++ rest) 30) 0)
  unfolding serve
  begin-Answered s w idle p =
      let f = packet ++ rest in
      let e : file_transfer_handle_packet f s ≡ handle_put_begin f s =
        unfold file_transfer_handle_packet dispatch in rw (idle, p.kind_ok) refl in
      let s1 = record (handle_put_begin f s) { pending_op = FileOp.no_op } in
      let (noted, size, waits) = begin-Noted s p in
      let a = idle_put_begin int21 s1 w in
      let (command, status, ready) = begin-Ready s1 w (get_be32 f 30) noted size in
      let run : file_transfer_process_idle int21 fuel net (handle_put_begin f s) w
          ≡ some (a.0, a.1, send_file_ack net a.0 a.2 a.3 a.0.expected_offset ∷ []) =
        unfold file_transfer_process_idle process_op acknowledge in rw waits refl in
      record {
        after = a.0;
        disk = a.1;
        served = unfold serve in rw e (run ∙ rw (command, status, ready.expected) refl);
        state = ready;
      }

  pub dos_write_file-full :
      (h : ℤ) (chunk : List ℕ) (count : ℕ) (w : W) → (dos_write_file int21 h chunk count w).0 ≡ true
  unfolding dos_write_file
  dos_write_file-full h chunk count w =
      let ok = dos.writes w (u16_of_int h) count (take count chunk) in ground (arith, ok)

  -- What a packet with a chunk makes of a state that waits for it.
  record Chunked (offset n : ℕ) (s : FileTransferState) : Type 0 where
    waits : s.pending_op ≡ FileOp.put_data
    chunk_at : s.chunk_offset ≡ offset
    chunk_size : s.chunk_count ≡ n

  noted_chunk : ℕ → ℕ → FileTransferState → FileTransferState
  unfolding remember_client
  noted_chunk offset n s = record (remember_client (packet ++ rest) s) {
    chunk_offset = offset;
    chunk_count = n;
    chunk = overlay (take n (drop 36 (packet ++ rest))) s.chunk;
    pending_op = FileOp.put_data;
  }

  handle_put_data-accepted :
      (s : FileTransferState) (size offset n : ℕ)
      → Ready client session_id transfer_id handle size offset s
      → FromClient client session_id transfer_id PktType.file_put_data (10 + n) (packet ++ rest)
      → get_be32 (packet ++ rest) 30 ≡ offset
      → get_be16 (packet ++ rest) 34 ≡ n
      → n ≤ 512
      → handle_put_data (packet ++ rest) s ≡ noted_chunk offset n s
  unfolding handle_put_data noted_chunk
  handle_put_data-accepted s size offset n r p at count room =
      let f = packet ++ rest in
      let long : ltb (payload_len_of f) 10 ≡ false = ground (arith, p.sized) in
      let ours : (not s.active
            || (not (s.mode == mode_put) || not (get_be32 f 26 == s.transfer_id)))
          ≡ false =
        ground (arith, p.transfer, r.active, r.mode, r.transfer) in
      let next : not (get_be32 f 30 == s.expected_offset) ≡ false =
        ground (arith, r.expected, at) in
      let fits : (ltb 512 (get_be16 f 34) || ltb (payload_len_of f) (10 + get_be16 f 34)) ≡ false =
        ground (arith, p.sized, count) in
      rw (handle_put_data, long, ours, next, fits) (rw (at, count) refl)

  noted_chunk-Ready :
      (s : FileTransferState) (size offset n : ℕ)
      → Ready client session_id transfer_id handle size offset s
      → FromClient client session_id transfer_id PktType.file_put_data (10 + n) (packet ++ rest)
      → Ready client session_id transfer_id handle size offset
          (record (noted_chunk offset n s) { pending_op = FileOp.no_op })
  unfolding noted_chunk
  noted_chunk-Ready s size offset n r p = record {
    idle = refl;
    active = r.active;
    mode = r.mode;
    transfer = r.transfer;
    to_client = p.sender;
    in_session = p.session;
    handle_ok = r.handle_ok;
    size_ok = r.size_ok;
    expected = r.expected;
  }

  idle_put_data-Ready :
      (s : FileTransferState) (w : W) (size offset n : ℕ)
      → Ready client session_id transfer_id handle size offset s
      → s.chunk_offset ≡ offset
      → s.chunk_count ≡ n
      → offset + n < 2 ^ 32
      → ((idle_put_data int21 s w).2 ≡ AckCommand.chunk)
        × ((idle_put_data int21 s w).3 ≡ AckStatus.ok)
        × Ready client session_id transfer_id handle size (offset + n) (idle_put_data int21 s w).0
  unfolding idle_put_data
  idle_put_data-Ready s w size offset n r at count small =
      let written = dos_write_file-full s.handle s.chunk s.chunk_count w in
      let same : not (s.chunk_offset == s.expected_offset) ≡ false = ground (arith, r.expected) in
      let sum : u32 (s.expected_offset + s.chunk_count) ≡ offset + n = omega (arith, r.expected) in
      rw (idle_put_data, same, written)
        (
          refl,
          refl,
          record {
            idle = r.idle;
            active = r.active;
            mode = r.mode;
            transfer = r.transfer;
            to_client = r.to_client;
            in_session = r.in_session;
            handle_ok = r.handle_ok;
            size_ok = r.size_ok;
            expected = sum;
          },
        )

  pub chunk-Answered :
      (s : FileTransferState) (w : W) (size offset n : ℕ)
      → Ready client session_id transfer_id handle size offset s
      → FromClient client session_id transfer_id PktType.file_put_data (10 + n) (packet ++ rest)
      → get_be32 (packet ++ rest) 30 ≡ offset
      → get_be16 (packet ++ rest) 34 ≡ n
      → n ≤ 512
      → offset + n < 2 ^ 32
      → Answered AckCommand.chunk
          (offset + n)
          s
          w
          (Ready client session_id transfer_id handle size (offset + n))
  unfolding noted_chunk
  chunk-Answered s w size offset n r p at count room small =
      let f = packet ++ rest in
      let ready : is_pending s.pending_op ≡ false = rw r.idle refl in
      let e : file_transfer_handle_packet f s ≡ noted_chunk offset n s =
        unfold file_transfer_handle_packet dispatch in
        rw (ready, p.kind_ok) (handle_put_data-accepted s size offset n r p at count room) in
      let s1 = record (noted_chunk offset n s) { pending_op = FileOp.no_op } in
      let a = idle_put_data int21 s1 w in
      let (command, status, after) =
        idle_put_data-Ready s1 w size offset n (noted_chunk-Ready s size offset n r p) refl refl
          small in
      let run : file_transfer_process_idle int21 fuel net (noted_chunk offset n s) w
          ≡ some (a.0, a.1, send_file_ack net a.0 a.2 a.3 a.0.expected_offset ∷ []) =
        unfold file_transfer_process_idle process_op acknowledge in refl in
      record {
        after = a.0;
        disk = a.1;
        served = unfold serve in rw e (run ∙ rw (command, status, after.expected) refl);
        state = after;
      }

  handle_put_end-accepted :
      (s : FileTransferState) (size : ℕ)
      → Ready client session_id transfer_id handle size size s
      → FromClient client session_id transfer_id PktType.file_put_end 8 (packet ++ rest)
      → get_be32 (packet ++ rest) 30 ≡ size
      → handle_put_end (packet ++ rest) s
        ≡ record s { client_mac = client; session_id = session_id; pending_op = FileOp.put_end }
  unfolding handle_put_end remember_client
  handle_put_end-accepted s size r p sized =
      let f = packet ++ rest in
      let long : ltb (payload_len_of f) 8 ≡ false = ground (arith, p.sized) in
      let ours : (not s.active
            || (not (s.mode == mode_put)
                || (not (get_be32 f 26 == s.transfer_id) || not (get_be32 f 30 == s.size))))
          ≡ false =
        ground (arith, p.transfer, r.active, r.mode, r.transfer, r.size_ok) in
      rw (handle_put_end, long, ours) (rw (p.sender, p.session) refl)

  -- The state after the end, which the acknowledgement is sent from.
  pub record Ended (s : FileTransferState) : Type 0 where
    pub idle : s.pending_op ≡ FileOp.no_op
    pub transfer : s.transfer_id ≡ transfer_id
    pub to_client : s.client_mac ≡ client
    pub in_session : s.session_id ≡ session_id

  pub end-Answered :
      (s : FileTransferState) (w : W) (size : ℕ)
      → Ready client session_id transfer_id handle size size s
      → FromClient client session_id transfer_id PktType.file_put_end 8 (packet ++ rest)
      → get_be32 (packet ++ rest) 30 ≡ size
      → (a : Answered AckCommand.end size s w Ended) × (a.disk ≡ dos_close_file int21 s.handle w)
  unfolding idle_put_end
  end-Answered s w size r p sized =
      let f = packet ++ rest in
      let ready : is_pending s.pending_op ≡ false = rw r.idle refl in
      let e : file_transfer_handle_packet f s
          ≡ record s { client_mac = client; session_id = session_id; pending_op = FileOp.put_end } =
        unfold file_transfer_handle_packet dispatch in
        rw (ready, p.kind_ok) (handle_put_end-accepted s size r p sized) in
      let s1 = record s {
        client_mac = client;
        session_id = session_id;
        pending_op = FileOp.no_op;
      } in
      let a = idle_put_end int21 s1 w in
      let status : a.3 ≡ AckStatus.ok = ground (arith, r.expected, r.size_ok) in
      let run : file_transfer_process_idle int21 fuel net
            (record s { client_mac = client; session_id = session_id; pending_op = FileOp.put_end })
            w
          ≡ some (a.0, a.1, send_file_ack net a.0 a.2 a.3 a.0.expected_offset ∷ []) =
        unfold file_transfer_process_idle process_op acknowledge in refl in
      (
        record {
          after = a.0;
          disk = a.1;
          served = unfold serve in rw e (run ∙ rw (status, r.expected) refl);
          state = record {
            idle = refl;
            transfer = r.transfer;
            to_client = refl;
            in_session = refl;
          };
        },
        refl,
      )
