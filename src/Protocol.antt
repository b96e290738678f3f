-- ===== src/Protocol.antt =====
-- The packet handlers and the main loop of tools/cga-web/src/server/protocol.c.
pub mod Drain
pub mod Replies
pub mod Safety
use rmtdos_utils.Prelude.{
  ℕ, zero, suc, ◌+◌, ◌-◌, ◌*◌, ◌/◌, ◌%◌, Bool, true, false, Option, none, some, List, [], ◌∷◌, ◌++◌,
  ◌||◌, ◌&&◌, ◌==◌, ltb, leb, if◌then◌else◌, min, take, drop, overlay, replicate, byte, get_be16,
  get_be32,
}
use rmtdos_utils.Wire.{
  Mac, get_mac, frame, packet_signature, combined_header_len, max_payload_length,
}
use rmtdos_utils.Wire.PktType
use rmtdos_utils.BufMgr.{BufMgr, buffer_get_ready, buffer_release}
use rmtdos_utils.FileTransfer.State.{FileTransferState}
use rmtdos_utils.FileTransfer.Send.{Net}
use rmtdos_utils.FileTransfer.Receive.{file_transfer_handle_packet, payload_len_of, pkt_type_of}
use rmtdos_utils.Session.{Session, session_mgr_start}
use rmtdos_utils.Session.Video.{VideoState}

-- The arguments of `x86_inject_keystroke`.
pub record Keystroke : Type 0 where
  pub bios_scan_code : ℕ
  pub ascii_value : ℕ
  pub flags_17 : ℕ

-- What the handlers change: the two components' globals, the keystrokes that were injected and the
-- frames that `pktdrv_send` was given, the last ones first.
pub record Served : Type 0 where
  pub file : FileTransferState
  pub sessions : List Session
  pub keys : List Keystroke
  pub sent : List (List ℕ)

pub record Server : Type 0 where
  pub buffers : BufMgr
  pub served : Served

-- What the handlers read while buffer `p` is handled: the tick clock, the state of the screen, and
-- the memory that follows the buffer.
pub record Env : Type 0 where
  pub net : Net
  pub now : ℕ → ℕ
  pub video : ℕ → VideoState
  pub beyond : ℕ → List ℕ

-- `g_send_buffer` after `prep_for_reply`, with the type, the length and the payload that the
-- handler writes; what the payload does not cover is zero.
unfoldable pub prep_for_reply : Net → List ℕ → ℕ → ℕ → List ℕ → List ℕ
prep_for_reply net packet pkt_type payload_len payload =
    frame (get_mac packet 6) net.mac_addr net.ethertype (get_be32 packet 18) payload_len pkt_type
      (overlay payload (replicate max_payload_length 0))

unfoldable pub handle_ping : Net → ℕ → List ℕ → List ℕ
unfolding prep_for_reply
handle_ping net bytes packet =
    let payload_len = min max_payload_length (payload_len_of packet) in
    take bytes (
      prep_for_reply net packet PktType.pong payload_len
        (take payload_len (drop combined_header_len packet)))

abbrev pub status_bytes : VideoState → List ℕ
status_bytes v =
    v.video_mode ∷ v.active_page ∷ v.text_rows ∷ v.text_cols ∷ v.cursor_row ∷ v.cursor_col ∷ []

unfoldable pub handle_status_req : Net → VideoState → List ℕ → List ℕ
unfolding prep_for_reply
handle_status_req net video packet =
    take (combined_header_len + 6)
      (prep_for_reply net packet PktType.status_resp 6 (status_bytes video))

-- The loop of `handle_inject_keystroke`: `struct Keystroke` has four bytes, the flags with the lower
-- one first, and `x86_inject_keystroke` takes only that one.
unfoldable pub read_keys : ℕ → List ℕ → List Keystroke
read_keys zero xs = []
read_keys (suc n) xs =
    record { bios_scan_code = byte xs 0; ascii_value = byte xs 1; flags_17 = byte xs 2 }
    ∷ read_keys n (drop 4 xs)

unfoldable pub handle_inject_keystroke : List ℕ → List Keystroke
handle_inject_keystroke packet =
    read_keys (payload_len_of packet / 4) (drop combined_header_len packet)

-- `V1_FILE_PUT_BEGIN` to `V1_FILE_COPY`, of the server's receiving side.
unfoldable pub is_file_request : ℕ → Bool
is_file_request kind =
    (kind == PktType.file_put_begin)
    || ((kind == PktType.file_put_data)
        || ((kind == PktType.file_put_end)
            || ((kind == PktType.file_get_begin)
                || ((kind == PktType.file_get_data_req)
                    || ((kind == PktType.file_get_end)
                        || ((kind == PktType.dir_list_begin)
                            || ((kind == PktType.dir_list_data_req)
                                || ((kind == PktType.dir_list_end)
                                    || ((kind == PktType.file_mkdir)
                                        || ((kind == PktType.file_delete)
                                            || ((kind == PktType.file_rename)
                                                || (kind == PktType.file_copy))))))))))))

-- The `switch` of `protocol_process`, for the buffer `p` with its `bytes`.
unfoldable pub handle_packet : Env → ℕ → ℕ → List ℕ → ℕ → Served → Served
handle_packet env p bytes packet kind s =
    if kind == PktType.ping
    then record s { sent = handle_ping env.net bytes packet ∷ s.sent }
    else if kind == PktType.status_req
    then record s { sent = handle_status_req env.net (env.video p) packet ∷ s.sent }
    else if kind == PktType.session_start
    then record s { sessions = (session_mgr_start (env.now p) packet s.sessions).1 }
    else if kind == PktType.inject_keystroke
    then record s { keys = s.keys ++ handle_inject_keystroke packet }
    else if is_file_request kind
    then record s { file = file_transfer_handle_packet packet s.file }
    else s

-- The body of the loop, up to the release: packets without the signature are not for us.
unfoldable pub handle_buffer : Env → ℕ → ℕ → List ℕ → Served → Served
unfolding handle_packet
handle_buffer env p bytes contents s =
    let packet = contents ++ env.beyond p in
    if get_be32 packet 14 == packet_signature
    then handle_packet env p bytes packet (pkt_type_of packet) s
    else s

-- `protocol_process`: none if `fuel` does not suffice.
unfoldable pub protocol_process : ℕ → Env → Server → Option Server
protocol_process zero env s = none
protocol_process (suc fuel) env s =
    let (found, m) = buffer_get_ready s.buffers in
    elim found [
      | none ↦ some s
      | some p ↦ protocol_process fuel env (record {
        buffers = buffer_release p m;
        served = handle_buffer env p (m.buffers p).bytes (m.buffers p).contents s.served;
      })
    ]
