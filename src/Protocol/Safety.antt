-- ===== src/Protocol/Safety.antt =====
-- Serving a list of buffers with any contents: the state of the file transfer, the table of sessions,
-- and the buffers of other protocols.
use rmtdos_utils.Prelude.{
  ℕ, zero, suc, ◌<◌, false, get_or, Bool-cases, if◌then◌else◌, ◌≤◌, ◌≡◌, refl, List, [], ◌∷◌, ◌++◌,
  arith, length, length-append, get_be32, ◌==◌, if_intro, Option-cases, ◌∙◌, inl, inr,
}
use rmtdos_utils.BufMgr.{Buffer, buffer_max_size}
use rmtdos_utils.Wire.{packet_signature}
use rmtdos_utils.Wire.PktType
use rmtdos_utils.FileTransfer.Receive.{file_transfer_handle_packet, pkt_type_of}
use rmtdos_utils.Session.{Session, session_mgr_start}
use rmtdos_utils.Session.Unique.{HasUnique, session_mgr_start-HasUnique}
use rmtdos_utils.Session.Table.{session_mgr_start-Started, session_mgr_start-none}
use rmtdos_utils.FileTransfer.State.{FileTransferState}
use rmtdos_utils.FileTransfer.Invariant.{IsValid}
use rmtdos_utils.FileTransfer.Invariant.Receive.{file_transfer_handle_packet-IsValid}
use rmtdos_utils.Protocol.{
  Keystroke, Served, Env, handle_packet, handle_buffer, handle_ping, handle_status_req,
  handle_inject_keystroke, is_file_request,
}
use rmtdos_utils.Protocol.Drain.{serve_all}

pub record IsSound (slots : ℕ) (s : Served) : Type 0 where
  pub file_valid : IsValid s.file
  pub table_size : length s.sessions ≡ slots
  pub no_double : HasUnique s.sessions

session_mgr_start-length :
    (now : ℕ) (frame : List ℕ) (ss : List Session)
    → length (session_mgr_start now frame ss).1 ≡ length ss
session_mgr_start-length now frame ss = elim (Option-cases (session_mgr_start now frame ss).0) [
  | inl e ↦ rw ((session_mgr_start-none now frame ss e).0) refl
  | inr (i, e) ↦ (session_mgr_start-Started now frame ss i e).same_size
]

module _ {slots : ℕ} {s : Served} where
  sent-IsSound : (sent : List (List ℕ)) → IsSound slots s → IsSound slots (record s { sent = sent })
  sent-IsSound sent v = record {
    file_valid = v.file_valid;
    table_size = v.table_size;
    no_double = v.no_double;
  }

  keys-IsSound :
      (keys : List Keystroke) → IsSound slots s → IsSound slots (record s { keys = keys })
  keys-IsSound keys v = record {
    file_valid = v.file_valid;
    table_size = v.table_size;
    no_double = v.no_double;
  }

  sessions-IsSound :
      (sessions : List Session)
      → length sessions ≡ length s.sessions
      → HasUnique sessions
      → IsSound slots s
      → IsSound slots (record s { sessions = sessions })
  sessions-IsSound sessions e u v = record {
    file_valid = v.file_valid;
    table_size = e ∙ v.table_size;
    no_double = u;
  }

  file-IsSound :
      (file : FileTransferState)
      → IsValid file
      → IsSound slots s
      → IsSound slots (record s { file = file })
  file-IsSound file h v = record {
    file_valid = h;
    table_size = v.table_size;
    no_double = v.no_double;
  }

handle_packet-IsSound :
    (env : Env) (p bytes slots : ℕ) (packet : List ℕ) (kind : ℕ) (s : Served)
    → 158 ≤ length packet
    → IsSound slots s
    → IsSound slots (handle_packet env p bytes packet kind s)
unfolding handle_packet
handle_packet-IsSound env p bytes slots packet kind s room v =
    let P : Served → Type 0 = IsSound slots in
    if_intro P (kind == PktType.ping) (sent-IsSound (handle_ping env.net bytes packet ∷ s.sent) v) (
      if_intro P (kind == PktType.status_req)
        (sent-IsSound (handle_status_req env.net (env.video p) packet ∷ s.sent) v)
        (if_intro P (kind == PktType.session_start)
          (sessions-IsSound (session_mgr_start (env.now p) packet s.sessions).1
            (session_mgr_start-length (env.now p) packet s.sessions)
            (session_mgr_start-HasUnique (env.now p) packet s.sessions v.no_double) v)
          (if_intro P (kind == PktType.inject_keystroke)
            (keys-IsSound (s.keys ++ handle_inject_keystroke packet) v)
            (if_intro P (is_file_request kind)
              (file-IsSound (file_transfer_handle_packet packet s.file)
                (file_transfer_handle_packet-IsValid packet room v.file_valid) v)
              v))))

handle_buffer-IsSound :
    (env : Env) (p bytes slots : ℕ) (contents : List ℕ) (s : Served)
    → length contents ≡ buffer_max_size
    → IsSound slots s
    → IsSound slots (handle_buffer env p bytes contents s)
unfolding handle_buffer
handle_buffer-IsSound env p bytes slots contents s size v =
    let packet = contents ++ env.beyond p in
    if_intro (IsSound slots) (get_be32 packet 14 == packet_signature)
      (handle_packet-IsSound env p bytes slots packet (pkt_type_of packet) s
        (omega (arith, length-append contents (env.beyond p))) v)
      v

serve_all-kept :
    (env : Env) (buffers : ℕ → Buffer) (slots : ℕ) (ps : List ℕ) (s : Served)
    → ((p : ℕ) → length (buffers p).contents ≡ buffer_max_size)
    → IsSound slots s
    → IsSound slots (serve_all env buffers ps s)
unfolding serve_all
serve_all-kept env buffers slots [] s size v = v
serve_all-kept env buffers slots (p ∷ ps) s size v =
    let b = buffers p in
    serve_all-kept env buffers slots ps _ size
      (handle_buffer-IsSound env p b.bytes slots b.contents s (size p) v)

-- The buffers whose frames begin a header with the protocol's signature.
unfoldable pub signed : (ℕ → Buffer) → List ℕ → List ℕ
signed buffers [] = []
signed buffers (p ∷ ps) =
    let rest = signed buffers ps in
    if get_be32 (buffers p).contents 14 == packet_signature then p ∷ rest else rest

get_or-append : (xs ys : List ℕ) (i : ℕ) → i < length xs → get_or (xs ++ ys) i 0 ≡ get_or xs i 0
get_or-append [] ys i h = absurd (omega arith)
get_or-append (x ∷ xs) ys zero h = refl
get_or-append (x ∷ xs) ys (suc i) h = get_or-append xs ys i (omega arith)

signature-append : (xs ys : List ℕ) → 18 ≤ length xs → get_be32 (xs ++ ys) 14 ≡ get_be32 xs 14
signature-append xs ys h =
    rw
      (
        get_or-append xs ys 14 (omega arith),
        get_or-append xs ys 15 (omega arith),
        get_or-append xs ys 16 (omega arith),
        get_or-append xs ys 17 (omega arith),
      )
      refl

handle_buffer-foreign :
    (env : Env) (p bytes : ℕ) (contents : List ℕ) (s : Served)
    → length contents ≡ buffer_max_size
    → (get_be32 contents 14 == packet_signature) ≡ false
    → handle_buffer env p bytes contents s ≡ s
unfolding handle_buffer
handle_buffer-foreign env p bytes contents s size foreign =
    rw (handle_buffer, signature-append contents (env.beyond p) (omega (arith, size)), foreign) refl

serve_all-signed :
    (env : Env) (buffers : ℕ → Buffer) (ps : List ℕ) (s : Served)
    → ((p : ℕ) → length (buffers p).contents ≡ buffer_max_size)
    → serve_all env buffers ps s ≡ serve_all env buffers (signed buffers ps) s
unfolding serve_all signed
serve_all-signed env buffers [] s size = refl
serve_all-signed env buffers (p ∷ ps) s size =
    let b = buffers p in
    elim (Bool-cases (get_be32 b.contents 14 == packet_signature)) [
      | inl ours ↦ rw ours (serve_all-signed env buffers ps _ size)
      | inr foreign ↦
          let same = handle_buffer-foreign env p b.bytes b.contents s (size p) foreign in
          rw (same, foreign) (serve_all-signed env buffers ps s size)
    ]

-- Serving any list of buffers, with any bytes in them, keeps the state of the file transfer well
-- formed and the table of sessions as long as it is, with one slot at most for each client and
-- session id; and the buffers without the protocol's signature count for nothing, wherever they
-- stand between the others. Every buffer has its full size.
pub serve_all-IsSound :
    (env : Env) (buffers : ℕ → Buffer) (slots : ℕ) (ps : List ℕ) (s : Served)
    → ((p : ℕ) → length (buffers p).contents ≡ buffer_max_size)
    → IsSound slots s
    → IsSound slots (serve_all env buffers ps s)
      × (serve_all env buffers ps s ≡ serve_all env buffers (signed buffers ps) s)
serve_all-IsSound env buffers slots ps s size v =
    (serve_all-kept env buffers slots ps s size v, serve_all-signed env buffers ps s size)
