-- ===== src/Session/Video.antt =====
-- `session_mgr_update_all` and `session_mgr_send_cga_graphics` of server/session.c: what of the
-- screen is sent, and to whom. The frame buffer, its checksum and the state of the screen are read
-- by assembly routines (lib16/video.s, lib16/vga.s): they are parameters.
pub mod Progress
pub mod Pruned
pub mod Text
pub mod Unchanged
use rmtdos_utils.Prelude.{
  ℕ, ◌+◌, ◌-◌, ◌*◌, ◌/◌, ◌%◌, Bool, true, false, List, [], ◌∷◌, ◌++◌, ◌||◌, ◌&&◌, ◌==◌, ltb, leb,
  if◌then◌else◌, be16, u16,
}
use rmtdos_utils.Wire.{frame}
use rmtdos_utils.Wire.PktType
use rmtdos_utils.FileTransfer.Send.{Net}
use rmtdos_utils.Session.{Session, is_unused, prune}

pub record VideoState : Type 0 where
  pub video_mode : ℕ
  pub active_page : ℕ
  pub text_rows : ℕ
  pub text_cols : ℕ
  pub cursor_row : ℕ
  pub cursor_col : ℕ

-- The screen: its state, the checksum of `words` words from an offset, and their bytes.
pub record Screen : Type 0 where
  pub state : VideoState
  pub checksum : ℕ → ℕ → ℕ
  pub copy : ℕ → ℕ → List ℕ

-- The globals of session.c beside the table.
pub record Cursor : Type 0 where
  pub video_next_row : ℕ
  pub video_chksum : ℕ
  pub cga_next_offset : ℕ
  pub cga_graphics_chksum : ℕ

abbrev pub cga_graphics_frame_bytes : ℕ
cga_graphics_frame_bytes = 16000

abbrev pub video_word : ℕ
video_word = 2

unfoldable pub is_cga_graphics_mode : ℕ → Bool
is_cga_graphics_mode video_mode = (video_mode == 4) || ((video_mode == 5) || (video_mode == 6))

unfoldable pub cga_graphics_width : ℕ → ℕ
cga_graphics_width video_mode = if video_mode == 6 then 640 else 320

unfoldable pub cga_graphics_bpp : ℕ → ℕ
cga_graphics_bpp video_mode = if video_mode == 6 then 1 else 2

-- The last loop of both functions: one frame to each session in use.
unfoldable pub send_all : Net → ℕ → ℕ → List ℕ → List Session → List (List ℕ)
send_all net payload_len pkt_type payload [] = []
send_all net payload_len pkt_type payload (s ∷ ss) =
    let rest = send_all net payload_len pkt_type payload ss in
    if is_unused s
    then rest
    else frame s.mac_addr net.mac_addr net.ethertype s.session_id payload_len pkt_type payload
      ∷ rest

-- Offset and length in bytes of the next piece of a graphics frame.
unfoldable pub cga_start : Cursor → ℕ
cga_start c = if leb cga_graphics_frame_bytes c.cga_next_offset then 0 else c.cga_next_offset

-- `(MAX_PAYLOAD_LENGTH - sizeof(struct CgaGraphics)) & 0xfffe`, cut at the end of the frame.
unfoldable pub cga_count : ℕ → ℕ
cga_count offset =
    if ltb cga_graphics_frame_bytes (1478 + offset) then cga_graphics_frame_bytes - offset else 1478

unfoldable pub cga_payload : Screen → ℕ → ℕ → List ℕ
cga_payload screen offset count =
    screen.state.video_mode
    ∷ cga_graphics_bpp screen.state.video_mode
    ∷ (be16 (cga_graphics_width screen.state.video_mode)
        ++ (be16 200 ++ (be16 offset ++ (be16 count ++ screen.copy offset (count / video_word)))))

unfoldable pub send_cga_graphics : Net → Screen → List Session → Cursor → Cursor × List (List ℕ)
send_cga_graphics net screen sessions c =
    let offset = cga_start c in
    let count = cga_count offset in
    let sum = screen.checksum 0 (cga_graphics_frame_bytes / video_word) in
    let chksum = if offset == 0 then sum else c.cga_graphics_chksum in
    if (offset == 0) && (sum == c.cga_graphics_chksum)
    then (record c { cga_next_offset = 0 }, [])
    else (
      record c { cga_next_offset = offset + count; cga_graphics_chksum = chksum },
      send_all net (10 + count) PktType.cga_graphics (cga_payload screen offset count) sessions,
    )

-- The row that the next text frame begins with.
unfoldable pub text_start : VideoState → Cursor → ℕ
text_start v c = if leb v.text_rows c.video_next_row then 0 else c.video_next_row

-- The rows that fit a frame, cut at the end of the screen: 1480 bytes are left for them.
unfoldable pub text_rows_sent : VideoState → ℕ → ℕ
text_rows_sent v start =
    let rows = 1480 / (v.text_cols * video_word) in
    if ltb v.text_rows (rows + start) then v.text_rows - start else rows

unfoldable pub text_payload : Screen → ℕ → ℕ → List ℕ
text_payload screen offset words =
    screen.state.text_rows
    ∷ screen.state.text_cols
    ∷ screen.state.cursor_row
    ∷ screen.state.cursor_col
    ∷ (be16 offset ++ (be16 (words * video_word) ++ screen.copy offset words))

unfoldable pub send_text : Net → Screen → List Session → Cursor → Cursor × List (List ℕ)
send_text net screen sessions c =
    let v = screen.state in
    let start = text_start v c in
    let sum = screen.checksum 0 (u16 (v.text_rows * v.text_cols * video_word)) in
    let chksum = if start == 0 then sum else c.video_chksum in
    let rows = text_rows_sent v start in
    let words = u16 (rows * v.text_cols) in
    let payload_len = u16 (8 + words * video_word) in
    if (start == 0) && (sum == c.video_chksum)
    then (record c { video_next_row = 0; cga_next_offset = 0 }, [])
    else (
      record c { video_next_row = u16 (start + rows); video_chksum = chksum; cga_next_offset = 0 },
      send_all net payload_len PktType.vga_text
          (text_payload screen (u16 (start * v.text_cols * video_word)) words) sessions,
    )

unfoldable pub session_mgr_update_all :
    Net → ℕ → Screen → List Session → Cursor → List Session × Cursor × List (List ℕ)
session_mgr_update_all net now screen sessions c =
    let (kept, active) = prune now sessions in
    if active == 0
    then (kept, record c { video_next_row = 0; cga_next_offset = 0 }, [])
    else if is_cga_graphics_mode screen.state.video_mode
    then (let (c', frames) = send_cga_graphics net screen kept (record c { video_next_row = 0 }) in
        (kept, c', frames))
    else (let (c', frames) = send_text net screen kept c in (kept, c', frames))
