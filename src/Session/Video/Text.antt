-- ===== src/Session/Video/Text.antt =====
-- The rows of text that one update sends, and the frames that carry them.
use rmtdos_utils.Prelude.{ℕ, ◌+◌, ◌*◌, ◌<◌, ◌≤◌, ◌≡◌, List, length, get_be16}
use rmtdos_utils.Wire.PktType
use rmtdos_utils.Session.{Session}
use rmtdos_utils.Session.Video.{VideoState, video_word}

-- Rows `start` to `start + count` of a screen, as one frame can carry them.
record Piece (v : VideoState) (start count : ℕ) : Type 0 where
  pub not_empty : 0 < count
  pub on_screen : start + count ≤ v.text_rows
  pub in_frame : 34 + count * (v.text_cols * video_word) ≤ 1514

-- A text frame as a client needs it: it fits Ethernet, its header and its piece tell its length, and
-- the piece is at least a byte of the screen and does not go beyond the end of it.
pub record IsTextFrame (v : VideoState) (f : List ℕ) : Type 0 where
  pub fits : length f ≤ 1514
  pub told : length f ≡ 26 + get_be16 f 22
  pub piece : length f ≡ 34 + get_be16 f 32
  pub not_empty : 0 < get_be16 f 32
  pub on_screen : get_be16 f 30 + get_be16 f 32 ≤ v.text_rows * (v.text_cols * video_word)
