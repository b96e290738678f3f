-- ===== src/Session/Video/Unchanged.antt =====
-- A text screen that does not change, and clients that start sessions meanwhile.
use rmtdos_utils.Prelude.{ℕ, ◌*◌, ◌≡◌, List, [], ◌∷◌, ◌++◌, u16}
use rmtdos_utils.FileTransfer.Send.{Net}
use rmtdos_utils.Session.{Session, session_mgr_start}
use rmtdos_utils.Session.Video.{Screen, Cursor, text_start, session_mgr_update_all, video_word}

-- What calls the session manager, with the tick clock.
pub data Call : Type 0 where
  start : ℕ → List ℕ → Call
  update : ℕ → Call

-- The frames that are sent during calls, in their order.
unfoldable pub run : Net → Screen → List Call → List Session → Cursor → List (List ℕ)
run net screen [] sessions c = []
run net screen (start now frame ∷ calls) sessions c =
    run net screen calls (session_mgr_start now frame sessions).1 c
run net screen (update now ∷ calls) sessions c =
    let (sessions1, c1, frames) = session_mgr_update_all net now screen sessions c in
    frames ++ run net screen calls sessions1 c1

-- The next piece would begin a sweep, and the checksum is the one of the last sweep.
pub record IsStill (screen : Screen) (c : Cursor) : Type 0 where
  pub at_start : text_start screen.state c ≡ 0
  pub same :
      screen.checksum 0 (u16 (screen.state.text_rows * screen.state.text_cols * video_word))
      ≡ c.video_chksum
