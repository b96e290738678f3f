-- ===== src/Tests/Sessions.antt =====
-- A table of four clients and a screen.
use rmtdos_utils.Prelude.{
  ℕ, ◌≡◌, ◌≤◌, ◌<◌, ◌*◌, ◌↔◌, refl, arith, false, List, [], ◌∷◌, replicate, take, drop, get_or,
  get_be32,
}
use rmtdos_utils.Wire.{frame, mac_eq, get_mac}
use rmtdos_utils.Wire.PktType
use rmtdos_utils.Session.{
  Session, session_mgr_start, session_mgr_init, session_mgr_find, find_from, unused, is_unused,
  is_session, null_if_addr,
}
use rmtdos_utils.Session.Table.{Started, session_mgr_start-Started, session_mgr_start-none}
use rmtdos_utils.Session.Video.Unchanged.{Call, start, update}
use rmtdos_utils.Session.Video.{
  session_mgr_update_all, VideoState, Screen, Cursor, cga_graphics_frame_bytes,
}
use rmtdos_utils.Session.Video.Progress.{cga_sweep, cga_sweep_complete}
use rmtdos_utils.Session.Video.Pruned.{session_mgr_update_all-fresh}
use rmtdos_utils.Tests.{server_net, packet}

abbrev start_packet : List ℕ
start_packet = packet PktType.session_start 0 []

abbrev other : Session
other = record {
  t_last_recv = 100;
  session_id = 3;
  mac_addr = record { b0 = 4; b1 = 0; b2 = 0; b3 = 0; b4 = 0; b5 = 4 };
  video_chksum = 0;
}

session_mgr_start-Started_example :
    Started 500 start_packet session_mgr_init 0
      (session_mgr_start 500 start_packet session_mgr_init).1
unfolding session_mgr_start session_mgr_find find_from session_mgr_init mac_eq frame
session_mgr_start-Started_example =
    session_mgr_start-Started 500 start_packet session_mgr_init 0 refl

session_mgr_start-none_example :
    ((session_mgr_start 500 start_packet (replicate 4 other)).1 ≡ replicate 4 other)
    × ((j : ℕ)
        → j < 4
        → (is_session
              (get_mac start_packet 6)
              (get_be32 start_packet 18)
              (get_or (replicate 4 other) j unused)
            ≡ false)
          × (is_session null_if_addr 0 (get_or (replicate 4 other) j unused) ≡ false))
unfolding session_mgr_start session_mgr_find find_from mac_eq frame
session_mgr_start-none_example = session_mgr_start-none 500 start_packet (replicate 4 other) refl

abbrev memory : List ℕ
memory = 1 ∷ 2 ∷ 3 ∷ 4 ∷ []

abbrev mode : VideoState
mode = record {
  video_mode = 3;
  active_page = 0;
  text_rows = 25;
  text_cols = 80;
  cursor_row = 1;
  cursor_col = 2;
}

abbrev screen : Screen
screen = record {
  state = record mode { video_mode = 4 };
  checksum = λ offset words. 10;
  copy = λ offset words. take (words * 2) (drop offset memory);
}

abbrev cursor : Cursor
cursor = record {
  video_next_row = 30;
  video_chksum = 0;
  cga_next_offset = 0;
  cga_graphics_chksum = 0;
}

cga_sweep_complete_example :
    ((cga_sweep 11 server_net screen (other ∷ []) cursor).0.cga_next_offset
      ≡ cga_graphics_frame_bytes)
    × ((cga_sweep 11 server_net screen (other ∷ []) cursor).1
        ≡ take cga_graphics_frame_bytes memory)
unfolding mac_eq
cga_sweep_complete_example =
    cga_sweep_complete server_net screen other [] memory refl (λ offset words. refl) cursor refl
      (λ e. absurd (omega arith))

-- A text screen whose checksum is 10, after all of it was sent.
abbrev still_screen : Screen
still_screen = record screen { state = mode; copy = λ offset words. replicate (words * 2) 65 }

abbrev swept : Cursor
swept = record cursor { video_next_row = 25; video_chksum = 10 }

-- The second client is lost at tick 500.
abbrev table : List Session
table = record other { t_last_recv = 400 } ∷ other ∷ unused ∷ []

session_mgr_update_all-fresh_example :
    ((is_unused (get_or (session_mgr_update_all server_net 500 screen table cursor).0 1 unused)
        ≡ false)
      ↔ ((is_unused other ≡ false) × (500 ≤ 282)))
    × (is_unused (get_or (session_mgr_update_all server_net 500 screen table cursor).0 1 unused)
          ≡ false
        → get_or (session_mgr_update_all server_net 500 screen table cursor).0 1 unused ≡ other)
session_mgr_update_all-fresh_example =
    session_mgr_update_all-fresh server_net 500 screen table cursor 1 (omega arith) (omega arith)

-- A client starts a session between two updates.
abbrev calls : List Call
calls = update 500 ∷ start 505 start_packet ∷ update 518 ∷ []
