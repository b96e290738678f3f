-- ===== src/Tests/Screens.antt =====
-- The client's user interface: a server that answers, and its graphics screen.
use rmtdos_utils.Prelude.{
  ℕ, ◌*◌, ◌≡◌, refl, arith, true, none, some, List, [], ◌∷◌, length, suc, replicate,
  length-replicate, take, drop,
}
use rmtdos_utils.Wire.PktType
use rmtdos_utils.Session.{Session}
use rmtdos_utils.Session.Video.{Screen, Cursor, cga_graphics_frame_bytes}
use rmtdos_utils.Client.{RawSocket}
use rmtdos_utils.Client.Hosts.{
  RemoteHost, HostList, no_hosts, host_create, has_addr, first_slot, hostlist_register,
  hostlist_find_by_mac, cga_graphics_bytes,
}
use rmtdos_utils.Client.Hosts.Slots.{IsHostList, no_hosts-IsHostList}
use rmtdos_utils.Client.Hosts.Register.{Registered, hostlist_register-Registered}
use rmtdos_utils.Client.Hosts.Listed.{iterate, present, iterate-present}
use rmtdos_utils.Client.Screen.{Ui}
use rmtdos_utils.Client.Screen.Bounds.{IsSound, no_hosts-IsSound}
use rmtdos_utils.Client.Screen.Safety.{Event, frame_came, key_pressed, on_events, on_events-IsSound}
use rmtdos_utils.Client.Screen.Pieces.{ShowsUpTo}
use rmtdos_utils.Client.Screen.Mirror.{mirror, mirror-ShowsUpTo}
use rmtdos_utils.Wire.{frame, mac_eq}
use rmtdos_utils.Tests.{server_mac, client_mac, server_net}

abbrev sock : RawSocket
sock = record { if_addr = client_mac; ethertype = 0x80ab; session_id = 7 }

-- The answer of the server to a status request.
abbrev answer : List ℕ
answer = frame client_mac server_mac 0x80ab 7 6 PktType.status_resp (3 ∷ 0 ∷ 25 ∷ 80 ∷ 1 ∷ 2 ∷ [])

hostlist_register-Registered_example :
    IsHostList (hostlist_register 5 answer no_hosts)
    × Registered 5 answer no_hosts (hostlist_register 5 answer no_hosts)
hostlist_register-Registered_example =
    hostlist_register-Registered 5 answer no_hosts no_hosts-IsHostList

abbrev server_host : RemoteHost
server_host = record host_create {
  if_addr = server_mac;
  cga_graphics_buffer = replicate cga_graphics_bytes 0;
}

abbrev listed : HostList
listed = none ∷ some server_host ∷ none ∷ []

iterate-present_example : iterate (suc (length listed)) 0 listed ≡ some (present listed)
iterate-present_example = iterate-present listed

abbrev fresh : Ui
fresh = record {
  hosts = no_hosts;
  active_host = none;
  autoconnect_host = some server_mac;
  is_running = true;
}

-- The server answers, a piece of text comes, and a key is pressed.
abbrev events : List Event
events =
    frame_came 5 answer
    ∷ frame_came 6 (
        frame client_mac server_mac 0x80ab 7 10 PktType.vga_text
          (25 ∷ 80 ∷ 3 ∷ 4 ∷ 0 ∷ 160 ∷ 0 ∷ 2 ∷ 65 ∷ 7 ∷ []))
    ∷ key_pressed b'0'
    ∷ []

on_events-IsSound_example : IsSound (on_events sock events fresh).hosts
on_events-IsSound_example = on_events-IsSound sock events fresh no_hosts-IsSound

abbrev client_session : Session
client_session = record {
  t_last_recv = 100;
  session_id = 7;
  mac_addr = client_mac;
  video_chksum = 0;
}

-- A graphics screen that shows 16000 bytes, all 85.
abbrev memory : List ℕ
memory = replicate cga_graphics_bytes 85

abbrev screen : Screen
screen = record {
  state = record {
    video_mode = 4;
    active_page = 0;
    text_rows = 25;
    text_cols = 80;
    cursor_row = 1;
    cursor_col = 2;
  };
  checksum = λ offset words. 10;
  copy = λ offset words. take (words * 2) (drop offset memory);
}

abbrev start : Cursor
start = record {
  video_next_row = 30;
  video_chksum = 0;
  cga_next_offset = 0;
  cga_graphics_chksum = 0;
}

mirror-ShowsUpTo_example : ShowsUpTo cga_graphics_frame_bytes memory server_mac 1 (
    mirror 11 server_net screen
      (client_session ∷ [])
      start
      sock
      9
      (record fresh { hosts = listed }))
unfolding hostlist_find_by_mac first_slot has_addr mac_eq
mirror-ShowsUpTo_example =
    mirror-ShowsUpTo server_net screen client_session [] memory refl (λ offset words. refl)
      (omega (arith, length-replicate {A = ℕ} cga_graphics_bytes 85)) sock refl refl (omega arith) 9
      1 start (record fresh { hosts = listed }) refl (λ e. absurd (omega arith)) refl
      (length-replicate {A = ℕ} cga_graphics_bytes 0)
