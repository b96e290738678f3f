-- ===== src/Client/Screen.antt =====
-- What tools/cga-web/src/client/main.c does with the frames of the servers. The drawing of windows
-- is not modelled. `buf` is the memory from the receive array on: the array, and what follows it.
pub mod Bounds
pub mod Mirror
pub mod Pieces
pub mod Safety
use rmtdos_utils.Prelude.{
  ℕ, zero, suc, ◌+◌, ◌-◌, Bool, true, false, Option, none, some, List, [], ◌∷◌, ◌++◌, ◌&&◌, ◌==◌,
  ◌||◌, ltb, leb, if◌then◌else◌, set, take, drop, byte, get_be16, get_be32, u32,
}
use rmtdos_utils.Wire.{Mac, mac_eq, get_mac, packet_signature}
use rmtdos_utils.Wire.PktType
use rmtdos_utils.Client.{RawSocket}
use rmtdos_utils.Client.Keyboard.{is_exit_wch_code}
use rmtdos_utils.Client.Hosts.{
  RemoteHost, HostList, host_at, hostlist_find_by_mac, hostlist_find_by_index, hostlist_register,
  video_text_bytes, cga_graphics_bytes,
}

-- The bytes that a `memcpy` of `n` bytes reads.
unfoldable pub bytes_read : ℕ → List ℕ → List ℕ
bytes_read zero xs = []
bytes_read (suc n) xs = let rest = bytes_read n (drop 1 xs) in byte xs 0 ∷ rest

-- `memcpy(array + offset, source, count)`
unfoldable pub copy_to : List ℕ → ℕ → List ℕ → ℕ → List ℕ
unfolding bytes_read
copy_to array offset source count =
    take offset array ++ (bytes_read count source ++ drop (offset + count) array)

unfoldable pub show_text : List ℕ → RemoteHost → RemoteHost
unfolding copy_to
show_text buf rh = record rh {
  video_text_buffer =
      copy_to rh.video_text_buffer (get_be16 buf 30) (drop 34 buf) (get_be16 buf 32);
  text_rows = byte buf 26;
  text_cols = byte buf 27;
  status = record (rh.status) { cursor_row = byte buf 28; cursor_col = byte buf 29 };
}

unfoldable pub show_graphics : List ℕ → RemoteHost → RemoteHost
unfolding copy_to
show_graphics buf rh = record rh {
  cga_graphics_buffer =
      copy_to rh.cga_graphics_buffer (get_be16 buf 32) (drop 36 buf) (get_be16 buf 34);
  cga_graphics_mode = byte buf 26;
  cga_graphics_bpp = byte buf 27;
  cga_graphics_width = get_be16 buf 28;
  cga_graphics_height = get_be16 buf 30;
  cga_graphics_valid = 1;
  cga_graphics_generation = u32 (rh.cga_graphics_generation + 1);
}

-- `gettimeofday(&(rh->tv_last_resp), NULL)`
abbrev pub heard : ℕ → RemoteHost → RemoteHost
heard now rh = record rh { tv_last_resp = now }

unfoldable pub process_incoming_video_text : ℕ → List ℕ → HostList → HostList
process_incoming_video_text now buf hosts = elim (hostlist_find_by_mac (get_mac buf 6) hosts) [
  | none ↦ hosts
  | some i ↦
      let rh = heard now (host_at hosts i) in
      if ltb video_text_bytes (get_be16 buf 32 + get_be16 buf 30)
      then set hosts i (some rh)
      else set hosts i (some (show_text buf rh))
]

unfoldable pub process_incoming_cga_graphics : ℕ → List ℕ → HostList → HostList
process_incoming_cga_graphics now buf hosts = elim (hostlist_find_by_mac (get_mac buf 6) hosts) [
  | none ↦ hosts
  | some i ↦
      let rh = heard now (host_at hosts i) in
      if ltb cga_graphics_bytes (get_be16 buf 34 + get_be16 buf 32)
      then set hosts i (some rh)
      else set hosts i (some (show_graphics buf rh))
]

-- The globals of main.c that frames and the menu change, and the option `-d`.
pub record Ui : Type 0 where
  pub hosts : HostList
  pub active_host : Option ℕ
  pub autoconnect_host : Option Mac
  pub is_running : Bool

unfoldable pub start_remote_control : ℕ → Ui → Ui
start_remote_control i ui = record ui {
  active_host = some i;
  hosts = set (ui.hosts) i (some (record (host_at (ui.hosts) i) { has_window = true }));
}

-- `if (rh)`, for a host that is given by its slot, and for one that tells it.
unfoldable pub control_known : Option ℕ → Ui → Ui
control_known none ui = ui
control_known (some i) ui = start_remote_control i ui

unfoldable pub control_listed : Option RemoteHost → Ui → Ui
control_listed none ui = ui
control_listed (some rh) ui = start_remote_control rh.index ui

-- `g_autoconnect_host_set && !g_active_host && !memcmp(...)`
unfoldable pub wants_host : Mac → Ui → Bool
wants_host mac ui = elim (ui.autoconnect_host) [
  | none ↦ false
  | some wanted ↦ elim (ui.active_host) [ some i ↦ false | none ↦ mac_eq mac wanted ]
]

-- The case `V1_STATUS_RESP`.
unfoldable pub process_status_resp : ℕ → List ℕ → Ui → Ui
unfolding control_known
process_status_resp now buf ui =
    let ui1 : Ui = record ui { hosts = hostlist_register now buf (ui.hosts) } in
    if wants_host (get_mac buf 6) ui1
    then control_known (hostlist_find_by_mac (get_mac buf 6) (ui1.hosts)) ui1
    else ui1

-- A frame for this client, in its session.
unfoldable pub is_ours : RawSocket → List ℕ → Bool
is_ours sock buf =
    mac_eq (get_mac buf 0) sock.if_addr
    && (packet_signature == get_be32 buf 14 && sock.session_id == get_be32 buf 18)

unfoldable pub process_pkt : ℕ → ℕ → List ℕ → Ui → Ui
process_pkt now kind buf ui =
    if kind == PktType.status_resp
    then process_status_resp now buf ui
    else if kind == PktType.vga_text
    then record ui { hosts = process_incoming_video_text now buf (ui.hosts) }
    else if kind == PktType.cga_graphics
    then record ui { hosts = process_incoming_cga_graphics now buf (ui.hosts) }
    else ui

-- What `recvfrom` fills the array with, or none if it has nothing; the debug window is not modelled.
unfoldable pub process_socket_io : RawSocket → ℕ → Option (List ℕ) → Ui → Ui
unfolding process_pkt
process_socket_io sock now none ui = ui
process_socket_io sock now (some buf) ui =
    if is_ours sock buf then process_pkt now (get_be16 buf 24) buf ui else ui

-- `KEY_F(12)` of ncurses.
abbrev pub key_f12 : ℕ
key_f12 = 0o424

unfoldable pub leaves_menu : ℕ → Bool
leaves_menu c = is_exit_wch_code c || (c == key_f12 || c == 27)

-- The menu; `c` is what `getch` returns.
unfoldable pub process_stdin_menu_mode : ℕ → Ui → Ui
unfolding control_listed leaves_menu
process_stdin_menu_mode c ui =
    if leaves_menu c
    then record ui { is_running = false }
    else if leb b'0' c && leb c b'9'
    then control_listed (hostlist_find_by_index (c - b'0') (ui.hosts)) ui
    else ui
