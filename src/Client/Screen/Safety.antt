-- ===== src/Client/Screen/Safety.antt =====
-- Whatever frames come in and whatever keys are pressed in the menu, the list of hosts stays sound.
use rmtdos_utils.Prelude.{
  ℕ, ◌-◌, ◌<◌, ◌≡◌, inl, inr, refl, Option, none, some, List, [], ◌∷◌, arith, length, get_or,
  get_be16, Bool-cases, ltb, leb, ltb→lt, ◌==◌, ◌&&◌, if_intro,
}
use rmtdos_utils.Wire.{get_mac}
use rmtdos_utils.Wire.PktType
use rmtdos_utils.Client.{RawSocket}
use rmtdos_utils.Client.Hosts.{
  RemoteHost, HostList, host_at, max_hosts, hostlist_find_by_mac, hostlist_find_by_index,
  hostlist_register,
}
use rmtdos_utils.Client.Screen.{
  Ui, start_remote_control, control_known, control_listed, process_status_resp, process_pkt,
  process_socket_io, wants_host, is_ours, leaves_menu, process_stdin_menu_mode,
}
use rmtdos_utils.Client.Screen.Bounds.{
  IsSound, sender-known, put_back-IsSound, hostlist_register-IsSound,
  process_incoming_video_text-IsSound, process_incoming_cga_graphics-IsSound,
}

-- What the main loop hands on: a frame and the time, or a key of the menu.
pub data Event : Type 0 where
  frame_came : ℕ → List ℕ → Event
  key_pressed : ℕ → Event

unfoldable pub on_event : RawSocket → Event → Ui → Ui
on_event sock (frame_came now buf) ui = process_socket_io sock now (some buf) ui
on_event sock (key_pressed c) ui = process_stdin_menu_mode c ui

unfoldable pub on_events : RawSocket → List Event → Ui → Ui
unfolding on_event
on_events sock [] ui = ui
on_events sock (e ∷ es) ui = on_events sock es (on_event sock e ui)

start_remote_control-IsSound :
    (ui : Ui) (i : ℕ)
    → IsSound ui.hosts
    → i < length ui.hosts
    → get_or ui.hosts i none ≡ some (host_at ui.hosts i)
    → IsSound (start_remote_control i ui).hosts
unfolding start_remote_control
start_remote_control-IsSound ui i ok inside there =
    let framed = ok.framed i (host_at ui.hosts i) there in
    put_back-IsSound ui.hosts i (host_at ui.hosts i) _ ok inside there refl refl
      (record { text = framed.text; graphics = framed.graphics })

control_known-IsSound :
    (buf : List ℕ) (ui : Ui) (known : Option ℕ)
    → IsSound ui.hosts
    → hostlist_find_by_mac (get_mac buf 6) ui.hosts ≡ known
    → IsSound (control_known known ui).hosts
unfolding control_known
control_known-IsSound buf ui none ok e = ok
control_known-IsSound buf ui (some i) ok e =
    let (inside, there, _) = sender-known (get_mac buf 6) i ui.hosts ok e in
    start_remote_control-IsSound ui i ok inside there

process_status_resp-IsSound :
    (now : ℕ) (buf : List ℕ) (ui : Ui)
    → IsSound ui.hosts
    → IsSound (process_status_resp now buf ui).hosts
unfolding process_status_resp
process_status_resp-IsSound now buf ui ok =
    let ui1 : Ui = record ui { hosts = hostlist_register now buf (ui.hosts) } in
    let ok1 = hostlist_register-IsSound now buf ui.hosts ok in
    if_intro {A = Ui} (λ u. IsSound u.hosts) (wants_host (get_mac buf 6) ui1)
      (control_known-IsSound buf ui1 (hostlist_find_by_mac (get_mac buf 6) (ui1.hosts)) ok1 refl)
      ok1

process_pkt-IsSound :
    (now kind : ℕ) (buf : List ℕ) (ui : Ui)
    → IsSound ui.hosts
    → IsSound (process_pkt now kind buf ui).hosts
unfolding process_pkt
process_pkt-IsSound now kind buf ui ok =
    if_intro {A = Ui} (λ u. IsSound u.hosts) (kind == PktType.status_resp)
      (process_status_resp-IsSound now buf ui ok)
      (if_intro {A = Ui} (λ u. IsSound u.hosts) (kind == PktType.vga_text)
        (process_incoming_video_text-IsSound now buf ui.hosts ok)
        (if_intro {A = Ui} (λ u. IsSound u.hosts) (kind == PktType.cga_graphics)
          (process_incoming_cga_graphics-IsSound now buf ui.hosts ok) ok))

find_by_index-some :
    (index : ℕ) (rh : RemoteHost) (hosts : HostList)
    → IsSound hosts
    → hostlist_find_by_index index hosts ≡ some rh
    → (rh.index < length hosts) × (get_or hosts rh.index none ≡ some (host_at hosts rh.index))
unfolding hostlist_find_by_index
find_by_index-some index rh hosts ok found = elim (Bool-cases (ltb index max_hosts)) [
  | inl h ↦
      let at : get_or hosts index none ≡ some rh = ground arith in
      let same = ok.listed.numbered index rh at in
      let below = ltb→lt index max_hosts h in
      (omega (arith, same, below, ok.listed.sized), rw (same, at) refl)
  | inr h ↦ absurd (ground arith)
]

control_listed-IsSound :
    (index : ℕ) (ui : Ui) (listed : Option RemoteHost)
    → IsSound ui.hosts
    → hostlist_find_by_index index ui.hosts ≡ listed
    → IsSound (control_listed listed ui).hosts
unfolding control_listed
control_listed-IsSound index ui none ok e = ok
control_listed-IsSound index ui (some rh) ok e =
    let (inside, there) = find_by_index-some index rh ui.hosts ok e in
    start_remote_control-IsSound ui rh.index ok inside there

process_stdin_menu_mode-IsSound :
    (c : ℕ) (ui : Ui) → IsSound ui.hosts → IsSound (process_stdin_menu_mode c ui).hosts
unfolding process_stdin_menu_mode
process_stdin_menu_mode-IsSound c ui ok =
    if_intro {A = Ui} (λ u. IsSound u.hosts) (leaves_menu c) ok
      (if_intro {A = Ui} (λ u. IsSound u.hosts) (leb b'0' c && leb c b'9')
        (control_listed-IsSound (c - b'0') ui (hostlist_find_by_index (c - b'0') ui.hosts) ok refl)
        ok)

on_event-IsSound :
    (sock : RawSocket) (e : Event) (ui : Ui) → IsSound ui.hosts → IsSound (on_event sock e ui).hosts
unfolding on_event process_socket_io
on_event-IsSound sock (frame_came now buf) ui ok =
    if_intro {A = Ui} (λ u. IsSound u.hosts) (is_ours sock buf)
      (process_pkt-IsSound now (get_be16 buf 24) buf ui ok) ok
on_event-IsSound sock (key_pressed c) ui ok = process_stdin_menu_mode-IsSound c ui ok

-- Any frames and keys of the menu, in any order, leave a list of 16 slots whose hosts tell their
-- own slots, have different addresses, and arrays of the size that the client allocated.
pub on_events-IsSound :
    (sock : RawSocket) (es : List Event) (ui : Ui)
    → IsSound ui.hosts
    → IsSound (on_events sock es ui).hosts
unfolding on_events
on_events-IsSound sock [] ui ok = ok
on_events-IsSound sock (e ∷ es) ui ok =
    on_events-IsSound sock es (on_event sock e ui) (on_event-IsSound sock e ui ok)
