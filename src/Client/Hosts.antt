-- ===== src/Client/Hosts.antt =====
-- The servers that the client has seen, tools/cga-web/src/client/hostlist.c. A pointer to a host is
-- its index in `g_remote_hosts`, where none is the null pointer.
pub mod Listed
pub mod Register
pub mod Slots
use rmtdos_utils.Prelude.{
  ℕ, ◌+◌, Bool, true, false, Option, none, some, List, [], ◌∷◌, ◌==◌, ltb, if◌then◌else◌, get_or,
  set, replicate, drop, byte, get_be16,
}
use rmtdos_utils.Wire.{Mac, mac_eq, get_mac}
use rmtdos_utils.Wire.PktType

pub record StatusResponse : Type 0 where
  pub video_mode : ℕ
  pub active_page : ℕ
  pub text_rows : ℕ
  pub text_cols : ℕ
  pub cursor_row : ℕ
  pub cursor_col : ℕ

pub record RemoteHost : Type 0 where
  pub index : ℕ
  pub if_addr : Mac
  pub tv_last_resp : ℕ
  pub tv_last_session_start : ℕ
  pub status : StatusResponse
  pub has_window : Bool
  pub text_rows : ℕ
  pub text_cols : ℕ
  pub video_text_buffer : List ℕ
  pub cga_graphics_buffer : List ℕ
  pub cga_graphics_mode : ℕ
  pub cga_graphics_bpp : ℕ
  pub cga_graphics_width : ℕ
  pub cga_graphics_height : ℕ
  pub cga_graphics_valid : ℕ
  pub cga_graphics_generation : ℕ

abbrev pub HostList : Type 0
HostList = List (Option RemoteHost)

abbrev pub max_hosts : ℕ
max_hosts = 16

-- `g_remote_hosts` before the first host.
unfoldable pub no_hosts : HostList
no_hosts = replicate max_hosts none

abbrev pub null_addr : Mac
null_addr = record { b0 = 0; b1 = 0; b2 = 0; b3 = 0; b4 = 0; b5 = 0 }

abbrev pub no_status : StatusResponse
no_status = record {
  video_mode = 0;
  active_page = 0;
  text_rows = 0;
  text_cols = 0;
  cursor_row = 0;
  cursor_col = 0;
}

abbrev pub video_text_bytes : ℕ
video_text_bytes = 32768

abbrev pub cga_graphics_bytes : ℕ
cga_graphics_bytes = 16000

-- An array of `n` bytes after `memset`.
unfoldable pub cleared : ℕ → List ℕ
cleared n = replicate n 0

-- `memset` leaves a host of zeros. `malloc` does not fail.
abbrev pub host_create : RemoteHost
host_create = record {
  index = 0;
  if_addr = null_addr;
  tv_last_resp = 0;
  tv_last_session_start = 0;
  status = no_status;
  has_window = false;
  text_rows = 0;
  text_cols = 0;
  video_text_buffer = cleared video_text_bytes;
  cga_graphics_buffer = cleared cga_graphics_bytes;
  cga_graphics_mode = 0;
  cga_graphics_bpp = 0;
  cga_graphics_width = 0;
  cga_graphics_height = 0;
  cga_graphics_valid = 0;
  cga_graphics_generation = 0;
}

-- The tests of the two loops over the table.
unfoldable pub has_addr : Mac → Option RemoteHost → Bool
has_addr if_addr none = false
has_addr if_addr (some rh) = mac_eq rh.if_addr if_addr

unfoldable pub is_empty : Option RemoteHost → Bool
is_empty none = true
is_empty (some rh) = false

-- The first slot from index `i` on that passes the test.
unfoldable pub first_slot : (Option RemoteHost → Bool) → ℕ → HostList → Option ℕ
first_slot test i [] = none
first_slot test i (slot ∷ slots) =
    let rest = first_slot test (i + 1) slots in if test slot then some i else rest

unfoldable pub hostlist_find_by_mac : Mac → HostList → Option ℕ
hostlist_find_by_mac if_addr hosts = first_slot (has_addr if_addr) 0 hosts

unfoldable pub hostlist_find_by_index : ℕ → HostList → Option RemoteHost
hostlist_find_by_index index hosts = if ltb index max_hosts then get_or hosts index none else none

unfoldable pub hostlist_allocate : HostList → Option ℕ × HostList
hostlist_allocate hosts = elim (first_slot is_empty 0 hosts) [
  | none ↦ (none, hosts)
  | some i ↦ (some i, set hosts i (some (record host_create { index = i })))
]

unfoldable pub status_of : List ℕ → StatusResponse
status_of packet = record {
  video_mode = byte packet 26;
  active_page = byte packet 27;
  text_rows = byte packet 28;
  text_cols = byte packet 29;
  cursor_row = byte packet 30;
  cursor_col = byte packet 31;
}

unfoldable pub record_response : ℕ → List ℕ → RemoteHost → RemoteHost
unfolding status_of
record_response now packet rh =
    let heard : RemoteHost = record rh { tv_last_resp = now } in
    if get_be16 packet 24 == PktType.status_resp
    then record heard { status = status_of packet }
    else heard

-- The host that a pointer points to; the code never follows a null one.
abbrev pub host_of : Option RemoteHost → RemoteHost
host_of none = host_create
host_of (some rh) = rh

abbrev pub host_at : HostList → ℕ → RemoteHost
host_at hosts i = host_of (get_or hosts i none)

-- `now` is what `gettimeofday` says.
unfoldable pub hostlist_register : ℕ → List ℕ → HostList → HostList
unfolding hostlist_find_by_mac hostlist_allocate record_response
hostlist_register now packet hosts =
    let ether_shost = get_mac packet 6 in
    elim (hostlist_find_by_mac ether_shost hosts) [
      | some i ↦ set hosts i (some (record_response now packet (host_at hosts i)))
      | none ↦
          let (slot, hosts1) = hostlist_allocate hosts in
          elim slot [
            | none ↦ hosts1
            | some i ↦ set hosts1 i (
                some (
                  record_response now packet (record (host_at hosts1 i) { if_addr = ether_shost })))
          ]
    ]

-- The loop of `hostlist_iter`: what it returns, and its iterator after it, none where the code
-- sets it to -1.
unfoldable pub iter_from : ℕ → HostList → Option RemoteHost × Option ℕ
iter_from i [] = (none, none)
iter_from i (none ∷ slots) = iter_from (i + 1) slots
iter_from i (some rh ∷ slots) = (some rh, some (i + 1))

unfoldable pub hostlist_iter : ℕ → HostList → Option RemoteHost × Option ℕ
unfolding iter_from
hostlist_iter iter hosts = iter_from iter (drop iter hosts)
