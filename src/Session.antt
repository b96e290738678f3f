-- ===== src/Session.antt =====
-- The session table, tools/cga-web/src/server/session.c. A pointer to a session is its index in
-- `g_sessions`.
pub mod Table
pub mod Unique
pub mod Video
use rmtdos_utils.Prelude.{
  ℕ, ◌+◌, Bool, true, false, Option, none, some, List, [], ◌∷◌, ◌&&◌, ◌==◌, ltb, if◌then◌else◌,
  get_or, set, replicate, get_be32, u32,
}
use rmtdos_utils.Wire.{Mac, mac_eq, get_mac}

pub record Session : Type 0 where
  pub t_last_recv : ℕ
  pub session_id : ℕ
  pub mac_addr : Mac
  pub video_chksum : ℕ

abbrev pub max_sessions : ℕ
max_sessions = 4

abbrev pub null_if_addr : Mac
null_if_addr = record { b0 = 0; b1 = 0; b2 = 0; b3 = 0; b4 = 0; b5 = 0 }

-- What `session_mgr_reclaim` leaves.
abbrev pub unused : Session
unused = record { t_last_recv = 0; session_id = 0; mac_addr = null_if_addr; video_chksum = 0 }

unfoldable pub session_mgr_init : List Session
session_mgr_init = replicate max_sessions unused

-- The test of `session_mgr_find`.
abbrev pub is_session : Mac → ℕ → Session → Bool
is_session mac session_id s = mac_eq s.mac_addr mac && s.session_id == session_id

-- The loop of `session_mgr_find`, from index `i` on.
unfoldable pub find_from : ℕ → Mac → ℕ → List Session → Option ℕ
find_from i mac session_id [] = none
find_from i mac session_id (s ∷ ss) =
    let rest = find_from (i + 1) mac session_id ss in
    if is_session mac session_id s then some i else rest

unfoldable pub session_mgr_find : Mac → ℕ → List Session → Option ℕ
session_mgr_find mac session_id sessions = find_from 0 mac session_id sessions

-- The two assignments at the end of `session_mgr_start`.
abbrev pub refresh : ℕ → Session → Session
refresh now s = record s { t_last_recv = now; video_chksum = 0 }

-- `now` is what `x86_read_bios_tick_clock` returns.
unfoldable pub session_mgr_start : ℕ → List ℕ → List Session → Option ℕ × List Session
session_mgr_start now frame sessions =
    let mac = get_mac frame 6 in
    let session_id = get_be32 frame 18 in
    elim (session_mgr_find mac session_id sessions) [
      | some i ↦ (some i, set sessions i (refresh now (get_or sessions i unused)))
      | none ↦ elim (session_mgr_find null_if_addr 0 sessions) [
        | none ↦ (none, sessions)
        | some i ↦ (
          some i,
          set sessions i (
              refresh now
                (record (get_or sessions i unused) { mac_addr = mac; session_id = session_id })),
        )
      ]
    ]

abbrev pub session_lifetime_bios_ticks : ℕ
session_lifetime_bios_ticks = 182

-- `!memcmp(s->mac_addr, null_if_addr, ETH_ALEN)`
abbrev pub is_unused : Session → Bool
is_unused s = mac_eq s.mac_addr null_if_addr

-- The first loop of `session_mgr_update_all`: the table and `active_sessions`.
unfoldable pub prune : ℕ → List Session → List Session × ℕ
prune now [] = ([], 0)
prune now (s ∷ ss) =
    let (rest, active) = prune now ss in
    if is_unused s
    then (s ∷ rest, active)
    else if ltb (u32 (s.t_last_recv + session_lifetime_bios_ticks)) now
    then (unused ∷ rest, active)
    else (s ∷ rest, active + 1)
