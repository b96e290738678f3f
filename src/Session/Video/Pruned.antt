-- ===== src/Session/Video/Pruned.antt =====
-- Who is sent the screen: the clients that renewed their session.
use rmtdos_utils.Prelude.{
  ℕ, zero, suc, ◌+◌, ◌≤◌, ◌<◌, ◌^◌, ◌≡◌, ◌↔◌, ◌⊎◌, inl, inr, refl, true, false, List, [], ◌∷◌,
  arith, map, get_or, u32, ltb, ltb→lt, if◌then◌else◌, Bool-cases,
}
use rmtdos_utils.Wire.{Mac, mac_eq, get_mac}
use rmtdos_utils.FileTransfer.Send.{Net}
use rmtdos_utils.Session.{
  Session, is_unused, prune, unused, null_if_addr, session_lifetime_bios_ticks,
}
use rmtdos_utils.Session.Table.{mac_eq_refl}
use rmtdos_utils.Session.Video.{Screen, Cursor, session_mgr_update_all}

-- The addresses of the sessions in use.
unfoldable pub clients : List Session → List Mac
clients [] = []
clients (s ∷ ss) = let rest = clients ss in if is_unused s then rest else s.mac_addr ∷ rest

-- The address that a frame goes to.
abbrev pub recipient : List ℕ → Mac
recipient f = get_mac f 0

-- Nothing, or a frame for each session in use.
abbrev IsForAll : List Session → List (List ℕ) → Type 0
IsForAll ss frames = (frames ≡ []) ⊎ (map recipient frames ≡ clients ss)

module _ (net : Net) (now : ℕ) (screen : Screen) (sessions : List Session) (c : Cursor) where
  sessions-update_all :
      (session_mgr_update_all net now screen sessions c).0 ≡ (prune now sessions).0
  unfolding session_mgr_update_all
  sessions-update_all = ground arith

-- A slot after pruning.
abbrev pruned : ℕ → Session → Session
pruned now s =
    if is_unused s
    then s
    else if ltb (u32 (s.t_last_recv + session_lifetime_bios_ticks)) now
    then unused
    else s

prune-slot :
    (now j : ℕ) (ss : List Session)
    → get_or (prune now ss).0 j unused ≡ pruned now (get_or ss j unused)
unfolding prune mac_eq
prune-slot now j [] = refl
prune-slot now zero (s ∷ ss) = ground arith
prune-slot now (suc j) (s ∷ ss) = ground (arith, prune-slot now j ss)

-- A session that was heard of when the clock was not ahead.
pruned-fresh :
    (now : ℕ) (s : Session)
    → s.t_last_recv ≤ now
    → now + session_lifetime_bios_ticks < 2 ^ 32
    → ((is_unused (pruned now s) ≡ false)
        ↔ ((is_unused s ≡ false) × (now ≤ s.t_last_recv + session_lifetime_bios_ticks)))
      × (is_unused (pruned now s) ≡ false → pruned now s ≡ s)
pruned-fresh now s heard wraps =
    let exact : u32 (s.t_last_recv + session_lifetime_bios_ticks)
        ≡ s.t_last_recv + session_lifetime_bios_ticks =
      omega arith in
    elim (Bool-cases (is_unused s)) [
      | inl free ↦
          rw (free, free) ((λ e. absurd (not_in_use e), λ k. absurd (not_in_use k.0)), λ e. refl)
      | inr used ↦ elim (Bool-cases (ltb (s.t_last_recv + session_lifetime_bios_ticks) now)) [
        | inl late ↦
            let over : s.t_last_recv + session_lifetime_bios_ticks < now = ltb→lt _ _ late in
            rw (used, exact, late, mac_eq_refl null_if_addr)
              (
                (λ e. absurd (not_in_use e), λ k. absurd (omega (arith, over, k.1))),
                λ e. absurd (not_in_use e),
              )
        | inr fresh ↦
            let recent : now ≤ s.t_last_recv + session_lifetime_bios_ticks = ground arith in
            rw (used, exact, fresh, used) ((λ e. (refl, recent), λ k. refl), λ e. refl)
      ]
    ]
  where
    not_in_use : true ≡ false → ⊥
    not_in_use e = cc

-- While the tick clock was not set back since the client was heard of, and is not about to wrap,
-- a session is in use after an update exactly if it was before and its client was heard of in the
-- last 182 ticks (10 seconds), and then it is unchanged.
pub session_mgr_update_all-fresh :
    (net : Net) (now : ℕ) (screen : Screen) (sessions : List Session) (c : Cursor) (j : ℕ)
    → (get_or sessions j unused).t_last_recv ≤ now
    → now + session_lifetime_bios_ticks < 2 ^ 32
    → ((is_unused (get_or (session_mgr_update_all net now screen sessions c).0 j unused) ≡ false)
        ↔ ((is_unused (get_or sessions j unused) ≡ false)
            × (now ≤ (get_or sessions j unused).t_last_recv + session_lifetime_bios_ticks)))
      × (is_unused (get_or (session_mgr_update_all net now screen sessions c).0 j unused) ≡ false
          → get_or (session_mgr_update_all net now screen sessions c).0 j unused
            ≡ get_or sessions j unused)
session_mgr_update_all-fresh net now screen sessions c j heard wraps =
    rw (sessions-update_all, prune-slot) (pruned-fresh now (get_or sessions j unused) heard wraps)
