-- ===== src/Session/Unique.antt =====
-- No client has two sessions with one id.
use rmtdos_utils.Prelude.{
  ℕ, zero, suc, ◌≤◌, ◌≡◌, ◌≢◌, inl, inr, refl, sym, ◌∙◌, true, false, List, [], ◌∷◌, ◌==◌, arith,
  Bool, length, get_or, get_be32, ltb, ltb→lt, ==_iff, Bool-cases, Option-cases, replicate,
}
use rmtdos_utils.Wire.{Mac, mac_eq, get_mac}
use rmtdos_utils.Session.{
  Session, unused, null_if_addr, max_sessions, is_session, session_mgr_init, session_mgr_start,
}
use rmtdos_utils.Session.Table.{
  Started, Claimable, session_mgr_start-Started, session_mgr_start-none,
}

-- A client with an address that is not that of unused slots has one slot at most.
abbrev pub HasUnique : List Session → Type 0
HasUnique ss =
    (mac : Mac) (id i j : ℕ)
    → mac_eq mac null_if_addr ≡ false
    → is_session mac id (get_or ss i unused) ≡ true
    → is_session mac id (get_or ss j unused) ≡ true
    → i ≡ j

get_or_beyond : (ss : List Session) (i : ℕ) → length ss ≤ i → get_or ss i unused ≡ unused
get_or_beyond [] i h = refl
get_or_beyond (s ∷ ss) zero h = absurd (omega arith)
get_or_beyond (s ∷ ss) (suc i) h = get_or_beyond ss i (omega arith)

-- An unused slot is nobody's.
unused-free :
    (mac : Mac) (id : ℕ) → mac_eq mac null_if_addr ≡ false → is_session mac id unused ≡ false
unfolding mac_eq
unused-free mac id h = ground arith

get_or-init : (n i : ℕ) → get_or (replicate n unused) i unused ≡ unused
get_or-init zero i = refl
get_or-init (suc n) zero = refl
get_or-init (suc n) (suc i) = get_or-init n i

not_both : {b : Bool} → b ≡ true → b ≡ false → ⊥
not_both h k = cc

pub session_mgr_init-HasUnique : HasUnique session_mgr_init
unfolding session_mgr_init
session_mgr_init-HasUnique mac id i j h hi hj =
    absurd (not_both (rw (get_or-init max_sessions i) at hi) (unused-free mac id h))

same_client :
    (mac mac' : Mac) (id id' : ℕ) (s : Session)
    → is_session mac id s ≡ true
    → is_session mac' id' s ≡ true
    → (mac ≡ mac') × (id ≡ id')
unfolding mac_eq
same_client mac mac' id id' s h k = ground arith

-- The slot that was claimed, and no other, has the client.
other-free :
    (mac : Mac) (id : ℕ) (ss : List Session) (i k : ℕ)
    → HasUnique ss
    → Claimable mac id ss i
    → mac_eq mac null_if_addr ≡ false
    → i ≢ k
    → is_session mac id (get_or ss k unused) ≡ false
other-free mac id ss i k unique (inl own) h ne =
    elim (Bool-cases (is_session mac id (get_or ss k unused))) [
      | inl too ↦ absurd (ne (unique mac id i k h own too))
      | inr free ↦ free
    ]
other-free mac id ss i k unique (inr (free, unknown)) h ne = elim (Bool-cases (ltb k (length ss))) [
  | inl inside ↦ unknown k (ltb→lt k (length ss) inside)
  | inr beyond ↦ rw (get_or_beyond ss k (ground arith)) (unused-free mac id h)
]

Started-HasUnique :
    (now : ℕ) (frame : List ℕ) (ss : List Session) (i : ℕ) (ss' : List Session)
    → HasUnique ss
    → Started now frame ss i ss'
    → HasUnique ss'
Started-HasUnique now frame ss i ss' unique started mac id j k h hj hk =
    elim (Bool-cases (i == j)) [
      | inl ej ↦ elim (Bool-cases (i == k)) [
        | inl ek ↦ sym ((==_iff i j).0 ej) ∙ (==_iff i k).0 ek
        | inr nk ↦ absurd (clash j k ((==_iff i j).0 ej) (ground arith) hj hk)
      ]
      | inr nj ↦ elim (Bool-cases (i == k)) [
        | inl ek ↦ absurd (clash k j ((==_iff i k).0 ek) (ground arith) hk hj)
        | inr nk ↦
            unique mac id j k h (rw (started.others j (ground arith)) at hj)
              (rw (started.others k (ground arith)) at hk)
      ]
    ]
  where
    clash :
        (a b : ℕ)
        → i ≡ a
        → i ≢ b
        → is_session mac id (get_or ss' a unused) ≡ true
        → is_session mac id (get_or ss' b unused) ≡ true
        → ⊥
    clash a b e ne ha hb =
        let own = rw (← e) at ha in
        let (m, d) =
          same_client mac (get_mac frame 6) id (get_be32 frame 18) (get_or ss' i unused) own
            started.registered in
        let free =
          other-free (get_mac frame 6) (get_be32 frame 18) ss i b unique started.before (rw m at h)
            ne in
        not_both (rw (started.others b ne, m, d) at hb) free

pub session_mgr_start-HasUnique :
    (now : ℕ) (frame : List ℕ) (ss : List Session)
    → HasUnique ss
    → HasUnique (session_mgr_start now frame ss).1
session_mgr_start-HasUnique now frame ss unique =
    elim (Option-cases (session_mgr_start now frame ss).0) [
      | inl e ↦ rw ((session_mgr_start-none now frame ss e).0) unique
      | inr (i, e) ↦
          Started-HasUnique now frame ss i _ unique (session_mgr_start-Started now frame ss i e)
    ]
