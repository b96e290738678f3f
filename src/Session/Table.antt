-- ===== src/Session/Table.antt =====
-- Laws of the session table.
use native.Mathlib.Nat.{sub-zero}
use rmtdos_utils.Prelude.{
  ℕ, zero, suc, ◌+◌, ◌-◌, ◌<◌, ◌≤◌, ◌≡◌, ◌≢◌, ◌⊎◌, inl, inr, refl, true, false, none, some, List,
  [], ◌∷◌, arith, length, get_or, set, get_be32, length-set, ap, Bool-cases, Option-cases,
  get_or-set_self, ==_refl,
}
use rmtdos_utils.Wire.{Mac, mac_eq, get_mac}
use rmtdos_utils.Session.{
  Session, unused, null_if_addr, is_session, find_from, session_mgr_find, session_mgr_start,
  refresh,
}

pub mac_eq-true : (a b : Mac) → mac_eq a b ≡ true → a ≡ b
unfolding mac_eq
mac_eq-true a b h = ground arith

pub mac_eq_refl : (a : Mac) → mac_eq a a ≡ true
unfolding mac_eq
mac_eq_refl a = ground arith

-- A session that is found is at its index and has the address and the id.
find_from-some :
    (k i : ℕ) (mac : Mac) (id : ℕ) (ss : List Session)
    → find_from k mac id ss ≡ some i
    → (k ≤ i) × (i < k + length ss) × (is_session mac id (get_or ss (i - k) unused) ≡ true)
unfolding find_from
find_from-some k i mac id [] e = cc
find_from-some k i mac id (s ∷ ss) e = elim (Bool-cases (is_session mac id s)) [
  | inl hit ↦ let same : i ≡ k = ground arith in (omega arith, omega arith, rw (first same) hit)
  | inr miss ↦
      let later = find_from-some (k + 1) i mac id ss (rw miss at e) in
      (omega (arith, later.0), omega (arith, later.1), rw (next later.0) (later.2))
]
  where
    first : i ≡ k → i - k ≡ 0
    first same = omega arith

    next : k + 1 ≤ i → i - k ≡ suc (i - (k + 1))
    next h = omega arith

-- If none is found, there is none.
find_from-none :
    (k j : ℕ) (mac : Mac) (id : ℕ) (ss : List Session)
    → find_from k mac id ss ≡ none
    → j < length ss
    → is_session mac id (get_or ss j unused) ≡ false
unfolding find_from
find_from-none k j mac id [] e h = absurd (omega arith)
find_from-none k zero mac id (s ∷ ss) e h = ground arith
find_from-none k (suc j) mac id (s ∷ ss) e h = ground (arith, find_from-none (k + 1) j mac id ss)

get_or-set_ne :
    (ss : List Session) (i j : ℕ) (v : Session)
    → i ≢ j
    → get_or (set ss i v) j unused ≡ get_or ss j unused
get_or-set_ne [] i j v h = refl
get_or-set_ne (s ∷ ss) zero zero v h = absurd (h refl)
get_or-set_ne (s ∷ ss) zero (suc j) v h = refl
get_or-set_ne (s ∷ ss) (suc i) zero v h = refl
get_or-set_ne (s ∷ ss) (suc i) (suc j) v h = get_or-set_ne ss i j v (λ e. h (ap suc e))

some_eq : {a b : ℕ} → some a ≡ some b → a ≡ b
some_eq e = cc

not_some : {a : ℕ} → none ≡ some a → ⊥
not_some e = cc

is_session_refl :
    (mac : Mac) (id : ℕ) (s : Session)
    → (mac ≡ s.mac_addr)
    → id ≡ s.session_id
    → is_session mac id s ≡ true
is_session_refl mac id s e f = rw (← e, ← f, mac_eq_refl mac, ==_refl id)

-- A slot that the client may have: its own, or one that is unused while it has none.
abbrev pub Claimable : Mac → ℕ → List Session → ℕ → Type 0
Claimable mac id ss i =
    (is_session mac id (get_or ss i unused) ≡ true)
    ⊎ ((is_session null_if_addr 0 (get_or ss i unused) ≡ true)
        × ((j : ℕ) → j < length ss → is_session mac id (get_or ss j unused) ≡ false))

-- What a start that succeeds leaves.
pub record Started (now : ℕ) (frame : List ℕ) (ss : List Session) (i : ℕ) (ss' : List Session)
    : Type 0 where
  pub in_table : i < length ss
  pub before : Claimable (get_mac frame 6) (get_be32 frame 18) ss i
  pub same_size : length ss' ≡ length ss
  pub registered : is_session (get_mac frame 6) (get_be32 frame 18) (get_or ss' i unused) ≡ true
  pub refreshed : (get_or ss' i unused).t_last_recv ≡ now
  pub others : (j : ℕ) → i ≢ j → get_or ss' j unused ≡ get_or ss j unused

session_mgr_find-some :
    (mac : Mac) (id i : ℕ) (ss : List Session)
    → session_mgr_find mac id ss ≡ some i
    → (i < length ss) × (is_session mac id (get_or ss i unused) ≡ true)
unfolding session_mgr_find
session_mgr_find-some mac id i ss e =
    let (_, inside, hit) = find_from-some 0 i mac id ss e in (omega arith, simp sub-zero at hit)

session_mgr_find-none :
    (mac : Mac) (id j : ℕ) (ss : List Session)
    → session_mgr_find mac id ss ≡ none
    → j < length ss
    → is_session mac id (get_or ss j unused) ≡ false
unfolding session_mgr_find
session_mgr_find-none mac id j ss e h = find_from-none 0 j mac id ss e h

set-Started :
    (now : ℕ) (frame : List ℕ) (ss : List Session) (i : ℕ) (v : Session)
    → i < length ss
    → Claimable (get_mac frame 6) (get_be32 frame 18) ss i
    → is_session (get_mac frame 6) (get_be32 frame 18) v ≡ true
    → v.t_last_recv ≡ now
    → Started now frame ss i (set ss i v)
set-Started now frame ss i v h before hit time = record {
  in_table = h;
  before = before;
  same_size = length-set ss i v;
  registered = rw (get_or-set_self ss i v unused h) hit;
  refreshed = rw (get_or-set_self ss i v unused h) time;
  others = λ j ne. get_or-set_ne ss i j v ne;
}

-- A start that succeeds refreshes the client's session or, if it has none, takes a slot for it
-- that was unused, and leaves every other session alone.
pub session_mgr_start-Started :
    (now : ℕ) (frame : List ℕ) (ss : List Session) (i : ℕ)
    → (session_mgr_start now frame ss).0 ≡ some i
    → Started now frame ss i (session_mgr_start now frame ss).1
unfolding session_mgr_start
session_mgr_start-Started now frame ss i e =
    let mac = get_mac frame 6 in
    let id = get_be32 frame 18 in
    elim (Option-cases (session_mgr_find mac id ss)) [
      | inr (k, found) ↦
          let (inside, hit) = session_mgr_find-some mac id k ss found in
          let same : k ≡ i = some_eq (rw (session_mgr_start, found) at e) in
          rw (session_mgr_start, found, ← same)
            (set-Started now frame ss k (refresh now (get_or ss k unused)) inside (inl hit) hit
              refl)
      | inl new ↦ elim (Option-cases (session_mgr_find null_if_addr 0 ss)) [
        | inr (k, slot) ↦
            let (inside, free) = session_mgr_find-some null_if_addr 0 k ss slot in
            let unknown = λ (j : ℕ) (h : j < length ss). session_mgr_find-none mac id j ss new h in
            let same : k ≡ i = some_eq (rw (session_mgr_start, new, slot) at e) in
            let taken = record (get_or ss k unused) { mac_addr = mac; session_id = id } in
            rw (session_mgr_start, new, slot, ← same)
              (set-Started now frame ss k (refresh now taken) inside (inr (free, unknown))
                (is_session_refl mac id (refresh now taken) refl refl) refl)
        | inl full ↦ absurd (not_some (rw (session_mgr_start, new, full) at e))
      ]
    ]

-- A start that fails changes nothing: the client has no session, and no slot is unused.
pub session_mgr_start-none :
    (now : ℕ) (frame : List ℕ) (ss : List Session)
    → (session_mgr_start now frame ss).0 ≡ none
    → ((session_mgr_start now frame ss).1 ≡ ss)
      × ((j : ℕ)
          → j < length ss
          → (is_session (get_mac frame 6) (get_be32 frame 18) (get_or ss j unused) ≡ false)
            × (is_session null_if_addr 0 (get_or ss j unused) ≡ false))
unfolding session_mgr_start session_mgr_find
session_mgr_start-none now frame ss e =
    let mac = get_mac frame 6 in
    let id = get_be32 frame 18 in
    let new : find_from 0 mac id ss ≡ none = ground arith in
    let full : find_from 0 null_if_addr 0 ss ≡ none = ground arith in
    (
      ground arith,
      λ j h. (find_from-none 0 j mac id ss new h, find_from-none 0 j null_if_addr 0 ss full h),
    )
