-- ===== src/Client/Hosts/Slots.antt =====
-- The list of hosts, its well-formedness, and what its loops find.
use native.Mathlib.Nat.{sub-zero}
use rmtdos_utils.Prelude.{
  ℕ, zero, suc, ◌+◌, ◌-◌, ◌<◌, ◌≤◌, ◌≡◌, ◌≢◌, ◌⊎◌, inl, inr, refl, sym, ap, ◌∙◌, subst, true, false,
  Bool, Option, none, some, [], ◌∷◌, arith, length, get_or, set, length-set, length-replicate,
  replicate, Bool-cases, get_or-set_self, ◌==◌, ==_iff, ltb, ltb→lt,
}
use rmtdos_utils.Wire.{Mac, mac_eq}
use rmtdos_utils.Client.Hosts.{
  RemoteHost, HostList, max_hosts, no_hosts, host_create, has_addr, is_empty, first_slot,
  hostlist_find_by_mac, hostlist_allocate, host_of,
}

-- Every host tells its own slot, and no two hosts have one address.
pub record IsHostList (hosts : HostList) : Type 0 where
  pub sized : length hosts ≡ max_hosts
  pub numbered : (i : ℕ) (rh : RemoteHost) → get_or hosts i none ≡ some rh → rh.index ≡ i
  pub unique :
      (mac : Mac) (i j : ℕ)
      → has_addr mac (get_or hosts i none) ≡ true
      → has_addr mac (get_or hosts j none) ≡ true
      → i ≡ j

-- Before the first host.
no_hosts_empty : (n i : ℕ) → get_or (replicate {A = Option RemoteHost} n none) i none ≡ none
no_hosts_empty zero i = refl
no_hosts_empty (suc n) zero = refl
no_hosts_empty (suc n) (suc i) = no_hosts_empty n i

pub no_hosts_nowhere : (i : ℕ) (rh : RemoteHost) → get_or no_hosts i none ≡ some rh → ⊥
unfolding no_hosts
no_hosts_nowhere i rh at = not_there (sym (no_hosts_empty max_hosts i) ∙ at)
  where
    not_there : {rh : RemoteHost} → none ≡ some rh → ⊥
    not_there e = cc

pub no_hosts-IsHostList : IsHostList no_hosts
unfolding no_hosts has_addr
no_hosts-IsHostList = record {
  sized = length-replicate {A = Option RemoteHost} max_hosts none;
  numbered = λ i rh at. absurd (no_hosts_nowhere i rh at);
  unique = λ mac i j hi hj. absurd (not_true (rw (no_hosts_empty max_hosts i) at hi));
}
  where
    not_true : false ≡ true → ⊥
    not_true e = cc

get_or_beyond : (hosts : HostList) (i : ℕ) → length hosts ≤ i → get_or hosts i none ≡ none
get_or_beyond [] i h = refl
get_or_beyond (x ∷ xs) zero h = absurd (omega arith)
get_or_beyond (x ∷ xs) (suc i) h = get_or_beyond xs i (omega arith)

pub get_or-set_other :
    (hosts : HostList) (i j : ℕ) (v : Option RemoteHost)
    → i ≢ j
    → get_or (set hosts i v) j none ≡ get_or hosts j none
get_or-set_other [] i j v h = refl
get_or-set_other (s ∷ ss) zero zero v h = absurd (h refl)
get_or-set_other (s ∷ ss) zero (suc j) v h = refl
get_or-set_other (s ∷ ss) (suc i) zero v h = refl
get_or-set_other (s ∷ ss) (suc i) (suc j) v h = get_or-set_other ss i j v (λ e. h (ap suc e))

pub set-set :
    (hosts : HostList) (i : ℕ) (v w : Option RemoteHost) → set (set hosts i v) i w ≡ set hosts i w
set-set [] i v w = refl
set-set (s ∷ ss) zero v w = refl
set-set (s ∷ ss) (suc i) v w = ap (λ r. s ∷ r) (set-set ss i v w)

pub first_slot-some :
    (test : Option RemoteHost → Bool) (k i : ℕ) (hosts : HostList)
    → first_slot test k hosts ≡ some i
    → (k ≤ i) × (i < k + length hosts) × (test (get_or hosts (i - k) none) ≡ true)
unfolding first_slot
first_slot-some test k i [] e = cc
first_slot-some test k i (s ∷ ss) e = elim (Bool-cases (test s)) [
  | inl hit ↦ let same : i ≡ k = ground arith in (omega arith, omega arith, rw (first same) hit)
  | inr miss ↦
      let later = first_slot-some test (k + 1) i ss (rw miss at e) in
      (omega (arith, later.0), omega (arith, later.1), rw (next later.0) (later.2))
]
  where
    first : i ≡ k → i - k ≡ 0
    first same = omega arith

    next : k + 1 ≤ i → i - k ≡ suc (i - (k + 1))
    next h = omega arith

pub first_slot-none :
    (test : Option RemoteHost → Bool) (k j : ℕ) (hosts : HostList)
    → first_slot test k hosts ≡ none
    → j < length hosts
    → test (get_or hosts j none) ≡ false
unfolding first_slot
first_slot-none test k j [] e h = absurd (omega arith)
first_slot-none test k zero (s ∷ ss) e h = ground arith
first_slot-none test k (suc j) (s ∷ ss) e h = ground (arith, first_slot-none test (k + 1) j ss)

mac_eq_same : (a b : Mac) → mac_eq a b ≡ true → a ≡ b
unfolding mac_eq
mac_eq_same a b h = ground arith

pub mac_eq_self : (a : Mac) → mac_eq a a ≡ true
unfolding mac_eq
mac_eq_self a = ground arith

-- A slot after a write is the one written, or it is another and as it was.
set_cases :
    (hosts : HostList) (i j : ℕ) (v : Option RemoteHost)
    → i < length hosts
    → ((i ≡ j) × (get_or (set hosts i v) j none ≡ v))
      ⊎ ((i ≢ j) × (get_or (set hosts i v) j none ≡ get_or hosts j none))
set_cases hosts i j v h = elim (Bool-cases (i == j)) [
  | inl e ↦
      let same : i ≡ j = (==_iff i j).0 e in
      inl (same, rw (← same) (get_or-set_self hosts i v none h))
  | inr e ↦ let other : i ≢ j = ground arith in inr (other, get_or-set_other hosts i j v other)
]

-- Of a list that is well formed, no other slot has the address of a host.
pub others-unknown :
    (mac : Mac) (i j : ℕ) (hosts : HostList)
    → IsHostList hosts
    → has_addr mac (get_or hosts i none) ≡ true
    → i ≢ j
    → has_addr mac (get_or hosts j none) ≡ false
others-unknown mac i j hosts ok hit ne = elim (Bool-cases (has_addr mac (get_or hosts j none))) [
  | inl hit2 ↦ absurd (ne (ok.unique mac i j hit hit2))
  | inr free ↦ free
]

-- A host whose address no other slot has can be put into its slot.
pub set-IsHostList :
    (hosts : HostList) (i : ℕ) (rh : RemoteHost)
    → IsHostList hosts
    → i < max_hosts
    → rh.index ≡ i
    → ((j : ℕ) → i ≢ j → has_addr rh.if_addr (get_or hosts j none) ≡ false)
    → IsHostList (set hosts i (some rh))
unfolding has_addr
set-IsHostList hosts i rh ok h idx alone = record {
  sized = length-set hosts i (some rh) ∙ ok.sized;
  numbered = λ j other at. elim (set_cases hosts i j (some rh) inside) [
    | inl (same, new) ↦ written other (sym new ∙ at) ∙ same
    | inr (differ, old) ↦ ok.numbered j other (sym old ∙ at)
  ];
  unique = λ mac j k hj hk. elim (set_cases hosts i j (some rh) inside) [
    | inl (same, new) ↦ elim (set_cases hosts i k (some rh) inside) [
      | inl (same2, new2) ↦ sym same ∙ same2
      | inr (differ, old) ↦
          absurd (clash mac (get_or hosts k none) (rw new at hj) (rw old at hk) (alone k differ))
    ]
    | inr (differ, old) ↦ elim (set_cases hosts i k (some rh) inside) [
      | inl (same, new) ↦
          absurd (clash mac (get_or hosts j none) (rw new at hk) (rw old at hj) (alone j differ))
      | inr (differ2, old2) ↦ ok.unique mac j k (rw old at hj) (rw old2 at hk)
    ]
  ];
}
  where
    inside : i < length hosts
    inside = omega (arith, ok.sized)

    clash :
        (mac : Mac) (slot : Option RemoteHost)
        → has_addr mac (some rh) ≡ true
        → has_addr mac slot ≡ true
        → has_addr rh.if_addr slot ≡ false
        → ⊥
    clash mac slot new old free =
        let free2 : has_addr mac slot ≡ false = rw (mac_eq_same rh.if_addr mac new) at free in cc

    written : (other : RemoteHost) → some rh ≡ some other → other.index ≡ i
    written other e = cc

-- A host that keeps its index and its address can be put back.
pub update-IsHostList :
    (hosts : HostList) (i : ℕ) (old rh : RemoteHost)
    → IsHostList hosts
    → i < length hosts
    → get_or hosts i none ≡ some old
    → rh.index ≡ old.index
    → rh.if_addr ≡ old.if_addr
    → IsHostList (set hosts i (some rh))
unfolding has_addr
update-IsHostList hosts i old rh ok inside there idx addr =
    set-IsHostList hosts i rh ok (omega (arith, ok.sized)) (idx ∙ ok.numbered i old there)
      (λ j ne. rw addr (others-unknown old.if_addr i j hosts ok (rw there (known old)) ne))
  where
    known : (rh : RemoteHost) → has_addr rh.if_addr (some rh) ≡ true
    known rh = mac_eq_self rh.if_addr

-- What all hosts have.
abbrev pub Everywhere : (RemoteHost → Type 0) → HostList → Type 0
Everywhere P hosts = (i : ℕ) (rh : RemoteHost) → get_or hosts i none ≡ some rh → P rh

pub set-Everywhere :
    (P : RemoteHost → Type 0) (hosts : HostList) (i : ℕ) (rh : RemoteHost)
    → i < length hosts
    → Everywhere P hosts
    → P rh
    → Everywhere P (set hosts i (some rh))
set-Everywhere P hosts i rh inside all new j other at =
    elim (set_cases hosts i j (some rh) inside) [
      | inl (same, written) ↦ subst P (the_same (sym written ∙ at)) new
      | inr (differ, old) ↦ all j other (sym old ∙ at)
    ]
  where
    the_same : {a b : RemoteHost} → some a ≡ some b → a ≡ b
    the_same e = cc

-- A slot with an address is not empty.
pub has_addr-host_of :
    (mac : Mac) (slot : Option RemoteHost)
    → has_addr mac slot ≡ true
    → (slot ≡ some (host_of slot)) × ((host_of slot).if_addr ≡ mac)
unfolding has_addr
has_addr-host_of mac none e = cc
has_addr-host_of mac (some rh) e = (refl, mac_eq_same rh.if_addr mac e)

pub find_by_mac-some :
    (mac : Mac) (i : ℕ) (hosts : HostList)
    → hostlist_find_by_mac mac hosts ≡ some i
    → (i < length hosts) × (has_addr mac (get_or hosts i none) ≡ true)
unfolding hostlist_find_by_mac
find_by_mac-some mac i hosts e =
    let (_, inside, hit) = first_slot-some (has_addr mac) 0 i hosts e in
    (omega arith, simp sub-zero at hit)

pub find_by_mac-none :
    (mac : Mac) (j : ℕ) (hosts : HostList)
    → hostlist_find_by_mac mac hosts ≡ none
    → has_addr mac (get_or hosts j none) ≡ false
unfolding hostlist_find_by_mac has_addr
find_by_mac-none mac j hosts e = elim (Bool-cases (ltb j (length hosts))) [
  | inl h ↦ first_slot-none (has_addr mac) 0 j hosts e (ltb→lt j (length hosts) h)
  | inr h ↦ rw (get_or_beyond hosts j (ground arith)) refl
]

pub is_empty-none : (slot : Option RemoteHost) → is_empty slot ≡ true → slot ≡ none
unfolding is_empty
is_empty-none none e = refl
is_empty-none (some rh) e = cc

pub allocate-full :
    (hosts : HostList)
    → first_slot is_empty 0 hosts ≡ none
    → hostlist_allocate hosts ≡ (none, hosts)
unfolding hostlist_allocate
allocate-full hosts full = rw (hostlist_allocate, full) refl

pub allocate-free :
    (i : ℕ) (hosts : HostList)
    → first_slot is_empty 0 hosts ≡ some i
    → hostlist_allocate hosts ≡ (some i, set hosts i (some (record host_create { index = i })))
unfolding hostlist_allocate
allocate-free i hosts free = rw (hostlist_allocate, free) refl
