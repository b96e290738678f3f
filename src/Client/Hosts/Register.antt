-- ===== src/Client/Hosts/Register.antt =====
-- What registering a packet does to the list of hosts.
use native.Mathlib.Nat.{sub-zero}
use rmtdos_utils.Prelude.{
  ℕ, ◌<◌, ◌≡◌, ◌≢◌, ◌⊎◌, inl, inr, refl, ◌∙◌, true, false, Bool, none, some, List, arith, length,
  get_or, set, get_be16, Option-cases, get_or-set_self, ◌==◌, if_intro, if◌then◌else◌,
}
use rmtdos_utils.Wire.{Mac, get_mac}
use rmtdos_utils.Wire.PktType
use rmtdos_utils.Client.Hosts.{
  RemoteHost, HostList, max_hosts, host_create, has_addr, is_empty, first_slot,
  hostlist_find_by_mac, status_of, record_response, host_at, hostlist_register,
}
use rmtdos_utils.Client.Hosts.Slots.{
  IsHostList, get_or-set_other, set-set, find_by_mac-some, find_by_mac-none, others-unknown,
  is_empty-none, allocate-full, allocate-free, first_slot-some, first_slot-none, has_addr-host_of,
  set-IsHostList,
}

-- A slot that the sender may have: its own, or an empty one while it has none.
abbrev pub Claimable : Mac → HostList → ℕ → Type 0
Claimable mac hosts i =
    (has_addr mac (get_or hosts i none) ≡ true)
    ⊎ ((is_empty (get_or hosts i none) ≡ true)
        × ((j : ℕ) → has_addr mac (get_or hosts j none) ≡ false))

-- The sender of a packet is the host at slot `i`, heard of now, with what the packet says of its
-- screen if it says something; the other slots are as they were.
pub record Heard (now : ℕ) (packet : List ℕ) (hosts : HostList) (i : ℕ) (rh : RemoteHost)
    (hosts' : HostList) : Type 0 where
  pub before : Claimable (get_mac packet 6) hosts i
  pub at_slot : get_or hosts' i none ≡ some rh
  pub numbered : rh.index ≡ i
  pub sender : rh.if_addr ≡ get_mac packet 6
  pub just_now : rh.tv_last_resp ≡ now
  pub screen : rh.status ≡ (
      if get_be16 packet 24 == PktType.status_resp
      then status_of packet
      else (host_at hosts i).status)
  pub others : (j : ℕ) → i ≢ j → get_or hosts' j none ≡ get_or hosts j none

-- No host is the sender, and no slot is empty.
pub record Crowded (mac : Mac) (hosts : HostList) : Type 0 where
  pub taken : (i : ℕ) → i < max_hosts → is_empty (get_or hosts i none) ≡ false
  pub unknown : (i : ℕ) → has_addr mac (get_or hosts i none) ≡ false

abbrev is_response : List ℕ → Bool
is_response packet = get_be16 packet 24 == PktType.status_resp

-- What a packet changes of a host.
module _ (now : ℕ) (packet : List ℕ) (rh : RemoteHost) where
  index-record_response : (record_response now packet rh).index ≡ rh.index
  unfolding record_response
  index-record_response =
      if_intro (λ (r : RemoteHost). r.index ≡ rh.index) (is_response packet) refl refl

  if_addr-record_response : (record_response now packet rh).if_addr ≡ rh.if_addr
  unfolding record_response
  if_addr-record_response =
      if_intro (λ (r : RemoteHost). r.if_addr ≡ rh.if_addr) (is_response packet) refl refl

  time-record_response : (record_response now packet rh).tv_last_resp ≡ now
  unfolding record_response
  time-record_response =
      if_intro (λ (r : RemoteHost). r.tv_last_resp ≡ now) (is_response packet) refl refl

  status-record_response :
      (record_response now packet rh).status
      ≡ (if is_response packet then status_of packet else rh.status)
  unfolding record_response
  status-record_response = both (is_response packet)
    where
      after : Bool → RemoteHost
      after b =
          if b
          then record rh { tv_last_resp = now; status = status_of packet }
          else record rh { tv_last_resp = now }

      both : (b : Bool) → (after b).status ≡ (if b then status_of packet else rh.status)
      both true = refl
      both false = refl

-- The list after a packet was recorded at a slot for its sender, a known host or a new one.
module _ (now : ℕ) (packet : List ℕ) (hosts : HostList) (i : ℕ) (rh : RemoteHost)
    (ok : IsHostList hosts) (inside : i < length hosts) (idx : rh.index ≡ i)
    (addr : rh.if_addr ≡ get_mac packet 6) where
  set-Heard :
      Claimable (get_mac packet 6) hosts i
      → rh.status ≡ (host_at hosts i).status
      → Heard now packet hosts i
          (record_response now packet rh)
          (set hosts i (some (record_response now packet rh)))
  set-Heard before old = record {
    before = before;
    at_slot = get_or-set_self hosts i _ none inside;
    numbered = index-record_response now packet rh ∙ idx;
    sender = if_addr-record_response now packet rh ∙ addr;
    just_now = time-record_response now packet rh;
    screen = rw (← old) (status-record_response now packet rh);
    others = λ j ne. get_or-set_other hosts i j _ ne;
  }

  recorded-IsHostList :
      ((j : ℕ) → i ≢ j → has_addr (get_mac packet 6) (get_or hosts j none) ≡ false)
      → IsHostList (set hosts i (some (record_response now packet rh)))
  recorded-IsHostList alone =
      set-IsHostList hosts i (record_response now packet rh) ok (omega (arith, ok.sized))
        (index-record_response now packet rh ∙ idx)
        (λ j ne. rw (if_addr-record_response now packet rh, addr) (alone j ne))

abbrev pub newcomer : ℕ → Mac → RemoteHost
newcomer i mac = record host_create { index = i; if_addr = mac }

-- What registering a packet does: the sender is heard, or the list is full of other hosts.
abbrev pub Registered : ℕ → List ℕ → HostList → HostList → Type 0
Registered now packet hosts hosts' =
    ((i : ℕ) × (rh : RemoteHost) × Heard now packet hosts i rh hosts')
    ⊎ (Crowded (get_mac packet 6) hosts × (hosts' ≡ hosts))

module _ (now : ℕ) (packet : List ℕ) (hosts : HostList) (ok : IsHostList hosts) where
  known-Registered :
      (i : ℕ)
      → hostlist_find_by_mac (get_mac packet 6) hosts ≡ some i
      → IsHostList (hostlist_register now packet hosts)
        × Registered now packet hosts (hostlist_register now packet hosts)
  unfolding hostlist_register
  known-Registered i found =
      let (inside, hit) = find_by_mac-some (get_mac packet 6) i hosts found in
      let (there, addr) = has_addr-host_of (get_mac packet 6) (get_or hosts i none) hit in
      let idx = ok.numbered i (host_at hosts i) there in
      let alone = λ (j : ℕ) (ne : i ≢ j). others-unknown (get_mac packet 6) i j hosts ok hit ne in
      rw (hostlist_register, found)
        (
          recorded-IsHostList now packet hosts i (host_at hosts i) ok inside idx addr alone,
          inl (
            i,
            _,
            set-Heard now packet hosts i (host_at hosts i) ok inside idx addr (inl hit) refl,
          ),
        )

  pub register-full :
      hostlist_find_by_mac (get_mac packet 6) hosts ≡ none
      → first_slot is_empty 0 hosts ≡ none
      → hostlist_register now packet hosts ≡ hosts
  unfolding hostlist_register
  register-full unknown full =
      rw (hostlist_register, unknown, allocate-full hosts full, allocate-full hosts full) refl

  pub register-new :
      (i : ℕ)
      → hostlist_find_by_mac (get_mac packet 6) hosts ≡ none
      → first_slot is_empty 0 hosts ≡ some i
      → i < length hosts
      → hostlist_register now packet hosts
        ≡ set hosts i (some (record_response now packet (newcomer i (get_mac packet 6))))
  unfolding hostlist_register
  register-new i unknown free inside =
      rw
        (
          hostlist_register,
          unknown,
          allocate-free i hosts free,
          allocate-free i hosts free,
          get_or-set_self hosts i (some (record host_create { index = i })) none inside,
          set-set,
        )
        refl

  new-Registered :
      hostlist_find_by_mac (get_mac packet 6) hosts ≡ none
      → IsHostList (hostlist_register now packet hosts)
        × Registered now packet hosts (hostlist_register now packet hosts)
  new-Registered unknown = elim (Option-cases (first_slot is_empty 0 hosts)) [
    | inl full ↦ rw (register-full unknown full) (
      ok,
      inr (
        record {
          taken = λ i h. first_slot-none is_empty 0 i hosts full (omega (arith, ok.sized));
          unknown = λ i. find_by_mac-none (get_mac packet 6) i hosts unknown;
        },
        refl,
      ),
    )
    | inr (i, free) ↦
        let (_, below, hit) = first_slot-some is_empty 0 i hosts free in
        let inside : i < length hosts = omega arith in
        let clear : is_empty (get_or hosts i none) ≡ true = simp sub-zero at hit in
        let empty : get_or hosts i none ≡ none = is_empty-none (get_or hosts i none) clear in
        let alone = λ (j : ℕ) (ne : i ≢ j). find_by_mac-none (get_mac packet 6) j hosts unknown in
        let rh = newcomer i (get_mac packet 6) in
        rw (register-new i unknown free inside) (
          recorded-IsHostList now packet hosts i rh ok inside refl refl alone,
          inl (
            i,
            _,
            set-Heard now packet hosts i rh ok inside refl refl
                (inr (clear, λ j. find_by_mac-none (get_mac packet 6) j hosts unknown))
                (rw empty refl),
          ),
        )
  ]

  -- Registering a packet keeps the list well formed, and the sender is a host that was heard of
  -- now, at its own slot or, if it had none, at one that was empty, with the other slots as they
  -- were; or nothing changes, since all slots are taken by other hosts.
  pub hostlist_register-Registered :
      IsHostList (hostlist_register now packet hosts)
      × Registered now packet hosts (hostlist_register now packet hosts)
  hostlist_register-Registered =
      elim (Option-cases (hostlist_find_by_mac (get_mac packet 6) hosts)) [
        | inl unknown ↦ new-Registered unknown
        | inr (i, found) ↦ known-Registered i found
      ]
