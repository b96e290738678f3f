-- ===== src/BufMgr/Run.antt =====
-- The buffer manager as the interrupt handlers and the main loop use it: any interleaving.
use rmtdos_utils.Prelude.{
  ℕ, zero, suc, ◌+◌, ◌<◌, ◌≤◌, ◌≡◌, inl, inr, refl, true, false, none, some, List, [], ◌∷◌, arith,
  ltb, if◌then◌else◌, Bool-cases,
}
use rmtdos_utils.BufMgr.{
  update, BufferState, BufMgr, buffer_max_size, buffer_init, buffer_acquire, buffer_mark_ready,
  buffer_get_ready, buffer_release,
}
use rmtdos_utils.BufMgr.Chain.{has, Chain, not_has_of_state, Chain-update}
use rmtdos_utils.BufMgr.Invariant.{
  IsLinked, buffer_acquire-IsLinked, buffer_acquire-none, buffer_mark_ready-IsLinked,
  buffer_get_ready-IsLinked, buffer_release-IsLinked, buffer_get_ready-none,
}

-- The driver's own writes, between the calls with AX = 0 and AX = 1.
abbrev pub fill : ℕ → List ℕ → BufMgr → BufMgr
fill p contents m = record m {
  buffers = update m.buffers p (record (m.buffers p) { contents = contents });
}

-- The packet driver acquires a buffer, and writes to and marks one that it holds; the protocol code takes a ready
-- buffer and releases one that it holds.
pub data Step (m m' : BufMgr) : Type 0 where
  acquires : (bytes : ℕ) → m' ≡ (buffer_acquire bytes m).1 → Step m m'
  fills :
      (p : ℕ) (contents : List ℕ)
      → p < m.count
      → (m.buffers p).state ≡ BufferState.pending
      → m' ≡ fill p contents m
      → Step m m'
  marks :
      (p : ℕ)
      → p < m.count
      → (m.buffers p).state ≡ BufferState.pending
      → m' ≡ buffer_mark_ready p m
      → Step m m'
  takes : m' ≡ (buffer_get_ready m).1 → Step m m'
  releases :
      (p : ℕ)
      → p < m.count
      → (m.buffers p).state ≡ BufferState.user
      → m' ≡ buffer_release p m
      → Step m m'

pub data Reach (m : BufMgr) : BufMgr → Type 0 where
  here : Reach m m
  next : {m' m'' : BufMgr} → Reach m m' → Step m' m'' → Reach m m''

-- The lists that are left after a step.
pub record Linked (m : BufMgr) : Type 0 where
  pub frees : List ℕ
  pub readies : List ℕ
  pub linked : IsLinked m frees readies

-- `n` indices from `i` on.
abbrev pub indices : ℕ → ℕ → List ℕ
indices zero i = []
indices (suc n) i = i ∷ indices n (i + 1)

not_has_before : (n i p : ℕ) → p < i → has p (indices n i) ≡ false
not_has_before zero i p h = refl
not_has_before (suc n) i p h = ground (arith, not_has_before n (i + 1) p)

has_within : (n i p : ℕ) → i ≤ p → p < i + n → has p (indices n i) ≡ true
has_within zero i p h k = absurd (omega arith)
has_within (suc n) i p h k = ground (arith, has_within n (i + 1) p)

-- `buffer_init` leaves the buffers from `i` on linked in order.
init_free :
    (count n i : ℕ)
    → i + n ≡ count
    → Chain count
        (buffer_init count).buffers
        BufferState.free
        (if ltb i count then some i else none)
        (indices n i)
unfolding buffer_init
init_free count zero i e = ground arith
init_free count (suc n) i e = (
  ground arith,
  omega arith,
  refl,
  not_has_before n (i + 1) i (omega arith),
  init_free count n (i + 1) (omega arith),
)

-- At the start all buffers are free, in the order of the array.
pub buffer_init-IsLinked :
    (count : ℕ) → 0 < count → IsLinked (buffer_init count) (indices count 0) []
unfolding buffer_init
buffer_init-IsLinked count h = record {
  free_chain = ground (arith, init_free count count 0);
  ready_chain = refl;
  free_complete = λ p k e. has_within count 0 p (omega arith) (omega arith);
  ready_complete = λ p k e. cc;
}

buffer_acquire-Linked :
    {m : BufMgr} (bytes : ℕ) (frees readies : List ℕ)
    → IsLinked m frees readies
    → Linked (buffer_acquire bytes m).1
buffer_acquire-Linked bytes [] readies v =
    rw (buffer_acquire-none bytes [] readies v (inl refl))
      (record { frees = []; readies = readies; linked = v })
buffer_acquire-Linked bytes (p ∷ ps) readies v = elim (Bool-cases (ltb buffer_max_size bytes)) [
  | inl long ↦
      rw (buffer_acquire-none bytes (p ∷ ps) readies v (inr (ground arith)))
        (record { frees = p ∷ ps; readies = readies; linked = v })
  | inr fits ↦ record {
    frees = ps;
    readies = readies;
    linked = (buffer_acquire-IsLinked bytes p ps v (ground arith)).3;
  }
]

buffer_get_ready-Linked :
    {m : BufMgr} (frees readies : List ℕ) → IsLinked m frees readies → Linked (buffer_get_ready m).1
buffer_get_ready-Linked frees [] v =
    rw (buffer_get_ready-none v) (record { frees = frees; readies = []; linked = v })
buffer_get_ready-Linked frees (p ∷ ps) v = record {
  frees = frees;
  readies = ps;
  linked = (buffer_get_ready-IsLinked p ps v).2;
}

fill-IsLinked :
    {m : BufMgr} (p : ℕ) (contents : List ℕ) (frees readies : List ℕ)
    → IsLinked m frees readies
    → (m.buffers p).state ≡ BufferState.pending
    → IsLinked (fill p contents m) frees readies
fill-IsLinked {m} p contents frees readies v e =
    let node = record (m.buffers p) { contents = contents } in
    let not_free =
      not_has_of_state m.count m.buffers BufferState.free m.free_list frees p v.free_chain
        (ground arith) in
    let not_ready =
      not_has_of_state m.count m.buffers BufferState.ready m.ready_list readies p v.ready_chain
        (ground arith) in
    record {
      free_chain =
          Chain-update m.count m.buffers BufferState.free m.free_list frees p node v.free_chain
            not_free;
      ready_chain =
          Chain-update m.count m.buffers BufferState.ready m.ready_list readies p node v.ready_chain
            not_ready;
      free_complete = λ q h e. ground (arith, v.free_complete q);
      ready_complete = λ q h e. ground (arith, v.ready_complete q);
    }

Step-Linked : {m m' : BufMgr} → Step m m' → Linked m → Linked m'
Step-Linked (acquires bytes e) l = rw e (buffer_acquire-Linked bytes l.frees l.readies l.linked)
Step-Linked (fills p contents h st e) l = record {
  frees = l.frees;
  readies = l.readies;
  linked = rw e (fill-IsLinked p contents l.frees l.readies l.linked st);
}
Step-Linked (marks p h st e) l = record {
  frees = l.frees;
  readies = p ∷ l.readies;
  linked = rw e (buffer_mark_ready-IsLinked p l.linked h st);
}
Step-Linked (takes e) l = rw e (buffer_get_ready-Linked l.frees l.readies l.linked)
Step-Linked (releases p h st e) l = record {
  frees = p ∷ l.frees;
  readies = l.readies;
  linked = rw e (buffer_release-IsLinked p l.linked h st);
}

-- In every state that any interleaving of the driver and the protocol code reaches from a manager
-- with at least one buffer, the two lists are well formed, hold no buffer twice, and hold exactly
-- the free and the ready buffers. The driver writes to and marks only buffers that it holds, and
-- the protocol code releases only buffers that it holds.
pub Reach-Linked : (count : ℕ) {m : BufMgr} → 0 < count → Reach (buffer_init count) m → Linked m
Reach-Linked count h here = record {
  frees = indices count 0;
  readies = [];
  linked = buffer_init-IsLinked count h;
}
Reach-Linked count h (next r st) = Step-Linked st (Reach-Linked count h r)
