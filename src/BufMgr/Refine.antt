-- ===== src/BufMgr/Refine.antt =====
-- The buffer manager as two stacks: what it promises its callers, without links and pointers.
use rmtdos_utils.Prelude.{
  ℕ, ◌<◌, ◌≤◌, ◌≡◌, refl, true, not, ◌&&◌, Option, none, some, List, [], ◌∷◌, arith, ◌==◌, ltb,
  if◌then◌else◌, Bool-cases, Option-cases, inl, inr, subst, ap, ap₂,
}
use rmtdos_utils.BufMgr.{
  BufferState, BufMgr, buffer_max_size, buffer_init, buffer_acquire, buffer_mark_ready,
  buffer_get_ready, buffer_release,
}
use rmtdos_utils.BufMgr.Chain.{has}
use rmtdos_utils.BufMgr.Invariant.{
  IsLinked, buffer_acquire-IsLinked, buffer_acquire-none, buffer_mark_ready-IsLinked,
  buffer_get_ready-IsLinked, buffer_release-IsLinked, buffer_get_ready-none,
}
use rmtdos_utils.BufMgr.Run.{indices, buffer_init-IsLinked}

pub data Call : Type 0 where
  acquire : ℕ → Call
  mark_ready : ℕ → Call
  get_ready : Call
  release : ℕ → Call

-- The two stacks, and the buffers that the driver and the protocol code hold.
pub record Pool : Type 0 where
  pub frees : List ℕ
  pub held : List ℕ
  pub readies : List ℕ
  pub used : List ℕ

unfoldable pub erase : ℕ → List ℕ → List ℕ
erase p [] = []
erase p (q ∷ qs) = let rest = erase p qs in if q == p then rest else q ∷ rest

has-erase : (p q : ℕ) (qs : List ℕ) → has q (erase p qs) ≡ (not (q == p) && has q qs)
unfolding erase
has-erase p q [] = ground arith
has-erase p q (r ∷ qs) = ground (arith, has-erase p q qs)

unfoldable pub pop_free : List ℕ → Pool → Option ℕ × Pool
pop_free [] s = (none, s)
pop_free (p ∷ ps) s = (some p, record s { frees = ps; held = p ∷ s.held })

unfoldable pub pop_ready : List ℕ → Pool → Option ℕ × Pool
pop_ready [] s = (none, s)
pop_ready (p ∷ ps) s = (some p, record s { readies = ps; used = p ∷ s.used })

-- The answer to a call and the pool after it; none where the caller breaks the contract.
unfoldable pub promise : Call → Pool → Option (Option ℕ × Pool)
unfolding pop_free pop_ready erase
promise (acquire bytes) s =
    some (if ltb buffer_max_size bytes then (none, s) else pop_free s.frees s)
promise (mark_ready p) s =
    if has p s.held
    then some (none, record s { held = erase p s.held; readies = p ∷ s.readies })
    else none
promise get_ready s = some (pop_ready s.readies s)
promise (release p) s =
    if has p s.used
    then some (none, record s { used = erase p s.used; frees = p ∷ s.frees })
    else none

-- The same call of the code.
unfoldable pub answer : Call → BufMgr → Option ℕ × BufMgr
answer (acquire bytes) m = buffer_acquire bytes m
answer (mark_ready p) m = (none, buffer_mark_ready p m)
answer get_ready m = buffer_get_ready m
answer (release p) m = (none, buffer_release p m)

unfoldable pub promises : List Call → Pool → Option (List (Option ℕ) × Pool)
promises [] s = some ([], s)
promises (c ∷ cs) s = elim (promise c s) [
  | none ↦ none
  | some (r, s1) ↦ elim (promises cs s1) [ none ↦ none | some (rs, s2) ↦ some (r ∷ rs, s2) ]
]

unfoldable pub answers : List Call → BufMgr → List (Option ℕ) × BufMgr
answers [] m = ([], m)
answers (c ∷ cs) m = let (r, m1) = answer c m in let (rs, m2) = answers cs m1 in (r ∷ rs, m2)

-- The links of the manager spell the stacks, and the buffers that callers hold are in their state.
pub record Implements (m : BufMgr) (s : Pool) : Type 0 where
  pub linked : IsLinked m s.frees s.readies
  pub held_ok :
      (p : ℕ) → has p s.held ≡ true → (p < m.count) × ((m.buffers p).state ≡ BufferState.pending)
  pub used_ok :
      (p : ℕ) → has p s.used ≡ true → (p < m.count) × ((m.buffers p).state ≡ BufferState.user)

abbrev pub Agrees : Option ℕ × BufMgr → Option ℕ × Pool → Type 0
Agrees (a, m) (b, s) = (a ≡ b) × Implements m s

acquire-Agrees :
    (bytes : ℕ) (frees : List ℕ) (m : BufMgr) (s : Pool)
    → s.frees ≡ frees
    → Implements m s
    → bytes ≤ buffer_max_size
    → Agrees (buffer_acquire bytes m) (pop_free frees s)
unfolding pop_free buffer_acquire
acquire-Agrees bytes [] m s e i fits =
    rw (buffer_acquire-none bytes s.frees s.readies i.linked (inl e)) (refl, i)
acquire-Agrees bytes (p ∷ ps) m s e i fits =
    let v = rw e at i.linked in
    let k = buffer_acquire-IsLinked bytes p ps v fits in
    let (head, below, is_free, once, tail) = v.free_chain in
    (
      k.0,
      record {
        linked = k.3;
        held_ok = λ q h. ground (arith, i.held_ok q, head, below, is_free);
        used_ok = λ q h. ground (arith, i.used_ok q, head, below, is_free);
      },
    )

get_ready-Agrees :
    (readies : List ℕ) (m : BufMgr) (s : Pool)
    → s.readies ≡ readies
    → Implements m s
    → Agrees (buffer_get_ready m) (pop_ready readies s)
unfolding pop_ready buffer_get_ready
get_ready-Agrees [] m s e i = rw (buffer_get_ready-none (rw e at i.linked)) (refl, i)
get_ready-Agrees (p ∷ ps) m s e i =
    let v = rw e at i.linked in
    let k = buffer_get_ready-IsLinked p ps v in
    let (head, below, is_ready, once, tail) = v.ready_chain in
    (
      k.0,
      record {
        linked = k.2;
        held_ok = λ q h. ground (arith, i.held_ok q, head, below, is_ready);
        used_ok = λ q h. ground (arith, i.used_ok q, head, below, is_ready);
      },
    )

mark_ready-Implements :
    (p : ℕ) (m : BufMgr) (s : Pool)
    → has p s.held ≡ true
    → Implements m s
    → Implements
        (buffer_mark_ready p m)
        (record s { held = erase p s.held; readies = p ∷ s.readies })
unfolding buffer_mark_ready
mark_ready-Implements p m s h i =
    let (below, pending) = i.held_ok p h in
    record {
      linked = buffer_mark_ready-IsLinked p i.linked below pending;
      held_ok = λ q k. ground (arith, i.held_ok q, has-erase p q s.held);
      used_ok = λ q k. ground (arith, i.used_ok q, pending);
    }

release-Implements :
    (p : ℕ) (m : BufMgr) (s : Pool)
    → has p s.used ≡ true
    → Implements m s
    → Implements (buffer_release p m) (record s { used = erase p s.used; frees = p ∷ s.frees })
unfolding buffer_release
release-Implements p m s h i =
    let (below, user) = i.used_ok p h in
    record {
      linked = buffer_release-IsLinked p i.linked below user;
      held_ok = λ q k. ground (arith, i.held_ok q, user);
      used_ok = λ q k. ground (arith, i.used_ok q, has-erase p q s.used);
    }

-- One call of the code keeps the promise.
answer-Agrees :
    (c : Call) (m : BufMgr) (s : Pool) (r : Option ℕ) (s' : Pool)
    → Implements m s
    → promise c s ≡ some (r, s')
    → Agrees (answer c m) (r, s')
unfolding promise answer
answer-Agrees (acquire bytes) m s r s' i e = elim (Bool-cases (ltb buffer_max_size bytes)) [
  | inl long ↦
      rw (buffer_acquire-none bytes s.frees s.readies i.linked (inr (ground arith)))
        (let same : (none, s) ≡ (r, s') = ground arith in subst (Agrees (none, m)) same (refl, i))
  | inr fits ↦
      let a = acquire-Agrees bytes s.frees m s refl i (ground arith) in
      let same : pop_free s.frees s ≡ (r, s') = ground arith in
      subst (Agrees (buffer_acquire bytes m)) same a
]
answer-Agrees (mark_ready p) m s r s' i e = elim (Bool-cases (has p s.held)) [
  | inl held ↦
      let same : (none, record s { held = erase p s.held; readies = p ∷ s.readies }) ≡ (r, s') =
        ground arith in
      subst (Agrees (none, buffer_mark_ready p m)) same (refl, mark_ready-Implements p m s held i)
  | inr other ↦ absurd (ground arith)
]
answer-Agrees get_ready m s r s' i e =
    let same : pop_ready s.readies s ≡ (r, s') = cc in
    subst (Agrees (buffer_get_ready m)) same (get_ready-Agrees s.readies m s refl i)
answer-Agrees (release p) m s r s' i e = elim (Bool-cases (has p s.used)) [
  | inl used ↦
      let same : (none, record s { used = erase p s.used; frees = p ∷ s.frees }) ≡ (r, s') =
        ground arith in
      subst (Agrees (none, buffer_release p m)) same (refl, release-Implements p m s used i)
  | inr other ↦ absurd (ground arith)
]

answers-promises :
    (cs : List Call) (m : BufMgr) (s : Pool) (rs : List (Option ℕ)) (s' : Pool)
    → Implements m s
    → promises cs s ≡ some (rs, s')
    → ((answers cs m).0 ≡ rs) × Implements (answers cs m).1 s'
unfolding answers promises
answers-promises [] m s rs s' i e =
    let same : ◌≡◌ {A = List (Option ℕ) × Pool} ([], s) (rs, s') = cc in
    (ap (λ p. p.0) same, rw (← ap (λ p. p.1) same) i)
answers-promises (c ∷ cs) m s rs s' i e = elim (Option-cases (promise c s)) [
  | inl broken ↦ absurd (ground arith)
  | inr ((r, s1), first) ↦
      let (a, i1) = answer-Agrees c m s r s1 i first in
      elim (Option-cases (promises cs s1)) [
        | inl broken ↦ absurd (ground arith)
        | inr ((rs1, s2), rest) ↦
            let (b, i2) = answers-promises cs (answer c m).1 s1 rs1 s2 i1 rest in
            let same : ◌≡◌ {A = List (Option ℕ) × Pool} (r ∷ rs1, s2) (rs, s') = ground arith in
            subst (λ t. ((answers (c ∷ cs) m).0 ≡ t.0) × Implements (answers (c ∷ cs) m).1 t.1) same
              (ap₂ (λ x xs. x ∷ xs) a b, i2)
      ]
]

-- The manager starts as a pool whose buffers are all free.
abbrev pub full_pool : ℕ → Pool
full_pool count = record { frees = indices count 0; held = []; readies = []; used = [] }

buffer_init-Implements : (count : ℕ) → 0 < count → Implements (buffer_init count) (full_pool count)
buffer_init-Implements count h = record {
  linked = buffer_init-IsLinked count h;
  held_ok = λ p k. absurd (cc);
  used_ok = λ p k. absurd (cc);
}

-- The buffer manager refines two stacks: every sequence of calls by callers that mark and release
-- only what they hold gets from the linked lists the answers that a stack of free and a stack of
-- ready buffers give, and at its end the lists spell the two stacks. The manager has at least one
-- buffer.
pub answers-refine :
    (count : ℕ) (cs : List Call) (rs : List (Option ℕ)) (s : Pool)
    → 0 < count
    → promises cs (full_pool count) ≡ some (rs, s)
    → ((answers cs (buffer_init count)).0 ≡ rs) × Implements (answers cs (buffer_init count)).1 s
answers-refine count cs rs s h e =
    answers-promises cs (buffer_init count) (full_pool count) rs s (buffer_init-Implements count h)
      e
