-- ===== src/BufMgr/Invariant.antt =====
-- The two lists of the buffer manager hold exactly the free and the ready buffers; each operation
-- is an operation on two stacks.
use rmtdos_utils.Prelude.{
  ℕ, ◌<◌, ◌≤◌, ◌≡◌, refl, true, none, some, List, [], ◌∷◌, arith, ◌⊎◌, replicate,
}
use rmtdos_utils.BufMgr.{
  BufferState, Buffer, BufMgr, buffer_max_size, buffer_acquire, buffer_mark_ready, buffer_get_ready,
  buffer_release, update,
}
use rmtdos_utils.BufMgr.Chain.{has, Chain, not_has_of_state, Chain-update}

pub record IsLinked (m : BufMgr) (frees readies : List ℕ) : Type 0 where
  pub free_chain : Chain m.count m.buffers BufferState.free m.free_list frees
  pub ready_chain : Chain m.count m.buffers BufferState.ready m.ready_list readies
  pub free_complete :
      (p : ℕ) → p < m.count → (m.buffers p).state ≡ BufferState.free → has p frees ≡ true
  pub ready_complete :
      (p : ℕ) → p < m.count → (m.buffers p).state ≡ BufferState.ready → has p readies ≡ true

-- The manager after `buffer_acquire` handed out `p`.
abbrev acquired : ℕ → ℕ → BufMgr → BufMgr
acquired bytes p m = record m {
  free_list = (m.buffers p).next;
  buffers =
      update m.buffers p
        (record (m.buffers p) { bytes = bytes; state = BufferState.pending; next = none });
}

acquire-acquired :
    (bytes p : ℕ) (m : BufMgr)
    → m.free_list ≡ some p
    → bytes ≤ buffer_max_size
    → buffer_acquire bytes m ≡ (some p, acquired bytes p m)
unfolding buffer_acquire
acquire-acquired bytes p m e h = ground arith

abbrev consumed : ℕ → BufMgr → BufMgr
consumed p m = record m {
  ready_list = (m.buffers p).next;
  buffers = update m.buffers p (record (m.buffers p) { state = BufferState.user; next = none });
}

get_ready-consumed :
    (p : ℕ) (m : BufMgr) → m.ready_list ≡ some p → buffer_get_ready m ≡ (some p, consumed p m)
unfolding buffer_get_ready
get_ready-consumed p m e = ground arith

-- Without a free buffer, or for a packet that is too long, the driver gets none and nothing
-- changes. The lists are well formed.
pub buffer_acquire-none :
    {m : BufMgr} (bytes : ℕ) (frees readies : List ℕ)
    → IsLinked m frees readies
    → (frees ≡ []) ⊎ (buffer_max_size < bytes)
    → buffer_acquire bytes m ≡ (none, m)
unfolding buffer_acquire
buffer_acquire-none bytes [] readies v h = ground (arith, v.free_chain)
buffer_acquire-none bytes (p ∷ ps) readies v h = ground (arith, v.free_chain.0)

module _ {m : BufMgr} {readies : List ℕ} where
  -- With a free buffer and a packet that fits, the driver gets the head of the free list, now
  -- pending and with the packet's length, and the lists stay well formed without it.
  pub buffer_acquire-IsLinked :
      (bytes p : ℕ) (ps : List ℕ)
      → IsLinked m (p ∷ ps) readies
      → bytes ≤ buffer_max_size
      → ((buffer_acquire bytes m).0 ≡ some p)
        × (((buffer_acquire bytes m).1.buffers p).state ≡ BufferState.pending)
        × (((buffer_acquire bytes m).1.buffers p).bytes ≡ bytes)
        × IsLinked (buffer_acquire bytes m).1 ps readies
  buffer_acquire-IsLinked bytes p ps v fits =
      let node = record (m.buffers p) { bytes = bytes; state = BufferState.pending; next = none } in
      let (head, below, is_free, once, tail) = v.free_chain in
      let out =
        not_has_of_state m.count m.buffers BufferState.ready m.ready_list readies p v.ready_chain
          (ground arith) in
      rw (acquire-acquired bytes p m head fits) (
        refl,
        ground arith,
        ground arith,
        record {
          free_chain =
              Chain-update m.count m.buffers BufferState.free (m.buffers p).next ps p node tail
                once;
          ready_chain =
              Chain-update m.count m.buffers BufferState.ready m.ready_list readies p node
                v.ready_chain out;
          free_complete = λ q h e. ground (arith, v.free_complete q);
          ready_complete = λ q h e. ground (arith, v.ready_complete q);
        },
      )

module _ {m : BufMgr} {frees readies : List ℕ} where
  -- The driver's buffer becomes the next to be consumed.
  pub buffer_mark_ready-IsLinked :
      (p : ℕ)
      → IsLinked m frees readies
      → p < m.count
      → (m.buffers p).state ≡ BufferState.pending
      → IsLinked (buffer_mark_ready p m) frees (p ∷ readies)
  unfolding buffer_mark_ready
  buffer_mark_ready-IsLinked p v h e =
      let node = record (m.buffers p) { state = BufferState.ready; next = m.ready_list } in
      let not_free =
        not_has_of_state m.count m.buffers BufferState.free m.free_list frees p v.free_chain
          (ground arith) in
      let not_ready =
        not_has_of_state m.count m.buffers BufferState.ready m.ready_list readies p v.ready_chain
          (ground arith) in
      let c =
        Chain-update m.count m.buffers BufferState.ready m.ready_list readies p node v.ready_chain
          not_ready in
      record {
        free_chain =
            Chain-update m.count m.buffers BufferState.free m.free_list frees p node v.free_chain
              not_free;
        ready_chain = (refl, h, ground arith, not_ready, ground (arith, c));
        free_complete = λ q h e. ground (arith, v.free_complete q);
        ready_complete = λ q h e. ground (arith, v.ready_complete q);
      }

  -- A consumed buffer becomes the next to be handed out.
  pub buffer_release-IsLinked :
      (p : ℕ)
      → IsLinked m frees readies
      → p < m.count
      → (m.buffers p).state ≡ BufferState.user
      → IsLinked (buffer_release p m) (p ∷ frees) readies
  unfolding buffer_release
  buffer_release-IsLinked p v h e =
      let node : Buffer = record {
        contents = replicate buffer_max_size 0;
        state = BufferState.free;
        bytes = 0;
        next = m.free_list;
      } in
      let not_free =
        not_has_of_state m.count m.buffers BufferState.free m.free_list frees p v.free_chain
          (ground arith) in
      let not_ready =
        not_has_of_state m.count m.buffers BufferState.ready m.ready_list readies p v.ready_chain
          (ground arith) in
      let c =
        Chain-update m.count m.buffers BufferState.free m.free_list frees p node v.free_chain
          not_free in
      record {
        free_chain = (refl, h, ground arith, not_free, ground (arith, c));
        ready_chain =
            Chain-update m.count m.buffers BufferState.ready m.ready_list readies p node
              v.ready_chain not_ready;
        free_complete = λ q h e. ground (arith, v.free_complete q);
        ready_complete = λ q h e. ground (arith, v.ready_complete q);
      }

module _ {m : BufMgr} {frees : List ℕ} where
  -- The consumer gets the buffer that was marked last, and the lists stay well formed without it.
  pub buffer_get_ready-IsLinked :
      (p : ℕ) (ps : List ℕ)
      → IsLinked m frees (p ∷ ps)
      → ((buffer_get_ready m).0 ≡ some p)
        × (((buffer_get_ready m).1.buffers p).state ≡ BufferState.user)
        × IsLinked (buffer_get_ready m).1 frees ps
  buffer_get_ready-IsLinked p ps v =
      let node = record (m.buffers p) { state = BufferState.user; next = none } in
      let (head, below, is_ready, once, tail) = v.ready_chain in
      let out =
        not_has_of_state m.count m.buffers BufferState.free m.free_list frees p v.free_chain
          (ground arith) in
      rw (get_ready-consumed p m head) (
        refl,
        ground arith,
        record {
          free_chain =
              Chain-update m.count m.buffers BufferState.free m.free_list frees p node v.free_chain
                out;
          ready_chain =
              Chain-update m.count m.buffers BufferState.ready (m.buffers p).next ps p node tail
                once;
          free_complete = λ q h e. ground (arith, v.free_complete q);
          ready_complete = λ q h e. ground (arith, v.ready_complete q);
        },
      )

-- Without a ready buffer the consumer gets none and nothing changes.
pub buffer_get_ready-none :
    {m : BufMgr} {frees : List ℕ} → IsLinked m frees [] → buffer_get_ready m ≡ (none, m)
unfolding buffer_get_ready
buffer_get_ready-none v = ground (arith, v.ready_chain)
