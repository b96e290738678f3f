-- ===== src/BufMgr.antt =====
-- The buffer manager, tools/cga-web/src/server/bufmgr.c and bufmgr.h. A pointer to a buffer is its
-- index in `g_buffers`; the array is a function of the index, with its length beside it.
pub mod Chain
pub mod Invariant
pub mod Refine
pub mod Run
use rmtdos_utils.Prelude.{
  ℕ, ◌+◌, ◌-◌, Bool, true, false, Option, none, some, List, ◌==◌, ◌||◌, ltb, if◌then◌else◌,
  replicate, u16,
}

-- `enum BufferState`
pub data BufferState : Type 0 where
  free pending ready user : BufferState

abbrev pub buffer_max_size : ℕ
buffer_max_size = 1504

pub record Buffer : Type 0 where
  pub state : BufferState
  pub bytes : ℕ
  pub next : Option ℕ
  pub contents : List ℕ

-- The globals of bufmgr.c.
pub record BufMgr : Type 0 where
  pub count : ℕ
  pub buffers : ℕ → Buffer
  pub free_list : Option ℕ
  pub ready_list : Option ℕ

abbrev pub update : (ℕ → Buffer) → ℕ → Buffer → ℕ → Buffer
update f p b q = if p == q then b else f q

-- `buffer_init` with the memory that `malloc` gave; the loop sets `next` of all but the last.
unfoldable pub buffer_init : ℕ → BufMgr
buffer_init count = record {
  count = count;
  buffers = λ i. record {
    state = free;
    bytes = 0;
    next = if ltb (i + 1) count then some (i + 1) else none;
    contents = replicate buffer_max_size 0;
  };
  free_list = some 0;
  ready_list = none;
}

unfoldable pub buffer_acquire : ℕ → BufMgr → Option ℕ × BufMgr
buffer_acquire bytes m = elim m.free_list [
  | none ↦ (none, m)
  | some p ↦
      let node = m.buffers p in
      if ltb buffer_max_size bytes then (none, m) else (
        some p,
        record m {
          free_list = node.next;
          buffers =
              update m.buffers p (record node { bytes = bytes; state = pending; next = none });
        },
      )
]

unfoldable pub buffer_mark_ready : ℕ → BufMgr → BufMgr
buffer_mark_ready p m = record m {
  buffers = update m.buffers p (record (m.buffers p) { state = ready; next = m.ready_list });
  ready_list = some p;
}

unfoldable pub buffer_get_ready : BufMgr → Option ℕ × BufMgr
buffer_get_ready m = elim m.ready_list [
  | none ↦ (none, m)
  | some p ↦ (
    some p,
    record m {
      ready_list = (m.buffers p).next;
      buffers = update m.buffers p (record (m.buffers p) { state = user; next = none });
    },
  )
]

unfoldable pub buffer_release : ℕ → BufMgr → BufMgr
buffer_release p m = record m {
  buffers = update m.buffers p (record {
    contents = replicate buffer_max_size 0;
    state = free;
    bytes = 0;
    next = m.free_list;
  });
  free_list = some p;
}
