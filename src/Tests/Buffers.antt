-- ===== src/Tests/Buffers.antt =====
-- A packet on its way through two buffers.
use rmtdos_utils.Prelude.{ℕ, List, Option, ◌≡◌, refl, arith, [], ◌∷◌, some, none}
use rmtdos_utils.BufMgr.{
  BufMgr, buffer_init, buffer_acquire, buffer_mark_ready, buffer_get_ready, buffer_release,
}
use rmtdos_utils.BufMgr.Invariant.{
  IsLinked, buffer_acquire-IsLinked, buffer_mark_ready-IsLinked, buffer_get_ready-IsLinked,
  buffer_release-IsLinked,
}
use rmtdos_utils.BufMgr.Refine.{
  Call, Pool, acquire, mark_ready, get_ready, release, promise, promises, answers, answers-refine,
  Implements,
}
use rmtdos_utils.BufMgr.Run.{
  Linked, Reach-Linked, here, next, acquires, fill, fills, marks, takes, releases,
  buffer_init-IsLinked,
}

abbrev start : BufMgr
start = buffer_init 2

start-IsLinked : IsLinked start (0 ∷ 1 ∷ []) []
start-IsLinked = buffer_init-IsLinked 2 (omega arith)

abbrev held : BufMgr
held = (buffer_acquire 60 start).1

abbrev pub marked : BufMgr
marked = buffer_mark_ready 0 held

abbrev taken : BufMgr
taken = (buffer_get_ready marked).1

abbrev released : BufMgr
released = buffer_release 0 taken

held-IsLinked : IsLinked held (1 ∷ []) []
held-IsLinked = (buffer_acquire-IsLinked 60 0 (1 ∷ []) start-IsLinked (omega arith)).3

buffer_mark_ready-IsLinked_example : IsLinked marked (1 ∷ []) (0 ∷ [])
unfolding buffer_acquire buffer_init
buffer_mark_ready-IsLinked_example = buffer_mark_ready-IsLinked 0 held-IsLinked (omega arith) refl

pub marked-IsLinked : IsLinked marked (1 ∷ []) (0 ∷ [])
unfolding buffer_acquire buffer_init
marked-IsLinked = buffer_mark_ready-IsLinked 0 held-IsLinked (omega arith) refl

taken-IsLinked : IsLinked taken (1 ∷ []) []
taken-IsLinked = (buffer_get_ready-IsLinked 0 [] marked-IsLinked).2

buffer_release-IsLinked_example : IsLinked released (0 ∷ 1 ∷ []) []
unfolding buffer_acquire buffer_init buffer_mark_ready buffer_get_ready
buffer_release-IsLinked_example = buffer_release-IsLinked 0 taken-IsLinked (omega arith) refl

Reach-Linked_example :
    Linked (buffer_release 0 (buffer_get_ready (buffer_mark_ready 0 (fill 0 (7 ∷ []) held))).1)
unfolding buffer_acquire buffer_init buffer_mark_ready buffer_get_ready
Reach-Linked_example = Reach-Linked 2 (omega arith) (
    next
      (next
        (next (next (next here (acquires 60 refl)) (fills 0 (7 ∷ []) (omega arith) refl refl))
          (marks 0 (omega arith) refl refl))
        (takes refl))
      (releases 0 (omega arith) refl refl))

-- A packet arrives, a second one while the first is served, and a third for which there is no room.
abbrev calls : List Call
calls = acquire 60 ∷ mark_ready 0 ∷ get_ready ∷ acquire 99 ∷ acquire 61 ∷ release 0 ∷ get_ready ∷ []

abbrev outcomes : List (Option ℕ)
outcomes = some 0 ∷ none ∷ some 0 ∷ some 1 ∷ none ∷ none ∷ none ∷ []

abbrev left : Pool
left = record { frees = 0 ∷ []; held = 1 ∷ []; readies = []; used = [] }

answers-refine_example :
    ((answers calls (buffer_init 2)).0 ≡ outcomes)
    × Implements (answers calls (buffer_init 2)).1 left
unfolding promises promise
answers-refine_example = answers-refine 2 calls outcomes left (omega arith) refl
