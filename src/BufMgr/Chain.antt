-- ===== src/BufMgr/Chain.antt =====
-- Linked lists of buffers: the indices that `next` leads through, all in one state.
use rmtdos_utils.Prelude.{
  ℕ, ◌<◌, ◌≡◌, ◌≢◌, refl, Bool, false, Option, none, some, List, [], ◌∷◌, ◌==◌, ◌||◌, arith,
}
use rmtdos_utils.BufMgr.{BufferState, Buffer, update}

abbrev pub has : ℕ → List ℕ → Bool
has p [] = false
has p (q ∷ qs) = (q == p) || has p qs

-- From `head` the list leads through exactly these buffers, each once.
abbrev pub Chain : ℕ → (ℕ → Buffer) → BufferState → Option ℕ → List ℕ → Type 0
Chain count buffers st head [] = head ≡ none
Chain count buffers st head (p ∷ ps) =
    (head ≡ some p)
    × (p < count)
    × ((buffers p).state ≡ st)
    × (has p ps ≡ false)
    × Chain count buffers st (buffers p).next ps

module _ (count : ℕ) (buffers : ℕ → Buffer) (st : BufferState) where
  -- A buffer in another state is not in the list.
  pub not_has_of_state :
      (head : Option ℕ) (ps : List ℕ) (p : ℕ)
      → Chain count buffers st head ps
      → (buffers p).state ≢ st
      → has p ps ≡ false
  not_has_of_state head [] p c h = refl
  not_has_of_state head (q ∷ ps) p c h = ground (arith, not_has_of_state (buffers q).next ps p c.4)

  -- A buffer outside the list may change.
  pub Chain-update :
      (head : Option ℕ) (ps : List ℕ) (p : ℕ) (b : Buffer)
      → Chain count buffers st head ps
      → has p ps ≡ false
      → Chain count (update buffers p b) st head ps
  Chain-update head [] p b c h = c
  Chain-update head (q ∷ ps) p b c h = ground (arith, Chain-update (buffers q).next ps p b c.4)
