-- ===== src/Protocol/Drain.antt =====
-- The loop of `protocol_process` ends, serves every ready buffer once and gives it back.
use rmtdos_utils.Prelude.{
  ℕ, suc, ◌≡◌, refl, false, Option, some, List, [], ◌∷◌, arith, length, ◌==◌, ◌∙◌,
}
use rmtdos_utils.BufMgr.{Buffer, BufMgr, buffer_get_ready, buffer_release}
use rmtdos_utils.BufMgr.Chain.{has}
use rmtdos_utils.BufMgr.Invariant.{
  IsLinked, buffer_get_ready-IsLinked, buffer_get_ready-none, buffer_release-IsLinked,
}
use rmtdos_utils.Protocol.{Served, Server, Env, handle_buffer, protocol_process}

-- The ready buffers served in the order of the list, from the data that they hold.
unfoldable pub serve_all : Env → (ℕ → Buffer) → List ℕ → Served → Served
serve_all env buffers [] s = s
serve_all env buffers (p ∷ ps) s =
    serve_all env buffers ps (handle_buffer env p (buffers p).bytes (buffers p).contents s)

-- The free list after each buffer of a list was released.
unfoldable pub release_all : List ℕ → List ℕ → List ℕ
release_all [] frees = frees
release_all (p ∷ ps) frees = release_all ps (p ∷ frees)

pub record Drained (env : Env) (frees readies : List ℕ) (s : Server) (r : Option Server)
    : Type 0 where
  pub final : Server
  pub returns : r ≡ some final
  pub linked : IsLinked final.buffers (release_all readies frees) []
  pub served : final.served ≡ serve_all env s.buffers.buffers readies s.served

-- The manager after a ready buffer was taken and released.
abbrev after : BufMgr → ℕ → BufMgr
after m p = buffer_release p (buffer_get_ready m).1

after-kept :
    (m : BufMgr) (p q : ℕ)
    → m.ready_list ≡ some p
    → (p == q) ≡ false
    → (after m p).buffers q ≡ m.buffers q
unfolding buffer_release buffer_get_ready
after-kept m p q h ne = ground arith

serve_all-after :
    (env : Env) (m : BufMgr) (p : ℕ) (qs : List ℕ) (s : Served)
    → m.ready_list ≡ some p
    → has p qs ≡ false
    → serve_all env (after m p).buffers qs s ≡ serve_all env m.buffers qs s
unfolding serve_all
serve_all-after env m p [] s h out = refl
serve_all-after env m p (q ∷ qs) s h out =
    rw (after-kept m p q h (ground arith)) (serve_all-after env m p qs _ h (ground arith))

taken-kept :
    (m : BufMgr) (p : ℕ)
    → m.ready_list ≡ some p
    → (((buffer_get_ready m).1.buffers p).contents ≡ (m.buffers p).contents)
      × (((buffer_get_ready m).1.buffers p).bytes ≡ (m.buffers p).bytes)
      × ((buffer_get_ready m).1.count ≡ m.count)
unfolding buffer_get_ready
taken-kept m p h = ground arith

-- One turn of the loop.
turn :
    (fuel : ℕ) (env : Env) (s : Server) (p : ℕ)
    → (buffer_get_ready s.buffers).0 ≡ some p
    → (((buffer_get_ready s.buffers).1.buffers p).contents ≡ (s.buffers.buffers p).contents)
    → (((buffer_get_ready s.buffers).1.buffers p).bytes ≡ (s.buffers.buffers p).bytes)
    → protocol_process (suc fuel) env s
      ≡ protocol_process fuel env (record {
        buffers = after s.buffers p;
        served =
            handle_buffer env p (s.buffers.buffers p).bytes (s.buffers.buffers p).contents s.served;
      })
unfolding protocol_process
turn fuel env s p e c b = rw (protocol_process, e, c, b) refl

-- `protocol_process` returns for every list of ready buffers: it serves each of them once, in the
-- order of the list, from the data it held at the start; then no buffer is ready, and all that
-- were are free. The manager's lists are well formed at the start.
pub protocol_process-Drained :
    (env : Env) (frees readies : List ℕ) (s : Server)
    → IsLinked s.buffers frees readies
    → Drained env frees readies s (protocol_process (suc (length readies)) env s)
unfolding protocol_process release_all serve_all
protocol_process-Drained env frees [] s v = record {
  final = s;
  returns = rw (protocol_process, buffer_get_ready-none v) refl;
  linked = v;
  served = refl;
}
protocol_process-Drained env frees (p ∷ ps) s v =
    let m = s.buffers in
    let (got, taken, v1) = buffer_get_ready-IsLinked p ps v in
    let (head, below, is_ready, once, tail) = v.ready_chain in
    let (contents, bytes, count) = taken-kept m p head in
    let v2 = buffer_release-IsLinked p v1 (omega (arith, count)) taken in
    let now = handle_buffer env p (m.buffers p).bytes (m.buffers p).contents s.served in
    let rest =
      protocol_process-Drained env (p ∷ frees) ps (record { buffers = after m p; served = now })
        v2 in
    record {
      final = rest.final;
      returns = turn (suc (length ps)) env s p got contents bytes ∙ rest.returns;
      linked = rest.linked;
      served = rest.served ∙ serve_all-after env m p ps now head once;
    }
