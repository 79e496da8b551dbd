-- ===== src/Effect/Requests.antt =====
-- Requests to the cluster, and loops that wait for an answer.
use icn_nodus.Common.{ℕ, zero, suc, ◌≡◌, refl, sym, ap, Option, none, some, ◌∷◌}
use icn_nodus.Api.Cluster.{Request, Reply}
use icn_nodus.Effect.Inverse.{done-eq-done}
use icn_nodus.Effect.{
  Result, ok, err, requested, Env, World, done, M, ◌>>=◌, ◌>>◌, pure, panic, ask, of_result, log,
  effects,
}

-- A call of a client library, with its reply.
unfoldable pub request : (r : Request) → M (Reply r)
request r = do answer ← ask (λ env trace. env.cluster trace r); log (requested r); of_result answer

unfoldable pub repeat_rounds : {A : Type 0} → ℕ → M (Option A) → M A
repeat_rounds zero m = panic
repeat_rounds (suc left) m =
    m >>= λ found. elim found [ none ↦ repeat_rounds left m | some a ↦ pure a ]

-- `for { a, ok, err := m(); if err != nil { return err }; if ok { break } }`. A process that is stopped
-- before the loop ends does not return.
unfoldable pub wait_for : {A : Type 0} → M (Option A) → M A
wait_for m env w = repeat_rounds env.rounds m env w

abbrev pub after_request : Request → World → World
after_request r w = record w { trace = requested r ∷ w.trace }

pub request-done :
    (r : Request) (a : Reply r) (env : Env) (w : World)
    → env.cluster w.trace r ≡ ok a
    → request r env w ≡ done a (after_request r w)
unfolding request effects
request-done r a env w e = rw e refl

replied :
    {A : Type 0} (r : Request) (x : Result A) (env : Env) (w v : World) (a : A)
    → of_result x env (after_request r w) ≡ done a v
    → v ≡ after_request r w
unfolding of_result
replied r (ok b) env w v a h = sym (done-eq-done h).1
replied r (err e) env w v a h = cc

-- A request that is answered is the only call that it makes.
pub request-eq-done :
    (r : Request) (env : Env) (w v : World) (a : Reply r)
    → request r env w ≡ done a v
    → v ≡ after_request r w
unfolding request effects
request-eq-done r env w v a h = replied r (env.cluster w.trace r) env w v a h

answered :
    {A : Type 0} (r : Request) (x : Result A) (env : Env) (w v : World) (a : A)
    → of_result x env (after_request r w) ≡ done a v
    → x ≡ ok a
unfolding of_result
answered r (ok b) env w v a h = ap ok (done-eq-done h).0
answered r (err e) env w v a h = cc

-- The value of a request is what the environment answers.
pub request-answer :
    (r : Request) (env : Env) (w v : World) (a : Reply r)
    → request r env w ≡ done a v
    → env.cluster w.trace r ≡ ok a
unfolding request effects
request-answer r env w v a h = answered r (env.cluster w.trace r) env w v a h
