-- ===== src/Ovn/Gateway/Polling.antt =====
-- The wait for a port's addresses in internal/pkg/ovn/ovn.go.
use icn_nodus.Common.{
  if◌then◌else◌, length, ℕ, zero, suc, ◌+◌, ◌*◌, ◌<◌, String, ◌≡◌, refl, Bool, true, false, Option,
  none, some, List, ◌∷◌, arith, ◌==◌,
}
use icn_nodus.Effect.{
  Error, nbctl, sleep, Env, World, Run, done, fail, crash, ◌>>◌, pure, check, log, effects,
}
use icn_nodus.Ovn.Exec.{ovs_command_timeout, nbctl_reply, run_ovn_nbctl}
use icn_nodus.Ovn.Gateway.{poll}

-- The number of polls and waits is bounded by the count; a wait that timed out used all of them, and an
-- answer is never the empty set.
abbrev pub Waits : ℕ → World → Run (Option String) → Type 0
Waits count w (done none v) = length v.trace ≡ length w.trace + 2 * count
Waits count w (done (some out) v) =
    ((out == "[]") ≡ false) × (length v.trace < length w.trace + 2 * count)
Waits count w (fail e v) = length v.trace < length w.trace + 2 * count
Waits count w (crash v) = ⊥

later :
    (count : ℕ) (w u : World) (r : Run (Option String))
    → length u.trace ≡ length w.trace + 2
    → Waits count u r
    → Waits (suc count) w r
later count w u (done none v) e h = omega (arith, e, h)
later count w u (done (some out) v) e (h, k) = (h, omega (arith, e, k))
later count w u (fail x v) e h = omega (arith, e, h)
later count w u (crash v) e h = elim h [ ]

-- The part of a round behind the reply.
round :
    (args : List String) (count : ℕ) (env : Env) (w u : World) (o : Option Error) (out : String)
    (b : Bool)
    → (out == "[]") ≡ b
    → length u.trace ≡ length w.trace + 1
    → ((v : World) → Waits count v (poll args count env v))
    → Waits
        (suc count)
        w
        ((check o >> (if b then (log (sleep 1) >> poll args count) else pure (some out))) env u)
unfolding effects
round args count env w u none out true e n h =
    let v = record u { trace = sleep 1 ∷ u.trace } in
    later count w v (poll args count env v) (omega (arith, n)) (h v)
round args count env w u none out false e n h = (e, omega (arith, n))
round args count env w u (some x) out b e n h = omega (arith, n)

-- The wait makes at most `count` polls with a second behind each: it gives up with no answer after
-- exactly these calls, before that it ends with an error of a poll or an answer that is not "[]",
-- and it does not crash.
pub poll-Waits :
    (args : List String) (count : ℕ) (env : Env) (w : World) → Waits count w (poll args count env w)
unfolding poll run_ovn_nbctl effects
poll-Waits args zero env w = omega arith
poll-Waits args (suc count) env w =
    let out = nbctl_reply env w.trace ovs_command_timeout args in
    round args count env w (record w { trace = nbctl args ∷ w.trace }) out.error out.stdout _ refl
      (omega arith) (poll-Waits args count env)
