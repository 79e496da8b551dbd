-- ===== src/Ovn/Exec/Calls.antt =====
-- The calls of internal/pkg/ovn/utils.go in the trace of a run.
use mathlib.Core.Path.{subst}
use icn_nodus.Common.{String, ◌≡◌, refl, ap, inl, Option, none, some, List, [], ◌∷◌}
use icn_nodus.Effect.{
  Error, Output, Event, nbctl, vsctl, iproute, Env, World, done, M, ◌>>=◌, pure, check, effects,
}
use icn_nodus.Effect.Emits.{world_of, Any, Emits, Emits-pure, Emits-check, Emits-bind, emits_rules}
use icn_nodus.Effect.Inverse.{>>=-eq-done, Issued, Issued-Emits}
use icn_nodus.Effect.Sequence.{issue, Stopped, Outcome, Performs}
use icn_nodus.Ovn.Exec.{run_ovn_nbctl, run_ip, run_ovs_vsctl, must}

module _ {P : Event → Type 0} where
  pub run_ovn_nbctl-Emits : (args : List String) → P (nbctl args) → Emits P (run_ovn_nbctl args)
  unfolding run_ovn_nbctl
  run_ovn_nbctl-Emits args h = record { adds = λ env w. (nbctl args ∷ [], refl, (h, tt)) }

  pub run_ovs_vsctl-Emits : (args : List String) → P (vsctl args) → Emits P (run_ovs_vsctl args)
  unfolding run_ovs_vsctl
  run_ovs_vsctl-Emits args h = record { adds = λ env w. (vsctl args ∷ [], refl, (h, tt)) }

  pub run_ip-Emits : (args : List String) → P (iproute args) → Emits P (run_ip args)
  unfolding run_ip
  run_ip-Emits args h = record { adds = λ env w. (iproute args ∷ [], refl, (h, tt)) }

  pub must-Emits : (m : M Output) → Emits P m → Emits P (must m)
  must-Emits m h = Emits-bind m _ h (λ out. search emits_rules)

pub ruleset call_rules =
    (emits_rules, run_ovn_nbctl-Emits, run_ovs_vsctl-Emits, run_ip-Emits, must-Emits)

-- A command that returned was given to ovn-nbctl.
pub run_ovn_nbctl-Issued :
    (args : List String) (env : Env) (w v : World) (out : Output)
    → run_ovn_nbctl args env w ≡ done out v
    → Issued (nbctl args) v.trace
unfolding run_ovn_nbctl
run_ovn_nbctl-Issued args env w v out h =
    subst (λ (u : World). Issued (nbctl args) u.trace) (ap world_of h) (inl refl)

pub must-Issued :
    (args : List String) (env : Env) (w v : World) (s : String)
    → must (run_ovn_nbctl args) env w ≡ done s v
    → Issued (nbctl args) v.trace
must-Issued args env w v s h =
    let (out, u, p, q) = >>=-eq-done _ _ env w s v h in
    Issued-Emits {P = Any} _ _ env u v s
      (Emits-bind _ _ (Emits-check out.error) (λ _. Emits-pure out.stdout)) q
      (run_ovn_nbctl-Issued args env w u out p)

checked :
    (calls old : List Event) (env : Env) (w : World) (o : Option Error) (s : String)
    → ((e : Error) → Stopped calls old w.trace)
    → w.trace ≡ issue calls old
    → Outcome calls old ((check o >>= λ _. pure s) env w)
unfolding effects
checked calls old env w none s h k = k
checked calls old env w (some e) s h k = h e

-- A command whose error ends the run.
pub must-Performs : (args : List String) → Performs (nbctl args ∷ []) (must (run_ovn_nbctl args))
unfolding run_ovn_nbctl effects
must-Performs args = record {
  outcome = λ env w.
      checked _ w.trace env (record w { trace = nbctl args ∷ w.trace }) _ _
        (λ e. record { before = []; last = nbctl args; rest = []; split_at = refl; made = refl })
        refl;
}
