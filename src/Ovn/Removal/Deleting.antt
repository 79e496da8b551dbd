-- ===== src/Ovn/Removal/Deleting.antt =====
-- Which ports DeleteLogicalPorts of internal/pkg/ovn/ovn.go deletes.
use icn_nodus.Common.{
  if◌then◌else◌, sprint, contains, fields, String, ◌≡◌, refl, Bool, true, false, Option, none, some,
  List, [], ◌∷◌, map,
}
use icn_nodus.Effect.{Error, Output, Event, nbctl, Env, World, done, effects}
use icn_nodus.Effect.Sequence.{issue}
use icn_nodus.Ovn.Exec.{ovs_command_timeout, nbctl_reply, run_ovn_nbctl}
use icn_nodus.Ovn.Removal.{
  list_ports_args, delete_port_args, delete_ports, delete_listed, delete_logical_ports,
}

-- The ports whose names have the given text in them.
abbrev pub matching : String → List String → List String
matching text [] = []
matching text (port ∷ ports) =
    let rest = matching text ports in if contains port text then port ∷ rest else rest

abbrev pub deletion : String → Event
deletion port = nbctl (delete_port_args port)

-- The run of the loop, whatever each deletion replies.
abbrev Deletes : String → List String → Type 0
Deletes text ports =
    (env : Env) (w : World)
    → delete_ports text ports env w
      ≡ done tt (record w { trace = issue (map deletion (matching text ports)) w.trace })

delete_ports-cons :
    (text port : String) (ports : List String) (b : Bool)
    → contains port text ≡ b
    → Deletes text ports
    → Deletes text (port ∷ ports)
unfolding delete_ports run_ovn_nbctl effects
delete_ports-cons text port ports true e h env w =
    rw (e) (h env (record w { trace = deletion port ∷ w.trace }))
delete_ports-cons text port ports false e h env w = rw (e) (h env w)

delete_ports-run : (text : String) (ports : List String) → Deletes text ports
unfolding delete_ports effects
delete_ports-run text [] = λ env w. refl
delete_ports-run text (port ∷ ports) =
    delete_ports-cons text port ports (contains port text) refl (delete_ports-run text ports)

-- The deletions that follow a listing.
abbrev pub deletions : String → Output → List Event
deletions text out = elim out.error [
  | none ↦ map deletion (matching text (fields out.stdout))
  | some e ↦ []
]

delete_listed-run :
    (text : String) (out : Output) (env : Env) (w : World)
    → delete_listed text out env w
      ≡ done tt (record w { trace = issue (deletions text out) w.trace })
unfolding effects
delete_listed-run text out env w = by_error out.error refl
  where
    by_error :
        (o : Option Error)
        → out.error ≡ o
        → delete_listed text out env w
          ≡ done tt (record w { trace = issue (deletions text out) w.trace })
    by_error none e = rw (e) (delete_ports-run text (fields out.stdout) env w)
    by_error (some x) e = rw (e) refl

-- The ports with "namespace_name" in their names, and no others, are deleted, in the order of the
-- listing, whatever each deletion replies; none is if the listing fails.
pub delete_logical_ports-run :
    (name namespace : String) (env : Env) (w : World)
    → delete_logical_ports name namespace env w
      ≡ done tt (record w {
        trace =
            issue
              (deletions
                (sprint (namespace ∷ "_" ∷ name ∷ []))
                (nbctl_reply env w.trace ovs_command_timeout list_ports_args))
              (nbctl list_ports_args ∷ w.trace);
      })
unfolding delete_logical_ports run_ovn_nbctl effects
delete_logical_ports-run name namespace env w =
    delete_listed-run (sprint (namespace ∷ "_" ∷ name ∷ []))
      (nbctl_reply env w.trace ovs_command_timeout list_ports_args) env
      (record w { trace = nbctl list_ports_args ∷ w.trace })
