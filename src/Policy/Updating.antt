-- ===== src/Policy/Updating.antt =====
-- Updates of policies in networkpolicy_controller.go: a policy is deleted before it is created anew.
use icn_nodus.Common.{String, ◌≡◌, refl, Bool, true, false, Option, none, some, List, [], ◌∷◌}
use icn_nodus.Effect.{Error, Event, nbctl, Env, World, Run, done, effects}
use icn_nodus.Effect.Emits.{Extends, Any, Emits}
use icn_nodus.Ovn.Acl.{Acl}
use icn_nodus.Ovn.Exec.{ovs_command_timeout, nbctl_reply, run_ovn_nbctl}
use icn_nodus.Ovn.PortGroup.{pg_del}
use icn_nodus.Policy.{NetworkPolicy}
use icn_nodus.Policy.Acls.{get_port_group_name}
use icn_nodus.Policy.Handlers.{create_policy, delete_policy, update_policy, on_update}

abbrev pub delete_args : Env → NetworkPolicy → List String
delete_args env policy = "pg-del" ∷ get_port_group_name env policy ∷ []

-- The error of the reply to the deletion of a policy's port group.
abbrev pub delete_error : Env → World → NetworkPolicy → Option Error
delete_error env w policy =
    (nbctl_reply env w.trace ovs_command_timeout (delete_args env policy)).error

abbrev pub group_deleted : Env → World → NetworkPolicy → World
group_deleted env w policy = record w { trace = nbctl (delete_args env policy) ∷ w.trace }

-- What an update does behind the reply.
abbrev pub updated_run : NetworkPolicy → NetworkPolicy → Env → World → Option Error → Run Bool
updated_run old new env w none = create_policy new env (group_deleted env w old)
updated_run old new env w (some e) = done false (group_deleted env w old)

update_policy-run :
    (old new : NetworkPolicy) (env : Env) (w : World)
    → update_policy old new env w ≡ updated_run old new env w (delete_error env w old)
unfolding update_policy delete_policy pg_del run_ovn_nbctl effects
update_policy-run old new env w = at (delete_error env w old) refl
  where
    at :
        (o : Option Error)
        → delete_error env w old ≡ o
        → update_policy old new env w ≡ updated_run old new env w o
    at none h = rw (h) refl
    at (some e) h = rw (h) refl

-- A policy was made anew in a history: its group was deleted, and then it was created with success.
abbrev pub IsRecreated : Env → List Event → NetworkPolicy → Type 0
IsRecreated env trace policy =
    (w : World) × (v : World) × (create_policy policy env (group_deleted env w policy)
      ≡ done true v)
    × Extends Any v.trace trace

-- The watch's update handler deletes the group of the old policy and then, if the deletion succeeded,
-- creates that old policy again: nothing of the new policy is used, and after a failed deletion nothing
-- more is called and the result is false.
pub on_update-run :
    (old new : NetworkPolicy) (env : Env) (w : World)
    → on_update old new env w ≡ updated_run old old env w (delete_error env w old)
unfolding on_update
on_update-run old new env w = update_policy-run old old env w
