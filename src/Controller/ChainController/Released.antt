-- ===== src/Controller/ChainController/Released.antt =====
-- pkg/controller/networkchaining/networkchaining_controller.go: a chain that is deleted loses its finalizer.
use icn_nodus.Common.{◌≡◌, false, ◌∷◌}
use icn_nodus.Api.{NetworkChaining, network_chaining}
use icn_nodus.Effect.{update_object, World}
use icn_nodus.Effect.Returns.{Returns}
use icn_nodus.Controller.{contains_item}
use icn_nodus.Controller.ChainController.{nfn_network_chain_finalizer}

-- All but the state is kept.
abbrev Keeps : NetworkChaining → NetworkChaining → Type 0
Keeps cr c = (c.finalizers ≡ cr.finalizers) × (c.deleting ≡ cr.deleting)

-- The object that was written last has no finalizer of the program.
pub record Unlocked (cr' : NetworkChaining) (v : World) : Type 0 where
  pub unlocked : contains_item cr'.finalizers nfn_network_chain_finalizer ≡ false
  pub before : World
  pub last : v.trace ≡ update_object (network_chaining cr') ∷ before.trace
