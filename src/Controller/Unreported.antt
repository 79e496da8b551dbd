-- ===== src/Controller/Unreported.antt =====
-- A failed creation in pkg/controller/providernetwork/providernetwork_controller.go.
use icn_nodus.Common.{if◌then◌else◌, ◌≡◌, refl, ap, ◌∙◌, Bool, true, false, ◌==◌}
use icn_nodus.Api.{ProviderNetwork}
use icn_nodus.Effect.{Error, Env, World, done, fail, M, ◌>>=◌, attempt, effects}
use icn_nodus.Ovn.Network.{is_ls_exists, create_provider_network}
use icn_nodus.Ovn.Network.Commands.{given_controller}
use icn_nodus.Controller.ProviderController.{after_create, create_in_ovn, create_network_cr}

failed_quietly :
    (cr : ProviderNetwork) (e : Error) (env : Env) (w u : World) (m : M (Unit {0}))
    → m env w ≡ fail e u
    → is_ls_exists e ≡ false
    → (attempt m >>= after_create cr) env w ≡ done tt u
unfolding after_create effects
failed_quietly cr e env w u m h k = rw (h, k) refl

-- Where creating a provider network fails for another reason than that its switch exists, the failure is
-- not recorded: the controller returns no error, and makes no call behind those of the creation, so
-- that the object's state stays as it was.
pub create_network_cr-unreported :
    (cr : ProviderNetwork) (e : Error) (env : Env) (w u : World)
    → cr.deleting ≡ false
    → (cr.cni_type == "ovn4nfv") ≡ true
    → w.controller ≡ true
    → create_provider_network cr.name cr.ipv4_subnets cr.ipv6_subnets env w ≡ fail e u
    → is_ls_exists e ≡ false
    → create_network_cr cr env w ≡ done tt u
unfolding create_network_cr create_in_ovn
create_network_cr-unreported cr e env w u d c t h k =
    ap (λ m. m env w) (chosen _ _ _ cr.deleting (cr.cni_type == "ovn4nfv") d c)
    ∙ given_controller _ env w t
    ∙ failed_quietly cr e env w u _ h k
  where
    chosen :
        (x y z : M (Unit {0})) (a b : Bool)
        → a ≡ false
        → b ≡ true
        → (if a then x else if b then y else z) ≡ y
    chosen x y z true b p q = cc
    chosen x y z false true p q = refl
    chosen x y z false false p q = cc
