-- ===== src/Agent/Syncing.antt =====
-- cmd/nfn-agent/nfn-agent.go: what the message InSync does to the VLANs and the bridges of the node.
use icn_nodus.Common.{
  without_br, All, String, ◌≡◌, refl, ap, ◌∙◌, fun_ext, Bool, true, List, [], ◌∷◌,
}
use icn_nodus.Api.Messages.{Message}
use icn_nodus.Effect.{M, ◌>>=◌, ◌>>◌, pure, attempt}
use icn_nodus.Ovn.Bridge.{delete_vlan, get_vlan, delete_pn_bridge, get_pn_bridge}
use icn_nodus.Agent.{
  has_vlan, has_direct, logical_of, direct_provider_of, nw_name, br_name, sync_vlans, sync_bridges,
  drop_vlans, drop_bridges, in_sync_vlan, in_sync_direct,
}

-- Each VLAN interface and each bridge is deleted; an error is dropped.
abbrev pub wipe_vlans : List String → M (Unit {0})
wipe_vlans [] = pure tt
wipe_vlans (vlan ∷ vlans) = attempt (delete_vlan vlan) >>= λ _. wipe_vlans vlans

abbrev pub wipe_bridges : List String → M (Unit {0})
wipe_bridges [] = pure tt
wipe_bridges (br ∷ brs) =
    let name = without_br 0 br in
    attempt (delete_pn_bridge (nw_name name) (br_name name)) >>= λ _. wipe_bridges brs

abbrev pub IsVlan : Message → Type 0
IsVlan msg = has_vlan msg ≡ true

abbrev pub IsDirect : Message → Type 0
IsDirect msg = has_direct msg ≡ true

sync_vlans-none :
    (vlans : List String) (store : List Message)
    → All IsVlan store
    → sync_vlans vlans store [] ≡ pure []
unfolding sync_vlans
sync_vlans-none vlans [] a = refl
sync_vlans-none vlans (msg ∷ msgs) (i, a) = rw i (sync_vlans-none vlans msgs a)

sync_bridges-none :
    (skipped : Message → Bool) (intf : Message → String) (bridges : List String)
    (store : List Message)
    → All (λ msg. skipped msg ≡ true) store
    → sync_bridges skipped intf bridges store [] ≡ pure []
unfolding sync_bridges
sync_bridges-none skipped intf bridges [] a = refl
sync_bridges-none skipped intf bridges (msg ∷ msgs) (i, a) =
    rw i (sync_bridges-none skipped intf bridges msgs a)

drop_vlans-none : (vlans : List String) → drop_vlans [] vlans ≡ wipe_vlans vlans
unfolding drop_vlans
drop_vlans-none [] = refl
drop_vlans-none (vlan ∷ vlans) =
    ap (λ m. attempt (delete_vlan vlan) >>= λ _. m) (drop_vlans-none vlans)

drop_bridges-none : (brs : List String) → drop_bridges [] brs ≡ wipe_bridges brs
unfolding drop_bridges
drop_bridges-none [] = refl
drop_bridges-none (br ∷ brs) =
    let name = without_br 0 br in
    ap (λ m. attempt (delete_pn_bridge (nw_name name) (br_name name)) >>= λ _. m)
      (drop_bridges-none brs)

module _ (vlans brs : List String) (store : List Message) (a : All IsVlan store) where
  synced_wiped :
      (do
        found ← sync_vlans vlans store []
        found_bridges ← sync_bridges has_vlan logical_of brs store []
        drop_vlans found vlans
        drop_bridges found_bridges brs)
      ≡ (wipe_vlans vlans >> wipe_bridges brs)
  unfolding ◌>>=◌ pure
  synced_wiped =
      ap
        (λ m. m >>= λ found. sync_bridges has_vlan logical_of brs store [] >>= λ found_bridges.
          drop_vlans found vlans >> drop_bridges found_bridges brs)
        (sync_vlans-none vlans store a)
      ∙ ap (λ m. m >>= λ found_bridges. drop_vlans [] vlans >> drop_bridges found_bridges brs)
          (sync_bridges-none has_vlan logical_of brs store a)
      ∙ ap (λ m. m >> drop_bridges [] brs) (drop_vlans-none vlans)
      ∙ ap (λ m. wipe_vlans vlans >> m) (drop_bridges-none brs)

-- If all networks that are kept are VLAN networks, then the function for VLAN networks creates nothing,
-- and deletes every VLAN interface and every bridge of the program that the node has. The function for
-- direct networks does the same to the bridges if all networks that are kept are direct.
pub in_sync-wiped :
    (vlan_store direct_store : List Message)
    → All IsVlan vlan_store
    → All IsDirect direct_store
    → (in_sync_vlan vlan_store ≡ (
        get_vlan >>= λ vlans. get_pn_bridge "nfn" >>= λ bridges.
        attempt (wipe_vlans vlans >> wipe_bridges bridges) >>= λ _. pure tt))
      × (in_sync_direct direct_store ≡ (get_pn_bridge "nfn" >>= λ bridges. wipe_bridges bridges))
unfolding in_sync_vlan in_sync_direct ◌>>=◌ pure
in_sync-wiped vlan_store direct_store v d = (
  ap (λ f. get_vlan >>= f)
      (fun_ext λ vlans.
        ap (λ f. get_pn_bridge "nfn" >>= f)
          (fun_ext
            λ brs. ap (λ m. attempt m >>= λ _. pure tt) (synced_wiped vlans brs vlan_store v))),
  ap (λ f. get_pn_bridge "nfn" >>= f)
      (fun_ext λ brs.
        ap (λ m. m >>= λ found. drop_bridges found brs)
          (sync_bridges-none has_direct direct_provider_of brs direct_store d)
        ∙ drop_bridges-none brs),
)
