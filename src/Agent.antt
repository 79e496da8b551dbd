-- ===== src/Agent.antt =====
-- cmd/nfn-agent/nfn-agent.go: the provider networks of a node, and how they are brought in sync.
pub mod Handling
pub mod Queueing
pub mod Syncing
pub mod Received
pub mod Settled
pub mod Errors
use icn_nodus.Common.{
  if◌then◌else◌, sprint, is_blank, without_br, any, String, Bool, true, false, List, [], ◌∷◌, ◌==◌,
}
use icn_nodus.Api.Messages.{Message, vlan_create, direct_create, vlan_remove, direct_remove}
use icn_nodus.Effect.{M, ◌>>=◌, ◌>>◌, pure, attempt}
use icn_nodus.Ovn.Bridge.{
  create_vlan, delete_vlan, get_vlan, create_pn_bridge, delete_pn_bridge, get_pn_bridge,
}
use icn_nodus.Notify.{is_member}

-- The getters of the payloads: blank for what a message does not have.
abbrev pub has_vlan : Message → Bool
has_vlan (vlan_create name id provider logical) = true
has_vlan _ = false

abbrev pub has_direct : Message → Bool
has_direct (direct_create name provider) = true
has_direct _ = false

abbrev vlan_id_of : Message → String
vlan_id_of (vlan_create name id provider logical) = id
vlan_id_of _ = ""

abbrev vlan_provider_of : Message → String
vlan_provider_of (vlan_create name id provider logical) = provider
vlan_provider_of _ = ""

abbrev pub logical_of : Message → String
logical_of (vlan_create name id provider logical) = logical
logical_of (vlan_remove name logical) = logical
logical_of _ = ""

abbrev pub direct_provider_of : Message → String
direct_provider_of (direct_create name provider) = provider
direct_provider_of (direct_remove name provider) = provider
direct_provider_of _ = ""

abbrev pub network_of : Message → String
network_of (vlan_create name id provider logical) = name
network_of (direct_create name provider) = name
network_of (vlan_remove name logical) = name
network_of (direct_remove name provider) = name
network_of _ = ""

abbrev pub nw_name : String → String
nw_name name = sprint ("nw_" ∷ name ∷ [])

abbrev pub br_name : String → String
br_name name = sprint ("br-" ∷ name ∷ [])

-- createVlanProvidernetwork: the interface is named for the network where no name is given
unfoldable pub create_vlan_network : Message → M (Unit {0})
create_vlan_network msg = do
  let logical =
      if is_blank (logical_of msg)
      then sprint (network_of msg ∷ "." ∷ vlan_id_of msg ∷ [])
      else logical_of msg
  create_vlan (vlan_id_of msg) (vlan_provider_of msg) logical
  create_pn_bridge (nw_name (network_of msg)) (br_name (network_of msg)) logical

-- createDirectProvidernetwork
unfoldable pub create_direct_network : Message → M (Unit {0})
create_direct_network msg =
    create_pn_bridge (nw_name (network_of msg)) (br_name (network_of msg)) (direct_provider_of msg)

-- deleteVlanProvidernetwork and deleteDirectProvidernetwork, which have the same body: both errors are
-- dropped.
unfoldable pub delete_network : Message → M (Unit {0})
delete_network msg = do
  _ ← attempt (delete_vlan (logical_of msg))
  _ ← attempt (delete_pn_bridge (nw_name (network_of msg)) (br_name (network_of msg)))
  pure tt

-- The name of a VLAN interface in the loop of inSyncVlanProvidernetwork.
abbrev synced_name : Message → String
synced_name msg =
    if is_blank (logical_of msg)
    then sprint (vlan_provider_of msg ∷ "." ∷ vlan_id_of msg ∷ [])
    else logical_of msg

-- The first loop, with the interfaces found so far: the messages that have a VLAN are left out, and the
-- first interface that cannot be created ends the function.
unfoldable pub sync_vlans : List String → List Message → List String → M (List String)
sync_vlans vlans [] found = pure found
sync_vlans vlans (msg ∷ msgs) found =
    let rest = sync_vlans vlans msgs found in
    let known = sync_vlans vlans msgs (synced_name msg ∷ found) in
    if has_vlan msg
    then rest
    else if is_member vlans (synced_name msg)
    then known
    else (create_vlan (vlan_id_of msg) (vlan_provider_of msg) (synced_name msg) >> rest)

abbrev has_bridge : List String → String → Bool
has_bridge bridges name = any (λ br. name == without_br 0 br) bridges

-- The bridge of a network, which is the first of its name.
abbrev pub bridge_of : List String → String → String
bridge_of [] name = ""
bridge_of (br ∷ brs) name = if name == without_br 0 br then br else bridge_of brs name

-- The loop over the bridges: the messages for which `skipped` holds are left out, and an error is dropped.
unfoldable pub sync_bridges :
    (Message → Bool)
    → (Message → String)
    → List String
    → List Message
    → List String
    → M (List String)
sync_bridges skipped intf bridges [] found = pure found
sync_bridges skipped intf bridges (msg ∷ msgs) found =
    let rest = sync_bridges skipped intf bridges msgs found in
    let name = network_of msg in
    let known = sync_bridges skipped intf bridges msgs (bridge_of bridges name ∷ found) in
    if skipped msg
    then rest
    else if has_bridge bridges name
    then known
    else (attempt (create_pn_bridge (nw_name name) (br_name name) (intf msg)) >>= λ _. rest)

-- The loops that delete what was not found.
unfoldable pub drop_vlans : List String → List String → M (Unit {0})
drop_vlans found [] = pure tt
drop_vlans found (vlan ∷ vlans) =
    let rest = drop_vlans found vlans in
    if is_member found vlan then rest else (attempt (delete_vlan vlan) >>= λ _. rest)

unfoldable pub drop_bridges : List String → List String → M (Unit {0})
drop_bridges found [] = pure tt
drop_bridges found (br ∷ brs) =
    let rest = drop_bridges found brs in
    let name = without_br 0 br in
    if is_member found br
    then rest
    else (attempt (delete_pn_bridge (nw_name name) (br_name name)) >>= λ _. rest)

-- inSyncVlanProvidernetwork
unfoldable pub in_sync_vlan : List Message → M (Unit {0})
in_sync_vlan store = do
  vlans ← get_vlan
  bridges ← get_pn_bridge "nfn"
  _ ← attempt (do
    found ← sync_vlans vlans store []
    found_bridges ← sync_bridges has_vlan logical_of bridges store []
    drop_vlans found vlans
    drop_bridges found_bridges bridges)
  pure tt

-- inSyncDirectProvidernetwork
unfoldable pub in_sync_direct : List Message → M (Unit {0})
in_sync_direct store = do
  bridges ← get_pn_bridge "nfn"
  found ← sync_bridges has_direct direct_provider_of bridges store []
  drop_bridges found bridges
