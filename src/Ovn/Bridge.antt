-- ===== src/Ovn/Bridge.antt =====
-- internal/pkg/ovn/common.go: VLAN interfaces, the bridges of provider networks, and the mapping of
-- networks to bridges that Open vSwitch keeps as one text.
pub mod Mapping
use Prim.Native.String
use icn_nodus.Common.{
  if◌then◌else◌, is_some, sprint, is_blank, split, contains, trim_space, drop_last, is_empty,
  String, Bool, false, not, ◌&&◌, ◌||◌, Option, none, some, List, [], ◌∷◌, ◌==◌,
}
use icn_nodus.Api.{Labels, insert, delete}
use icn_nodus.Effect.{
  Error, message, Output, M, ◌>>=◌, ◌>>◌, pure, raise, panic, check, attempt, ask,
}
use icn_nodus.Ovn.Exec.{run_ip, run_ovs_vsctl, must}

abbrev invalid : String → Error
invalid name = message (sprint (name ∷ " invalid parameters" ∷ []))

abbrev has_link : String → List (String × String) → Bool
has_link name [] = false
has_link name ((n, alias) ∷ links) = n == name || has_link name links

-- CreateVlan behind the look-up of the logical interface
unfoldable pub add_vlan : String → String → String → M (Unit {0})
add_vlan vlan_id interface_name logical_name = do
  _ ← must (
      run_ip (
        "link" ∷ "add" ∷ "link" ∷ interface_name ∷ "name" ∷ logical_name ∷ "type" ∷ "vlan" ∷ "id"
        ∷ vlan_id ∷ []))
  _ ←
      must (
        run_ip ("link" ∷ "set" ∷ logical_name ∷ "alias" ∷ sprint ("nfn-" ∷ logical_name ∷ []) ∷ []))
  _ ← must (run_ip ("link" ∷ "set" ∷ "dev" ∷ logical_name ∷ "up" ∷ []))
  pure tt

unfoldable pub create_vlan : String → String → String → M (Unit {0})
create_vlan vlan_id interface_name logical_name =
    if is_blank interface_name || is_blank vlan_id || is_blank logical_name
    then raise (
        message (
          sprint (
            "CreateVlan invalid parameters: " ∷ interface_name ∷ " " ∷ vlan_id ∷ " " ∷ logical_name
            ∷ [])))
    else (ask (λ env trace. has_link logical_name (env.links trace)) >>= λ there.
        if there then pure tt else add_vlan vlan_id interface_name logical_name)

unfoldable pub delete_vlan : String → M (Unit {0})
delete_vlan logical_name =
    if is_blank logical_name
    then raise (invalid "DeleteVlan")
    else (must (run_ip ("link" ∷ "del" ∷ "dev" ∷ logical_name ∷ [])) >>= λ _. pure tt)

abbrev marked_links : List (String × String) → List String
marked_links [] = []
marked_links ((name, alias) ∷ links) =
    let rest = marked_links links in if contains alias "nfn-" then name ∷ rest else rest

unfoldable pub get_vlan : M (List String)
get_vlan = ask (λ env trace. marked_links (env.links trace))

-- A label "network:bridge" put into the map; a label without a colon is an index out of range.
unfoldable pub put_label : List String → Labels → Option Labels
put_label (key ∷ value ∷ rest) mm = some (insert (trim_space key) (trim_space value) mm)
put_label _ mm = none

abbrev after_put : Option Labels → (Labels → Option Labels) → Option Labels
after_put none f = none
after_put (some mm) f = f mm

unfoldable pub parse_labels : List String → Labels → Option Labels
unfolding put_label
parse_labels [] mm = some mm
parse_labels (label ∷ labels) mm =
    after_put (put_label (split b':' label) mm) (λ mm'. parse_labels labels mm')

unfoldable pub parse_mapping : String → Option Labels
unfolding parse_labels split
parse_mapping text = if is_blank text then some [] else parse_labels (split b',' text) []

-- The loop that writes the map, before the trailing comma is removed.
unfoldable pub label_text : Labels → String
label_text [] = ""
label_text ((key, value) ∷ mm) = sprint (key ∷ ":" ∷ value ∷ "," ∷ label_text mm ∷ [])

unfoldable pub mapping_text : Labels → String
unfolding label_text drop_last
mapping_text mm = drop_last (label_text mm)

unfoldable pub set_mapping : Labels → M (Unit {0})
set_mapping mm = do
  ordered ← ask (λ env trace. env.ranged trace mm)
  _ ← must (
      run_ovs_vsctl (
        "set"
        ∷ "open"
        ∷ "."
        ∷ sprint ("external-ids:ovn-bridge-mappings=" ∷ mapping_text ordered ∷ [])
        ∷ []))
  pure tt

unfoldable pub remove_mapping : M (Unit {0})
remove_mapping = do
  _ ← must (run_ovs_vsctl ("remove" ∷ "open" ∷ "." ∷ "external-ids" ∷ "ovn-bridge-mappings" ∷ []))
  pure tt

unfoldable pub change_mapping : String → String → String → Labels → M (Unit {0})
change_mapping br_name nw_name action mm =
    if action == "add"
    then set_mapping (insert nw_name br_name mm)
    else if action == "delete"
    then (if is_empty (delete nw_name mm) then remove_mapping else set_mapping (delete nw_name mm))
    else raise (message (sprint ("Invalid action " ∷ action ∷ [])))

-- An error of the read counts unless it says that there is no mapping yet.
unfoldable pub check_read : Output → M (Unit {0})
check_read out = if contains out.stderr "no key" then pure tt else check out.error

abbrev parsed : Option Labels → M Labels
parsed none = panic
parsed (some mm) = pure mm

unfoldable pub update_ovn_bridge_mapping : String → String → String → M (Unit {0})
update_ovn_bridge_mapping br_name nw_name action = do
  out ← run_ovs_vsctl ("get" ∷ "open" ∷ "." ∷ "external-ids:ovn-bridge-mappings" ∷ [])
  check_read out
  mm ← parsed (parse_mapping out.stdout)
  change_mapping br_name nw_name action mm

-- The steps of CreatePnBridge on given names; an error of the mapping is dropped.
unfoldable pub add_bridge : String → String → String → M (Unit {0})
add_bridge nw_name br_name intf_name = do
  _ ← must (run_ovs_vsctl ("--may-exist" ∷ "add-br" ∷ br_name ∷ []))
  _ ← must (run_ovs_vsctl ("--may-exist" ∷ "add-port" ∷ br_name ∷ intf_name ∷ []))
  _ ← must (
      run_ovs_vsctl ("set" ∷ "bridge" ∷ br_name ∷ sprint ("external_ids:nfn=" ∷ nw_name ∷ []) ∷ []))
  _ ← attempt (update_ovn_bridge_mapping br_name nw_name "add")
  pure tt

unfoldable pub create_pn_bridge : String → String → String → M (Unit {0})
create_pn_bridge nw_name br_name intf_name =
    if is_blank nw_name || is_blank br_name || is_blank intf_name
    then raise (invalid "CreatePnBridge")
    else add_bridge nw_name br_name intf_name

unfoldable pub delete_pn_bridge : String → String → M (Unit {0})
delete_pn_bridge nw_name br_name =
    if is_blank nw_name || is_blank br_name
    then raise (invalid "DeletePnBridge")
    else (must (run_ovs_vsctl ("--if-exist" ∷ "del-br" ∷ br_name ∷ [])) >>= λ _.
        attempt (update_ovn_bridge_mapping br_name nw_name "delete") >>= λ _. pure tt)

-- Whether a bridge has the key: an error or a blank reply means that it has not.
abbrev has_key : Output → Bool
has_key out = not (is_some out.error) && not (is_blank out.stdout)

unfoldable pub bridges_with : String → List String → M (List String)
bridges_with external_id [] = pure []
bridges_with external_id (name ∷ names) = do
  out ← run_ovs_vsctl ("get" ∷ "bridge" ∷ name ∷ sprint ("external_ids:" ∷ external_id ∷ []) ∷ [])
  rest ← bridges_with external_id names
  pure (if has_key out then name ∷ rest else rest)

unfoldable pub get_pn_bridge : String → M (List String)
get_pn_bridge external_id = do
  out ← run_ovs_vsctl ("list-br" ∷ [])
  if is_some out.error then pure [] else bridges_with external_id (split b'\n' out.stdout)
