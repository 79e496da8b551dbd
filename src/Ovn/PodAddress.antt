-- ===== src/Ovn/PodAddress.antt =====
-- internal/pkg/ovn/common.go: the subnet of a network, and the address of a pod in it.
use Prim.Native.String.{[], ◌∷◌}
use icn_nodus.Common.{
  nat_eq, if◌then◌else◌, sprint, split, contains, fields, ℕ, code, String, List, [], ◌∷◌,
}
use icn_nodus.Effect.{Error, message, M, ◌>>=◌, pure, raise}
use icn_nodus.Ovn.Exec.{run_ovn_nbctl, must}

unfoldable pub get_network_subnet : String → M String
get_network_subnet nw =
    must
      (run_ovn_nbctl ("--if-exists" ∷ "get" ∷ "logical_switch" ∷ nw ∷ "other_config:subnet" ∷ []))

-- strings.Replace of a character with nothing
unfoldable pub without_char : ℕ → String → String
without_char cut [] = ""
without_char cut (c ∷ s) =
    let rest = without_char cut s in if nat_eq (code c) cut then rest else c ∷ rest

abbrev not_found : Error
not_found = message "IPAdress Not Found"

-- The second field of a reply.
unfoldable pub second_field : List String → M String
second_field (a ∷ b ∷ rest) = pure b
second_field _ = raise not_found

unfoldable pub address_of_port : String → M String
address_of_port listed = do
  dna ← must (
      run_ovn_nbctl (
        "get"
        ∷ "logical_switch_port"
        ∷ without_char b')' (without_char b'(' listed)
        ∷ "dynamic_addresses"
        ∷ []))
  second_field (fields dna)

-- The search through the lines "uuid (name)" for a port with the given text in its name.
unfoldable pub search_ports : String → List String → M String
search_ports name [] = raise (message (sprint ("IPAdress Not Found " ∷ name ∷ [])))
search_ports name (l ∷ ll) = do
  port ← second_field (fields l)
  if contains port name then address_of_port port else search_ports name ll

unfoldable pub get_ip_address_for_pod : String → String → M String
get_ip_address_for_pod nw name = do
  _ ← must (
      run_ovn_nbctl (
        "--data=bare"
        ∷ "--no-heading"
        ∷ "--columns=name"
        ∷ "find"
        ∷ "logical_switch"
        ∷ sprint ("name=" ∷ nw ∷ [])
        ∷ []))
  stdout ← must (run_ovn_nbctl ("lsp-list" ∷ nw ∷ []))
  search_ports name (split b'\n' stdout)
