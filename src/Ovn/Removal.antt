-- ===== src/Ovn/Removal.antt =====
-- internal/pkg/ovn/ovn.go: DeleteLogicalPorts.
pub mod Deleting
use Prim.Native.String
use icn_nodus.Common.{if◌then◌else◌, is_some, sprint, contains, fields, String, List, [], ◌∷◌}
use icn_nodus.Effect.{Output, M, ◌>>=◌, ◌>>◌, pure}
use icn_nodus.Ovn.Exec.{run_ovn_nbctl}

abbrev pub list_ports_args : List String
list_ports_args =
    "--data=bare" ∷ "--no-heading" ∷ "--columns=name" ∷ "find" ∷ "logical_switch_port"
    ∷ "external_ids:pod=true" ∷ []

abbrev pub delete_port_args : String → List String
delete_port_args port = "--if-exists" ∷ "lsp-del" ∷ port ∷ []

-- The loop of DeleteLogicalPorts; an error of one deletion is only logged.
unfoldable pub delete_ports : String → List String → M (Unit {0})
delete_ports logical_port [] = pure tt
delete_ports logical_port (port ∷ ports) = do
  if contains port logical_port
      then (run_ovn_nbctl (delete_port_args port) >>= λ _. pure tt)
      else pure tt
  delete_ports logical_port ports

abbrev pub delete_listed : String → Output → M (Unit {0})
delete_listed logical_port out =
    if is_some out.error then pure tt else delete_ports logical_port (fields out.stdout)

-- DeleteLogicalPorts
unfoldable pub delete_logical_ports : String → String → M (Unit {0})
delete_logical_ports name namespace = do
  out ← run_ovn_nbctl list_ports_args
  delete_listed (sprint (namespace ∷ "_" ∷ name ∷ [])) out
