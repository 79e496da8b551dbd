-- ===== src/Controller.antt =====
-- pkg/controller: the reconcilers of networks, provider networks, pods and chains. This file has what they share:
-- the finalizers of pkg/utils/finalizer_utils.go, and writing an object.
pub mod NetworkController
pub mod ProviderController
pub mod PodController
pub mod ChainController
pub mod Writing
pub mod Guarded
pub mod Cleanup
pub mod Unreported
use icn_nodus.Common.{
  if◌then◌else◌, String, Bool, false, ◌||◌, Option, none, some, List, [], ◌∷◌, ◌==◌,
}
use icn_nodus.Effect.{Error, message, Event, M, ◌>>=◌, ◌>>◌, check, ask, log}
use icn_nodus.Api.{created, create_internal_error}
use icn_nodus.Ovn.Network.{is_ls_exists}

-- Contains
unfoldable pub contains_item : List String → String → Bool
contains_item [] str = false
contains_item (item ∷ rest) str = item == str || contains_item rest str

-- Remove
unfoldable pub remove_item : List String → String → List String
remove_item [] str = []
remove_item (item ∷ rest) str =
    let others = remove_item rest str in if item == str then others else item ∷ others

-- A call that writes an object, its status or a notification, with its reply.
unfoldable pub write : Event → M (Unit {0})
write e = do refused ← ask (λ env trace. env.written trace e); log e; check refused

abbrev pub not_supported : Error
not_supported = message "CNI type not supported"

-- The state after a creation: an existing switch is no failure.
abbrev pub state_after : Option Error → String
state_after none = created
state_after (some e) = if is_ls_exists e then created else create_internal_error
