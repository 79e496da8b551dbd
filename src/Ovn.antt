-- ===== src/Ovn.antt =====
-- internal/pkg/ovn: the OVN objects that the controllers keep.
pub mod Exec
pub mod Acl
pub mod PortGroup
pub mod Switch
pub mod Network
pub mod Gateway
pub mod Ports
pub mod Interfaces
pub mod Removal
pub mod Bridge
pub mod PodAddress
