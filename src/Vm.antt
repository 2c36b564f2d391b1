-- ===== src/Vm.antt =====
-- The virtual machine of src/vm and src/include/vm.h.
pub mod Layout
pub mod State
pub mod Decode
pub mod Strings
pub mod Handlers
pub mod Header
pub mod Load
pub mod Run
pub mod Machine
