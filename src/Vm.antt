-- ===== src/Vm.antt =====
-- vm/: the environment variables, the configuration and the life of a VM.
pub mod Env
pub mod Hardware
pub mod Lifecycle
pub mod Startup
pub mod Attach
