-- ===== src/Drive.antt =====
-- drive/: the images of block devices, their options and keys, and their mounting.
pub mod Errors
pub mod Options
pub mod Paths
pub mod Os
pub mod Base
pub mod Files
pub mod Interface
pub mod Life
pub mod Keys
pub mod Encrypted
pub mod Detect
pub mod Calm
pub mod Runner
