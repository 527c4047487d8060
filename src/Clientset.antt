-- ===== src/Clientset.antt =====
-- The clients of the single package repositories, of internal/repo/client: how they are found and kept
-- (clientset.go), and what they fetch and keep (defaultclient.go).
pub mod Auth
pub mod Literal
pub mod Select
pub mod Coherent
pub mod Current
pub mod Forgotten
pub mod Response
pub mod Fetch
pub mod Age
pub mod Samples
