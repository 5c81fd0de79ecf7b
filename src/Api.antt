-- ===== src/Api.antt =====
-- ui/lib/api: one function for each operation of the controller's interface. A function is given
-- as the arguments with which it calls `apiFetch` or `apiFetchText`.
pub mod Request
pub mod Certificates
pub mod Devices
pub mod Organizations
pub mod Shell
pub mod Operations
