-- ===== src/Api.antt =====
-- PUT of the settings in internal/api/settings.go: the documents, what is written of them, and the
-- keys that the environment has locked.
pub mod Bodies
pub mod Writes
pub mod Keys
pub mod Put
pub mod Fields
pub mod Locks
pub mod Kept
pub mod Secrets
pub mod Echo
pub mod Lockout
pub mod Admitted
