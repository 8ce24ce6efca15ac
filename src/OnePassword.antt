-- ===== src/OnePassword.antt =====
-- opcommon.go and opstandard.go: items in a 1Password vault.
pub mod Sdk
pub mod Base
pub mod Items
pub mod Standard
pub mod Settings
pub mod Held
pub mod SrvAccount
pub mod Desktop
pub mod Connect
pub mod Titles
