-- ===== src/Security.antt =====
-- Users, roles and permissions: src/daemon/security/Role.cpp, User.cpp and Security.cpp, the check of an
-- application's owner in src/daemon/Configuration.cpp, and the REST handlers that go through them
-- (src/daemon/rest/RestBase.cpp, src/daemon/rest/RestHandler.cpp).
pub mod Model
pub mod Login
pub mod Roles
pub mod Owner
pub mod Access
pub mod Api
pub mod Guards
pub mod Effects
pub mod Session
pub mod Issued
pub mod Saved
pub mod ReadRoles
pub mod RoundTrip
pub mod Stored
pub mod Dangling
mod Examples
mod SavedExamples
