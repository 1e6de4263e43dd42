-- ===== src/Access.antt =====
-- Roles and permissions: what a desk may be given, and what a caller may use.
pub mod Names
pub mod Catalogue
pub mod Rules
pub mod Defaults
pub mod Grants
pub mod Admission
mod Tests
