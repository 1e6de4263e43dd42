-- ===== src/Workflow.antt =====
-- The life of every document: statuses, transition tables and the rules read off them.
pub mod Table
pub mod Status
pub mod Tables
pub mod Walks
pub mod Support
pub mod Holds
pub mod Qr
pub mod Requests
pub mod Documents
mod Tests
