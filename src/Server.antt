-- ===== src/Server.antt =====
-- The functions of netlify/functions that hold the server's own rules.
pub mod Http
pub mod Shape
pub mod Numeric
pub mod Governance
pub mod Table
pub mod Store
pub mod Proposals
pub mod Members
pub mod Merge
pub mod Sessions
pub mod Locks
pub mod Compile
pub mod Requests
pub mod Roster
pub mod Draft
pub mod Named
