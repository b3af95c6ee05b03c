-- ===== src/Handles.antt =====
-- internal/handles
pub mod Errors
pub mod Context
pub mod Pagination
pub mod Auth
pub mod Posts
pub mod Feed
pub mod Users
pub mod Replies
pub mod Invariants
pub mod Sessions
