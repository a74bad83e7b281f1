-- ===== src/Gee.antt =====
-- gee: the web framework.
pub mod Trie
pub mod Router
pub mod Engine
pub mod Context
pub mod Response
pub mod Static
pub mod Exact
mod Tests
