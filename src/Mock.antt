-- ===== src/Mock.antt =====
-- internal/mock: which endpoint answers a request that arrived under /m/{slug}/.
pub mod Route
pub mod Trie
pub mod Request
pub mod Nearest
pub mod Table
pub mod Matching
pub mod Serves
pub mod Build
pub mod Lookup
pub mod Params
pub mod Router
mod Tests
