-- ===== src/Tests.antt =====
-- Runs of the model on small inputs.
pub mod Comparators
pub mod Allocator
pub mod Database
pub mod Metas
pub mod Pages
pub mod Recovering
pub mod Branches
pub mod Trees
pub mod Buckets
pub mod Transactions
pub mod Files
