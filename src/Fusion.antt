-- ===== src/Fusion.antt =====
-- internal/fusion/fusion.go: the candidates of all sources become one list.
pub mod Canonical
pub mod Identity
pub mod Selection
pub mod Quotas
pub mod Hints
pub mod Discoveries
pub mod Best
pub mod Examples
