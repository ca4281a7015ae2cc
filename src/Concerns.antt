-- ===== src/Concerns.antt =====
-- ext/ruble/concerns: behaviour that classes share.
pub mod ValueTracker
pub mod Rubyable
