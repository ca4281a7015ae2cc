-- ===== src/Management.antt =====
-- ext/ruble/management: the callback queue and the registries of proxy objects.
pub mod RubyQueue
pub mod Registry
pub mod RegistryFactory
