-- ===== src/Utils.antt =====
-- ext/ruble/utils: the helpers that the bindings share.
pub mod Async
pub mod Containers
pub mod CallbackTraits
pub mod RubyContext
pub mod Hash
pub mod ExceptionHandling
pub mod Hexadecimal
pub mod Ruby
pub mod Inspection
