-- ===== src/Di.antt =====
-- packages/evoid-di: the dependency injection engine.
pub mod Rules
pub mod Engine
