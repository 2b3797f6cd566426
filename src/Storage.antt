-- ===== src/Storage.antt =====
-- packages/evoid-smart-storage/evoid_smart_storage: engine.py and schema_enforcer.py.
pub mod Schema
pub mod Engine
