-- ===== src/Godot.antt =====
-- packages/evoid-godot/evoid_godot/hosting.py: the hosting of game builds.
pub mod Build
pub mod Dispatch
pub mod Serve
