-- ===== src/Scheduler/Priority.antt =====
-- The class `Priority` of packages/evoid-scheduler/evoid_scheduler/engine.py.
use evoid_plugins.Prelude.{ℕ}

abbrev pub critical : ℕ
critical = 100

abbrev pub high : ℕ
high = 75

abbrev pub normal : ℕ
normal = 50

abbrev pub low : ℕ
low = 25

abbrev pub background : ℕ
background = 10

abbrev pub deferred : ℕ
deferred = 0
