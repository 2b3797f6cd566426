-- ===== src/Examples/Routing.antt =====
-- Runs of the routing rules of packages/evoid-di/evoid_di.
use evoid_plugins.Prelude.{
  ℕ, ◌≡◌, refl, true, false, some, none, [], ◌∷◌, string_eq, nat_eq, ◌==◌, if◌then◌else◌, suc,
}
use evoid_plugins.Py.Dict.{get}
use evoid_plugins.Py.Exec.{ok}
use evoid_plugins.Py.Value.{str, atom, value_beq, atom_beq}
use evoid_plugins.Evoid.{Levels, Context}
use evoid_plugins.Di.Rules.{
  Rule, Flat, extract_context, matches, expected_level, rule, ConfigEntry, update, entries_match,
  entry_matches,
}
use evoid_plugins.Di.Engine.{Factory, callable, Engine, init}

abbrev levels : Levels
levels = record {
  named = λ s. if s == "critical" then some 0 else if s == "standard" then some 1 else none;
  value_of = λ l. if l == 0 then "critical" else "standard";
}

abbrev counting : Factory ℕ ℕ
counting = callable (λ w. (ok (some w), suc w))

abbrev critical_request : Context
critical_request = record {
  intent = record { name = "pay"; level = 0; metadata = ("region", str "eu") ∷ [] };
  state = ("user_id", str "ann") ∷ [];
}

abbrev standard_rule : Rule
standard_rule = record { when = ("level", atom (str "standard")) ∷ []; then_use = "memory" }

abbrev critical_rule : Rule
critical_rule = record { when = ("level", atom (str "critical")) ∷ []; then_use = "redis" }

abbrev request : Flat
request = extract_context critical_request []

misses : matches levels standard_rule request ≡ ok false
unfolding matches entries_match entry_matches expected_level extract_context update get value_beq
    atom_beq
misses = refl

hits : matches levels critical_rule request ≡ ok true
unfolding matches entries_match entry_matches expected_level extract_context update get value_beq
    atom_beq
hits = refl

abbrev routed : Engine ℕ ℕ
routed =
    init
      ((
        "store",
        rule (("level", atom (str "critical")) ∷ []) (some "redis")
            ∷ ConfigEntry.default "memory"
            ∷ [],
      )
        ∷ [])
      (("redis", counting) ∷ ("memory", counting) ∷ []) [] 2
