-- ===== src/Di/Rules.antt =====
-- packages/evoid-di/evoid_di/rules.py and context_extractor.py
pub mod Matching
use evoid_plugins.Prelude.{
  ℕ, String, Bool, true, false, not, ◌&&◌, Option, none, some, List, [], ◌∷◌, ◌++◌, string_eq, ◌==◌,
  if◌then◌else◌,
}
use evoid_plugins.Py.Dict.{Dict, get, get_or, has_key, put}
use evoid_plugins.Py.Exec.{Error, key_error, type_error, attribute_error, Result, ok, err}
use evoid_plugins.Py.Value.{
  Atom, nil, str, number, enum, Value, atom, table, value_beq, atom_truthy,
}
use evoid_plugins.Evoid.{Levels, Intent, Context}

-- The flat dictionary that rules are matched against.
abbrev pub Flat : Type 0
Flat = Dict String Value

-- `ctx.update(extra)`
unfoldable pub update : Flat → Flat → Flat
update ctx [] = ctx
update ctx ((k, v) ∷ extra) = update (put ctx k v) extra

unfoldable pub extract_context : Context → Flat → Flat
unfolding update
extract_context ev_ctx extra =
    update
      (("level", atom (enum ev_ctx.intent.level))
        ∷ ("name", atom (str ev_ctx.intent.name))
        ∷ ("metadata", table ev_ctx.intent.metadata)
        ∷ ("user_id", atom (get_or ev_ctx.state "user_id" nil))
        ∷ ("user_role", atom (get_or ev_ctx.state "user_role" nil))
        ∷ [])
      extra

pub record Rule : Type 0 where
  pub when : Flat
  pub then_use : String

-- `d.get(k)`, as a value: `None` for a missing key
abbrev pub value_at : Flat → String → Value
value_at d k = get_or d k (atom nil)

-- `meta.get(expected)` on the context's metadata; a dictionary is no key, and what is no
-- dictionary has no `get`
pub meta_get : Value → Value → Result Value
meta_get (table meta) (atom (str k)) = ok (atom (get_or meta k nil))
meta_get (table meta) (atom a) = ok (atom nil)
meta_get (table meta) (table t) = err type_error
meta_get (atom a) expected = err attribute_error

-- `expected in meta`. A caller can replace the metadata by a text, in which `in` looks for a part;
-- that is not modelled, and raises here.
pub meta_has : Value → Value → Result Bool
meta_has (table meta) (atom (str k)) = ok (has_key meta k)
meta_has (table meta) (atom a) = ok false
meta_has (table meta) (table t) = err type_error
meta_has (atom a) expected = err type_error

module _ (levels : Levels) where
  -- `Level[expected.upper()]` for a text, and any other value as it is
  unfoldable pub expected_level : Value → Result Value
  expected_level (atom (str s)) = elim (levels.named s) [
    | none ↦ err key_error
    | some l ↦ ok (atom (enum l))
  ]
  expected_level v = ok v

  abbrev compare_level : Value → Result Value → Result Bool
  compare_level actual (ok expected) = ok (value_beq actual expected)
  compare_level actual (err e) = err e

  abbrev compare_meta : Value → Result Value → Result Bool
  compare_meta wanted (ok found) = ok (value_beq found wanted)
  compare_meta wanted (err e) = err e

  -- one round of the loop over `self.when.items()`: whether the entry is met
  unfoldable pub entry_matches : Flat → Flat → String → Value → Result Bool
  unfolding expected_level meta_get meta_has
  entry_matches when context key expected =
      if key == "level"
      then compare_level (value_at context key) (expected_level expected)
      else if key == "metadata_key"
      then compare_meta (value_at when "metadata_value")
          (meta_get (get_or context "metadata" (table [])) expected)
      else if key == "metadata_has"
      then meta_has (get_or context "metadata" (table [])) expected
      else ok (value_beq (value_at context key) expected)

  -- the loop: it ends at the first entry that is not met, or that raises
  unfoldable pub entries_match : Flat → Flat → Flat → Result Bool
  entries_match when context [] = ok true
  entries_match when context ((key, expected) ∷ rest) =
      let later = entries_match when context rest in
      elim (entry_matches when context key expected) [
        | ok true ↦ later
        | ok false ↦ ok false
        | err e ↦ err e
      ]

  unfoldable pub matches : Rule → Flat → Result Bool
  matches rule context = entries_match rule.when context rule.when

-- One entry of a rule set's configuration, by its key and the type of its value: the key `default`,
-- the key `scope`, any other key with a table (its `when` and `then`), or with another value.
pub data ConfigEntry : Type 0 where
  default scope : String → ConfigEntry
  rule : (when : Flat) (then_use : Option String) → ConfigEntry
  other : ConfigEntry

pub record RuleSet : Type 0 where
  pub rules : List Rule
  pub default : Option String

-- `if then: self.rules.append(Rule(when, then))`
unfoldable pub add_rule : RuleSet → Flat → Option String → RuleSet
add_rule s when none = s
add_rule s when (some then_use) =
    if then_use == ""
    then s
    else record s { rules = s.rules ++ (record { when = when; then_use = then_use }) ∷ [] }

unfoldable pub load_entry : RuleSet → ConfigEntry → RuleSet
unfolding add_rule
load_entry s (ConfigEntry.default name) = record s { default = some name }
load_entry s (scope name) = s
load_entry s (rule when then_use) = add_rule s when then_use
load_entry s other = s

unfoldable pub load_entries : RuleSet → List ConfigEntry → RuleSet
load_entries s [] = s
load_entries s (c ∷ rest) = load_entries (load_entry s c) rest

-- `RuleSet(rules_config)`
unfoldable pub make_rule_set : List ConfigEntry → RuleSet
unfolding load_entries load_entry
make_rule_set config = load_entries (record { rules = []; default = none }) config

module _ (levels : Levels) where
  -- the loop over the rules: the first that matches, else the default
  unfoldable pub first_match : List Rule → Flat → Option String → Result (Option String)
  first_match [] context fallback = ok fallback
  first_match (r ∷ rest) context fallback =
      let later = first_match rest context fallback in
      elim (matches levels r context) [
        | ok true ↦ ok (some r.then_use)
        | ok false ↦ later
        | err e ↦ err e
      ]

  unfoldable pub resolve : RuleSet → Flat → Result (Option String)
  unfolding first_match
  resolve s context = first_match s.rules context s.default
