-- ===== src/Di/Rules/Matching.antt =====
-- Which rule of a rule set applies.
use evoid_plugins.Prelude.{
  ◌≡◌, ◌≢◌, refl, sym, ap, ◌∙◌, String, true, false, ◌||◌, Option, some, List, [], ◌∷◌, ◌++◌, arith,
  string_eq, ==_iff,
}
use mathlib.Core.List.{append-nil}
use evoid_plugins.Py.Dict.{get, has_key, put}
use evoid_plugins.Py.Dict.Laws.{has_key-put, has_key-eq}
use evoid_plugins.Py.Exec.{ok}
use evoid_plugins.Py.Value.{Value, atom, nil, value_beq}
use evoid_plugins.Evoid.{Levels, Context}
use evoid_plugins.Di.Rules.{
  Flat, update, extract_context, Rule, entry_matches, entries_match, matches, first_match, resolve,
}

has_key-update :
    (ctx extra : Flat) (k : String)
    → has_key (update ctx extra) k ≡ (has_key ctx k || has_key extra k)
unfolding update has_key
has_key-update ctx [] k = ground arith
has_key-update ctx ((j, v) ∷ extra) k =
    ground (arith, has_key-update (put ctx j v) extra k, has_key-put ctx j k v)

-- A context has the five keys of the extractor and those of `extra`.
has_key-extract_context :
    (c : Context) (extra : Flat)
    → has_key (extract_context c extra) "metadata_value" ≡ has_key extra "metadata_value"
unfolding extract_context has_key
has_key-extract_context c extra = has_key-update _ extra "metadata_value"

module _ (levels : Levels) where
  -- A rule that matches meets each of its entries.
  entry_of_entries_match :
      (when context : Flat) (entries : Flat) (k : String) (v : Value)
      → entries_match levels when context entries ≡ ok true
      → get entries k ≡ some v
      → entry_matches levels when context k v ≡ ok true
  unfolding entries_match get
  entry_of_entries_match when context [] k v h e = cc
  entry_of_entries_match when context ((j, w) ∷ rest) k v h e =
      ground (arith, ==_iff j k, entry_of_entries_match when context rest k v)

  -- A rule with the entry `metadata_value` (which is no test of its own, but belongs to
  -- `metadata_key`) other than `None` matches no context, unless the caller's `extra` has a key of
  -- that name.
  pub matches_metadata_value :
      (rule : Rule) (c : Context) (extra : Flat) (v : Value)
      → get rule.when "metadata_value" ≡ some v
      → value_beq (atom nil) v ≡ false
      → has_key extra "metadata_value" ≡ false
      → matches levels rule (extract_context c extra) ≢ ok true
  unfolding matches entry_matches
  matches_metadata_value rule c extra v e wants absent h =
      let context = extract_context c extra in
      let met = entry_of_entries_match rule.when context rule.when "metadata_value" v h e in
      ground (arith, met, has_key-eq context "metadata_value", has_key-extract_context c extra)

  -- Every rule of the list was looked at and does not match.
  abbrev pub NoneMatches : List Rule → Flat → Type 0
  NoneMatches [] context = Unit
  NoneMatches (r ∷ rest) context = (matches levels r context ≡ ok false) × NoneMatches rest context

  first_match-append :
      (before rest : List Rule) (context : Flat) (fallback : Option String)
      → NoneMatches before context
      → first_match levels (before ++ rest) context fallback
        ≡ first_match levels rest context fallback
  unfolding first_match
  first_match-append [] rest context fallback h = refl
  first_match-append (r ∷ before) rest context fallback h =
      ground (arith, first_match-append before rest context fallback)

  first_match-cons :
      (r : Rule) (rest : List Rule) (context : Flat) (fallback : Option String)
      → matches levels r context ≡ ok true
      → first_match levels (r ∷ rest) context fallback ≡ ok (some r.then_use)
  unfolding first_match
  first_match-cons r rest context fallback m = ground arith

  first_match-nil :
      (context : Flat) (fallback : Option String)
      → first_match levels [] context fallback ≡ ok fallback
  unfolding first_match
  first_match-nil context fallback = refl

  -- `resolve` takes the first rule that matches, whatever rules stand behind it, and the default
  -- where no rule matches.
  pub resolve_first :
      (before rest : List Rule) (r : Rule) (fallback : Option String) (context : Flat)
      → NoneMatches before context
      → matches levels r context ≡ ok true
      → (resolve levels (record { rules = before ++ r ∷ rest; default = fallback }) context
          ≡ ok (some r.then_use))
        × (resolve levels (record { rules = before; default = fallback }) context ≡ ok fallback)
  unfolding resolve
  resolve_first before rest r fallback context h m = (
    first_match-append before (r ∷ rest) context fallback h
        ∙ first_match-cons r rest context fallback m,
    ap (λ l. first_match levels l context fallback) (sym (append-nil before))
        ∙ first_match-append before [] context fallback h
        ∙ first_match-nil context fallback,
  )
