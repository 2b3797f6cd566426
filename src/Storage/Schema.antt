-- ===== src/Storage/Schema.antt =====
-- packages/evoid-smart-storage/evoid_smart_storage/schema_enforcer.py
use evoid_plugins.Prelude.{
  ◌≡◌, refl, String, Bool, true, Option, none, List, [], ◌∷◌, arith, string_eq, if◌then◌else◌,
  contains, keep_if, all_of,
}
use evoid_plugins.Py.Dict.{Dict, get, get_or}
use evoid_plugins.Py.Dict.Laws.{get-keep_if}

abbrev pub Schemas : Type 0
Schemas = Dict String (List String)

module _ {V : Type 0} where
  -- the dictionary with the allowed fields; no list, or an empty one, allows all
  unfoldable pub restrict : List String → Dict String V → Dict String V
  restrict [] data' = data'
  restrict (a ∷ as') data' = keep_if (λ entry. contains (a ∷ as') entry.0) data'

  unfoldable pub apply : Schemas → String → Dict String V → Dict String V
  unfolding restrict
  apply schemas data_type data' = restrict (get_or schemas data_type []) data'

  unfoldable pub all_allowed : List String → Dict String V → Bool
  all_allowed [] data' = true
  all_allowed (a ∷ as') data' = all_of (λ entry. contains (a ∷ as') entry.0) data'

  unfoldable pub is_valid : Schemas → String → Dict String V → Bool
  unfolding all_allowed
  is_valid schemas data_type data' = all_allowed (get_or schemas data_type []) data'

abbrev pub get_allowed_fields : Schemas → String → Option (List String)
get_allowed_fields schemas data_type = get schemas data_type

-- The field may be stored.
abbrev pub allows : List String → String → Bool
allows [] field = true
allows (a ∷ as') field = contains (a ∷ as') field

module _ {V : Type 0} where
  get-restrict :
      (allowed : List String) (data' : Dict String V) (field : String)
      → get (restrict allowed data') field
        ≡ (if allows allowed field then get data' field else none)
  unfolding restrict
  get-restrict [] data' field = refl
  get-restrict (a ∷ as') data' field = get-keep_if (contains (a ∷ as')) data' field

  all_of-keep_if :
      (p : String → Bool) (d : Dict String V) → all_of (λ e. p e.0) (keep_if (λ e. p e.0) d) ≡ true
  unfolding all_of keep_if
  all_of-keep_if p [] = refl
  all_of-keep_if p (e ∷ d) = ground (arith, all_of-keep_if p d)

  keep_if-eq_self :
      (p : String → Bool) (d : Dict String V)
      → all_of (λ e. p e.0) d ≡ true
      → keep_if (λ e. p e.0) d ≡ d
  unfolding all_of keep_if
  keep_if-eq_self p [] h = refl
  keep_if-eq_self p (e ∷ d) h = ground (arith, keep_if-eq_self p d)

  all_allowed-restrict :
      (allowed : List String) (data' : Dict String V)
      → all_allowed allowed (restrict allowed data') ≡ true
  unfolding all_allowed restrict
  all_allowed-restrict [] data' = refl
  all_allowed-restrict (a ∷ as') data' = all_of-keep_if (contains (a ∷ as')) data'

  restrict_of_all_allowed :
      (allowed : List String) (data' : Dict String V)
      → all_allowed allowed data' ≡ true
      → restrict allowed data' ≡ data'
  unfolding all_allowed restrict
  restrict_of_all_allowed [] data' h = refl
  restrict_of_all_allowed (a ∷ as') data' h = keep_if-eq_self (contains (a ∷ as')) data' h

  -- What is stored passes the check, an allowed field keeps its value and any other is gone, and to
  -- enforce a schema once more changes nothing.
  pub apply_enforces :
      (schemas : Schemas) (data_type : String) (data' : Dict String V) (field : String)
      → (is_valid schemas data_type (apply schemas data_type data') ≡ true)
        × (get (apply schemas data_type data') field
            ≡ (if allows (get_or schemas data_type []) field then get data' field else none))
        × (apply schemas data_type (apply schemas data_type data') ≡ apply schemas data_type data')
  unfolding apply is_valid
  apply_enforces schemas data_type data' field =
      let allowed = get_or schemas data_type [] in
      (
        all_allowed-restrict allowed data',
        get-restrict allowed data' field,
        restrict_of_all_allowed allowed (restrict allowed data')
            (all_allowed-restrict allowed data'),
      )

  -- Data that passes the check is stored as it is.
  pub apply_of_is_valid :
      (schemas : Schemas) (data_type : String) (data' : Dict String V)
      → is_valid schemas data_type data' ≡ true
      → apply schemas data_type data' ≡ data'
  unfolding apply is_valid
  apply_of_is_valid schemas data_type data' h =
      restrict_of_all_allowed (get_or schemas data_type []) data' h
