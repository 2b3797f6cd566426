-- ===== src/Kv/Commands.antt =====
-- What the storage packages promise together: reads, writes and deletes act on a map from keys and
-- namespaces to values. The packages' classes fill this interface in their modules.
use evoid_plugins.Prelude.{Bool, true, ◌≡◌, refl, sym, ap, ◌∙◌, Option, List, [], ◌∷◌}
use mathlib.Core.Path.{subst}
use evoid_plugins.Py.Dict.{Dict, get, has_key, put, remove}
use evoid_plugins.Py.Exec.{Result, ok, err, Exec, is_ok, continue, pure, ◌>>=◌, continue-eq-ok}
use evoid_plugins.Kv.Table.{Row, row_eq}

-- `S` is the state of a class with the world. `holds s m` says that `s` stores the map `m`, and
-- `deleted b` what a delete answers, where `b` says whether there was a value.
pub record Store (S V : Type 0) : Type 1 where
  pub read : Row → Exec S (Option V)
  pub write : Row → V → Exec S Bool
  pub delete : Row → Exec S Bool
  pub deleted : Bool → Bool
  pub holds : S → Dict Row V → Type 0
  pub read-ok :
      (k : Row) (m : Dict Row V) (s s' : S) (found : Option V)
      → holds s m
      → read k s ≡ (ok found, s')
      → (found ≡ get m k) × holds s' m
  pub write-ok :
      (k : Row) (v : V) (m : Dict Row V) (s s' : S) (b : Bool)
      → holds s m
      → write k v s ≡ (ok b, s')
      → (b ≡ true) × holds s' (put m k v)
  pub delete-ok :
      (k : Row) (m : Dict Row V) (s s' : S) (b : Bool)
      → holds s m
      → delete k s ≡ (ok b, s')
      → (b ≡ deleted (has_key m k)) × holds s' (remove m k)

pub data Command (V : Type 0) : Type 0 where
  read_key : Row → Command V
  write_key : Row → V → Command V
  delete_key : Row → Command V

pub data Answer (V : Type 0) : Type 0 where
  value_of_key : Option V → Answer V
  done : Bool → Answer V

module _ {V : Type 0} (deleted : Bool → Bool) where
  -- the commands on a map
  abbrev pub obey : Command V → Dict Row V → Answer V × Dict Row V
  obey (read_key k) m = (value_of_key (get m k), m)
  obey (write_key k v) m = (done true, put m k v)
  obey (delete_key k) m = (done (deleted (has_key m k)), remove m k)

  unfoldable pub obey_all : List (Command V) → Dict Row V → List (Answer V) × Dict Row V
  obey_all [] m = ([], m)
  obey_all (c ∷ cs) m = let (answers, m') = obey_all cs (obey c m).1 in ((obey c m).0 ∷ answers, m')

module _ {S V : Type 0} (store : Store S V) where
  open store use {read, write, delete, deleted, holds, read-ok, write-ok, delete-ok}

  abbrev pub serve : Command V → Exec S (Answer V)
  serve (read_key k) = do found ← read k; pure (value_of_key found)
  serve (write_key k v) = do b ← write k v; pure (done b)
  serve (delete_key k) = do b ← delete k; pure (done b)

  unfoldable pub serve_all : List (Command V) → Exec S (List (Answer V))
  serve_all [] = pure []
  serve_all (c ∷ cs) = do answer ← serve c; answers ← serve_all cs; pure (answer ∷ answers)

  -- the end of a block that did not raise
  ended :
      {A B : Type 0} (f : A → B) (P : S → Type 0) (a b : A) (t s' : S) (answer : B)
      → pure (f a) t ≡ (ok answer, s')
      → (a ≡ b) × P t
      → (answer ≡ f b) × P s'
  ended f P a b t s' answer same (agrees, kept) =
      let t_is : t ≡ s' = ap (λ r. r.1) same in
      let answer_is : f a ≡ answer = cc in (sym answer_is ∙ ap f agrees, subst P t_is kept)

  serve-obey :
      (c : Command V) (m : Dict Row V) (s s' : S) (answer : Answer V)
      → holds s m
      → serve c s ≡ (ok answer, s')
      → (answer ≡ (obey deleted c m).0) × holds s' (obey deleted c m).1
  serve-obey (read_key k) m s s' answer h ran =
      let (found, t, first, rest) = continue-eq-ok (read k s) (λ x. pure (value_of_key x)) ran in
      ended value_of_key (λ u. holds u m) found (get m k) t s' answer rest
        (read-ok k m s t found h first)
  serve-obey (write_key k v) m s s' answer h ran =
      let (b, t, first, rest) = continue-eq-ok (write k v s) (λ x. pure (done x)) ran in
      ended done (λ u. holds u (put m k v)) b true t s' answer rest (write-ok k v m s t b h first)
  serve-obey (delete_key k) m s s' answer h ran =
      let (b, t, first, rest) = continue-eq-ok (delete k s) (λ x. pure (done x)) ran in
      ended done (λ u. holds u (remove m k)) b (deleted (has_key m k)) t s' answer rest
        (delete-ok k m s t b h first)

  -- Where a sequence of commands does not raise, its answers are those of the map, and what is stored
  -- afterwards is the map's.
  pub serve_all-obey_all :
      (cs : List (Command V)) (m : Dict Row V) (s s' : S) (answers : List (Answer V))
      → holds s m
      → serve_all cs s ≡ (ok answers, s')
      → (answers ≡ (obey_all deleted cs m).0) × holds s' (obey_all deleted cs m).1
  unfolding serve_all obey_all
  serve_all-obey_all [] m s s' answers h ran =
      let s_is : s ≡ s' = ap (λ r. r.1) ran in
      let answers_are : [] ≡ answers = cc in (sym answers_are, subst (λ u. holds u m) s_is h)
  serve_all-obey_all (c ∷ cs) m s s' answers h ran =
      let (answer, t, first, rest) =
        continue-eq-ok (serve c s) (λ a. serve_all cs >>= (λ as_. pure (a ∷ as_))) ran in
      let (more, u, second, last) =
        continue-eq-ok (serve_all cs t) (λ as_. pure (answer ∷ as_)) rest in
      let (answer_is, kept) = serve-obey c m s t answer h first in
      let (more_are, kept') = serve_all-obey_all cs (obey deleted c m).1 t u more kept second in
      let (answers_are, kept'') =
        ended (λ as_. answer ∷ as_) (λ x. holds x (obey_all deleted cs (obey deleted c m).1).1) more
          (obey_all deleted cs (obey deleted c m).1).0 u s' answers last (more_are, kept') in
      (answers_are ∙ ap (λ a. a ∷ (obey_all deleted cs (obey deleted c m).1).0) answer_is, kept'')

  still_ok :
      {A B : Type 0} (p : Result A × S) (f : A → Exec S B)
      → is_ok p.0 ≡ true
      → ((a : A) (t : S) → is_ok (f a t).0 ≡ true)
      → is_ok (continue p f).0 ≡ true
  still_ok (ok a, t) f first rest = rest a t
  still_ok (err e, t) f first rest = cc

  answers_all :
      (cs : List (Command V)) (s : S)
      → ((c : Command V) (t : S) → is_ok (serve c t).0 ≡ true)
      → is_ok (serve_all cs s).0 ≡ true
  unfolding serve_all
  answers_all [] s reliable = refl
  answers_all (c ∷ cs) s reliable =
      still_ok (serve c s) _ (reliable c s)
        (λ a t. still_ok (serve_all cs t) _ (answers_all cs t reliable) (λ as_ u. refl))

  -- Where no command ever raises, a sequence of commands answers what the map answers.
  pub serve_all_reliable :
      (cs : List (Command V)) (m : Dict Row V) (s : S)
      → ((c : Command V) (t : S) → is_ok (serve c t).0 ≡ true)
      → holds s m
      → (serve_all cs s).0 ≡ ok (obey_all deleted cs m).0
  serve_all_reliable cs m s reliable h = split (serve_all cs s) refl (answers_all cs s reliable)
    where
      split :
          (p : Result (List (Answer V)) × S)
          → serve_all cs s ≡ p
          → is_ok p.0 ≡ true
          → p.0 ≡ ok (obey_all deleted cs m).0
      split (ok answers, t) ran fine = ap ok (serve_all-obey_all cs m s t answers h ran).0
      split (err e, t) ran fine = cc
