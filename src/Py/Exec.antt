-- ===== src/Py/Exec.antt =====
-- Python code that changes a state and may raise. What was written before a raise stays written, so
-- the state comes back beside an error too.
use evoid_plugins.Prelude.{ℕ, Bool, true, false, ◌≡◌, refl}

-- The classes of exceptions that the plugins raise themselves. `foreign` is an exception of a class
-- below `Exception` that code outside of the plugins raises.
pub data Error : Type 0 where
  value_error key_error type_error attribute_error runtime_error timeout_error : Error
  foreign : ℕ → Error

pub data Result {ℓ} (A : Type ℓ) : Type ℓ where
  ok : A → Result A
  err : Error → Result A

abbrev pub Exec {ℓ} : Type ℓ → Type ℓ → Type ℓ
Exec S A = S → Result A × S

abbrev pub is_ok {ℓ} : {A : Type ℓ} → Result A → Bool
is_ok (ok a) = true
is_ok (err e) = false

module _ {ℓ} {S A : Type ℓ} where
  abbrev pub pure : A → Exec S A
  pure a s = (ok a, s)

  abbrev pub raise : Error → Exec S A
  raise e s = (err e, s)

  abbrev pub lift : Result A → Exec S A
  lift r s = (r, s)

  -- the handler of `except Exception`, run where the block raised
  abbrev pub handle : Result A × S → Exec S A → Result A × S
  handle (ok a, s) handler = (ok a, s)
  handle (err e, s) handler = handler s

  -- `try: body` / `except Exception: handler`
  abbrev pub try_except : Exec S A → Exec S A → Exec S A
  try_except body handler s = handle (body s) handler

module _ {ℓ} {S A B : Type ℓ} where
  -- the rest of a block, run where its first part did not raise
  abbrev pub continue : Result A × S → (A → Exec S B) → Result B × S
  continue (ok a, s) f = f a s
  continue (err e, s) f = (err e, s)

  infixl 5 ◌>>=◌ ◌>>◌
  abbrev pub ◌>>=◌ : Exec S A → (A → Exec S B) → Exec S B
  ◌>>=◌ m f s = continue (m s) f

  abbrev pub ◌>>◌ : Exec S A → Exec S B → Exec S B
  m >> n = m >>= λ _. n

-- Inversion of a block that did not raise: neither of its parts raised.
pub continue-eq-ok {ℓ} :
    {S A B : Type ℓ} (p : Result A × S) (f : A → Exec S B) {b : B} {s' : S}
    → continue p f ≡ (ok b, s')
    → (a : A) × (s : S) × (p ≡ (ok a, s)) × (f a s ≡ (ok b, s'))
continue-eq-ok (ok a, s) f h = (a, s, refl, h)
continue-eq-ok (err e, s) f h = cc

pub ok_inj {ℓ} : {A : Type ℓ} {a b : A} → ok a ≡ ok b → a ≡ b
ok_inj h = cc
