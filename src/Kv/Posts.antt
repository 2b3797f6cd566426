-- ===== src/Kv/Posts.antt =====
-- What a block of Python code guarantees where it does not raise, step by step.
use mathlib.Core.Path.{subst}
use evoid_plugins.Prelude.{◌≡◌, ap}
use evoid_plugins.Py.Exec.{Result, ok, Exec, continue, lift, pure, continue-eq-ok}

module _ {S D : Type 0} (view : S → D) where
  -- Where the run `p` did not raise, `Q` holds of its answer and of what the view shows.
  abbrev pub Post : {A : Type 0} → Result A × S → (A → D → Type 0) → Type 0
  Post {A} p Q = (a : A) (s : S) → p ≡ (ok a, s) → Q a (view s)

  pub Post-continue :
      {A B : Type 0} (p : Result A × S) (f : A → Exec S B) (R : A → D → Type 0) (Q : B → D → Type 0)
      → Post p R
      → ((a : A) (s : S) → R a (view s) → Post (f a s) Q)
      → Post (continue p f) Q
  Post-continue p f R Q first rest b s ran =
      let (a, t, ran_first, ran_rest) = continue-eq-ok p f ran in
      rest a t (first a t ran_first) b s ran_rest

  pub Post-pure :
      {A : Type 0} (a : A) (s : S) (Q : A → D → Type 0) → Q a (view s) → Post (pure a s) Q
  Post-pure a s Q h b t ran =
      let b_is : a ≡ b = cc in
      subst (λ x. Q x (view t)) b_is (subst (λ x. Q a (view x)) (ap (λ r. r.1) ran) h)

  pub Post-lift :
      {A : Type 0} (r : Result A) (s : S) (Q : A → D → Type 0)
      → ((a : A) → r ≡ ok a → Q a (view s))
      → Post (lift r s) Q
  Post-lift r s Q h a t ran =
      subst (λ x. Q a (view x)) (ap (λ p. p.1) ran) (h a (ap (λ p. p.0) ran))

-- a call on the world, in a state that has a class beside it
pub Post-world :
    {C W D A : Type 0} (view : W → D) (call : W → Result A × W) (c : C) (w : W) (Q : A → D → Type 0)
    → ((a : A) (w' : W) → call w ≡ (ok a, w') → Q a (view w'))
    → Post (λ (s : C × W). view s.1) ((call w).0, (c, (call w).1)) Q
Post-world view call c w Q h a s ran = h a s.1 (ap (λ p. (p.0, p.1.1)) ran)
