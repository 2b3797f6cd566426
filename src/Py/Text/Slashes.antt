-- ===== src/Py/Text/Slashes.antt =====
-- `strip` and `join` of Python's texts for one character.
use Prim.Native.Char.{Char, code}
use Prim.Native.String.{◌++◌ as concat}
use text.Mathlib.TextEquality.{Char-path}
use text.Mathlib.TextLemmas.{nil-append, cons-append}
use evoid_plugins.Prelude.{
  ℕ, String, Bool, true, false, ◌&&◌, ◌≡◌, refl, sym, ap, ◌∙◌, List, [], ◌∷◌, if◌then◌else◌,
  nat_beq, arith, Bool-cases, inl, inr,
}
use evoid_plugins.Py.Text.{split, push}

-- `s.lstrip(c)`
unfoldable pub lstrip : ℕ → String → String
lstrip c String.[] = ""
lstrip c (String.◌∷◌ d s) =
    let rest = lstrip c s in if nat_beq (code d) c then rest else String.◌∷◌ d s

abbrev pub is_empty : String → Bool
is_empty String.[] = true
is_empty (String.◌∷◌ c s) = false

-- `s.rstrip(c)`
unfoldable pub rstrip : ℕ → String → String
rstrip c String.[] = ""
rstrip c (String.◌∷◌ d s) =
    let rest = rstrip c s in if nat_beq (code d) c && is_empty rest then "" else String.◌∷◌ d rest

-- `s.strip(c)`
unfoldable pub strip : ℕ → String → String
strip c s = rstrip c (lstrip c s)

abbrev joined : Char → String → List String → String
joined sep part [] = part
joined sep part (next ∷ rest) = concat part (String.◌∷◌ sep (joined sep next rest))

-- `sep.join(parts)`
unfoldable pub join : Char → List String → String
join sep [] = ""
join sep (part ∷ rest) = joined sep part rest

joined-push :
    (sep d : Char) (p : String) (ps : List String)
    → joined sep (String.◌∷◌ d p) ps ≡ String.◌∷◌ d (joined sep p ps)
joined-push sep d p [] = refl
joined-push sep d p (next ∷ rest) = rw cons-append refl

split-joined :
    (sep : Char) (s : String)
    → (p : String) × (ps : List String) × (split (code sep) s ≡ p ∷ ps) × (joined sep p ps ≡ s)
unfolding split
split-joined sep String.[] = ("", [], refl, refl)
split-joined sep (String.◌∷◌ d s) =
    let (p, ps, parts, whole) = split-joined sep s in
    elim (Bool-cases (nat_beq (code d) (code sep))) [
      | inl same ↦
          let is : d ≡ sep = Char-path d sep (ground arith) in
          (
            "",
            p ∷ ps,
            rw same (ap (λ l. "" ∷ l) parts),
            nil-append (String.◌∷◌ sep (joined sep p ps))
                ∙ ap (λ t. String.◌∷◌ sep t) whole
                ∙ ap (λ c. String.◌∷◌ c s) (sym is),
          )
      | inr other ↦ (
        String.◌∷◌ d p,
        ps,
        rw other (ap (push d) parts),
        joined-push sep d p ps ∙ ap (λ t. String.◌∷◌ d t) whole,
      )
    ]

-- What was split is joined again.
pub join-split : (sep : Char) (s : String) → join sep (split (code sep) s) ≡ s
unfolding join
join-split sep s = let (p, ps, parts, whole) = split-joined sep s in ap (join sep) parts ∙ whole

pub is_empty-concat : (s t : String) → is_empty t ≡ false → is_empty (concat s t) ≡ false
is_empty-concat String.[] t h = rw (nil-append t) h
is_empty-concat (String.◌∷◌ d s) t h = rw cons-append refl

-- Stripping at the end leaves a text in front of one that stays.
pub rstrip-concat :
    (c : ℕ) (s t : String)
    → rstrip c t ≡ t
    → is_empty t ≡ false
    → rstrip c (concat s t) ≡ concat s t
unfolding rstrip
rstrip-concat c String.[] t stays full = rw (nil-append t) stays
rstrip-concat c (String.◌∷◌ d s) t stays full =
    rw cons-append (rw (rstrip-concat c s t stays full) (ground (arith, is_empty-concat s t)))

pub rstrip-cons :
    (c : ℕ) (d : Char) (t : String)
    → rstrip c t ≡ t
    → is_empty t ≡ false
    → rstrip c (String.◌∷◌ d t) ≡ String.◌∷◌ d t
unfolding rstrip
rstrip-cons c d t stays full = rw stays (ground arith)
