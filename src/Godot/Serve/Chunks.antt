-- ===== src/Godot/Serve/Chunks.antt =====
-- The chunks of a file, for `_serve_chunk` and `_count_pck_chunks` of
-- packages/evoid-godot/evoid_godot/hosting.py.
use mathlib.Core.Path.{subst}
use native.Mathlib.Nat.{add-mul, mul-le-mul_right, div-add-mod', mod-lt}
use evoid_plugins.Prelude.{
  ℕ, zero, suc, ◌+◌, ◌-◌, ◌*◌, ◌/◌, ◌≤◌, ◌<◌, ◌≡◌, refl, sym, ap, ◌∙◌, true, false, [], ◌∷◌, ◌++◌,
  length, drop, ltb, leb, min, if◌then◌else◌, arith, le_or_lt, inl, inr, nat_eq, ◌==◌,
}
use evoid_plugins.Py.Exec.{ok_inj, ok, err}
use evoid_plugins.Transport.Bytes.{Bytes, take, slice}
use evoid_plugins.Godot.Build.{ceil_div, zero_division_error}
use evoid_plugins.Godot.Serve.{Body, bytes_body, page, serve_chunk}

abbrev pub content_of : Body → Bytes
content_of (bytes_body bytes) = bytes
content_of _ = []

-- what a client has after it asked for `count` chunks from the chunk `n` on
unfoldable pub fetch : Bytes → ℕ → ℕ → ℕ → Bytes
fetch pck chunk_size zero n = []
fetch pck chunk_size (suc count) n =
    content_of (serve_chunk pck n chunk_size).body ++ fetch pck chunk_size count (n + 1)

take-drop : (c m : ℕ) (ys : Bytes) → m ≡ min c (length ys) → take m ys ++ drop c ys ≡ ys
take-drop zero zero ys h = refl
take-drop zero (suc m) ys h = absurd (omega arith)
take-drop (suc c) zero [] h = refl
take-drop (suc c) (suc m) [] h = absurd (omega arith)
take-drop (suc c) zero (y ∷ ys) h = absurd (omega arith)
take-drop (suc c) (suc m) (y ∷ ys) h = ap (λ l. y ∷ l) (take-drop c m ys (omega arith))

drop-drop : (a b c : ℕ) (xs : Bytes) → b ≡ a + c → drop b xs ≡ drop c (drop a xs)
drop-drop zero b c xs h = let e : b ≡ c = omega arith in rw e refl
drop-drop (suc a) zero c xs h = absurd (omega arith)
drop-drop (suc a) (suc b) zero [] h = refl
drop-drop (suc a) (suc b) (suc c) [] h = refl
drop-drop (suc a) (suc b) c (x ∷ xs) h = drop-drop a b c xs (omega arith)

drop_past : (n : ℕ) (xs : Bytes) → length xs ≤ n → drop n xs ≡ []
drop_past zero [] h = refl
drop_past zero (x ∷ xs) h = absurd (omega arith)
drop_past (suc n) [] h = refl
drop_past (suc n) (x ∷ xs) h = drop_past n xs (omega arith)

length-drop : (n : ℕ) (xs : Bytes) → length (drop n xs) ≡ length xs - n
length-drop zero xs = omega arith
length-drop (suc n) [] = omega arith
length-drop (suc n) (x ∷ xs) = omega (arith, length-drop n xs)

serve_chunk_past :
    (pck : Bytes) (n chunk_size : ℕ)
    → length pck ≤ n * chunk_size
    → serve_chunk pck n chunk_size ≡ page 416 (bytes_body [])
unfolding serve_chunk
serve_chunk_past pck n chunk_size h =
    let e : leb (length pck) (n * chunk_size) ≡ true = ground arith in rw e refl

serve_chunk_inside :
    (pck : Bytes) (n chunk_size : ℕ)
    → n * chunk_size < length pck
    → ((serve_chunk pck n chunk_size).status ≡ 206)
      × (content_of (serve_chunk pck n chunk_size).body
          ≡ take
              (min (n * chunk_size + chunk_size) (length pck) - n * chunk_size)
              (drop (n * chunk_size) pck))
unfolding serve_chunk slice
serve_chunk_inside pck n chunk_size h =
    let e : leb (length pck) (n * chunk_size) ≡ false = ground arith in rw e (refl, refl)

-- the chunk, and what follows it
serve_chunk-drop :
    (pck : Bytes) (n chunk_size : ℕ)
    → content_of (serve_chunk pck n chunk_size).body ++ drop (n * chunk_size + chunk_size) pck
      ≡ drop (n * chunk_size) pck
serve_chunk-drop pck n chunk_size = elim (le_or_lt (length pck) (n * chunk_size)) [
  | inl past ↦
      ap (λ r. content_of r.body ++ drop (n * chunk_size + chunk_size) pck)
        (serve_chunk_past pck n chunk_size past)
      ∙ drop_past (n * chunk_size + chunk_size) pck (omega arith)
      ∙ sym (drop_past (n * chunk_size) pck past)
  | inr inside ↦
      let m = min (n * chunk_size + chunk_size) (length pck) - n * chunk_size in
      let fits : m ≡ min chunk_size (length (drop (n * chunk_size) pck)) =
        omega (arith, length-drop (n * chunk_size) pck) in
      ap (λ l. l ++ drop (n * chunk_size + chunk_size) pck)
        (serve_chunk_inside pck n chunk_size inside).1
      ∙ ap (λ l. take m (drop (n * chunk_size) pck) ++ l)
          (drop-drop (n * chunk_size) (n * chunk_size + chunk_size) chunk_size pck refl)
      ∙ take-drop chunk_size m (drop (n * chunk_size) pck) fits
]

fetch-drop :
    (pck : Bytes) (chunk_size count n : ℕ)
    → length pck ≤ (n + count) * chunk_size
    → fetch pck chunk_size count n ≡ drop (n * chunk_size) pck
unfolding fetch
fetch-drop pck chunk_size zero n h =
    let e : n + zero ≡ n = omega arith in
    sym (drop_past (n * chunk_size) pck (subst (λ k. length pck ≤ k * chunk_size) e h))
fetch-drop pck chunk_size (suc count) n h =
    let e : n + suc count ≡ n + 1 + count = omega arith in
    let next : (n + 1) * chunk_size ≡ n * chunk_size + chunk_size =
      add-mul n 1 chunk_size ∙ omega arith in
    ap (λ l. content_of (serve_chunk pck n chunk_size).body ++ l)
      (fetch-drop pck chunk_size count (n + 1) (subst (λ k. length pck ≤ k * chunk_size) e h)
        ∙ ap (λ k. drop k pck) next)
    ∙ serve_chunk-drop pck n chunk_size

-- The chunks cover the file, and the last one is needed.
ceil_div-bounds :
    (size chunk_size chunks : ℕ)
    → 0 < chunk_size
    → ceil_div size chunk_size ≡ ok chunks
    → (size ≤ chunks * chunk_size) × (chunks * chunk_size < size + chunk_size)
unfolding ceil_div
ceil_div-bounds size chunk_size chunks pos h =
    let e : (chunk_size == 0) ≡ false = ground arith in
    let q = (size + (chunk_size - 1)) / chunk_size in
    let is : ok q ≡ ok chunks =
      subst (λ b. (if b then err zero_division_error else ok q) ≡ ok chunks) e h in
    subst (λ k. (size ≤ k * chunk_size) × (k * chunk_size < size + chunk_size)) (ok_inj is)
      (
        omega (
          arith,
          div-add-mod' (size + (chunk_size - 1)) chunk_size,
          mod-lt (size + (chunk_size - 1)) pos,
        ),
        omega (arith, div-add-mod' (size + (chunk_size - 1)) chunk_size),
      )

-- A client that asks for as many chunks as the manifest counts, from the first one on, has the file.
pub fetch-ceil_div :
    (pck : Bytes) (chunk_size chunks : ℕ)
    → 0 < chunk_size
    → ceil_div (length pck) chunk_size ≡ ok chunks
    → fetch pck chunk_size chunks 0 ≡ pck
fetch-ceil_div pck chunk_size chunks pos h =
    let none_before : 0 * chunk_size ≡ 0 = omega arith in
    let plus : 0 + chunks ≡ chunks = omega arith in
    fetch-drop pck chunk_size chunks 0 (
      subst (λ k. length pck ≤ k * chunk_size) (sym plus)
        (ceil_div-bounds (length pck) chunk_size chunks pos h).0)
    ∙ ap (λ k. drop k pck) none_before

-- A chunk is answered with the status 206 where its number is below the count of the manifest, and
-- with 416 and no bytes from there on.
pub serve_chunk-status :
    (pck : Bytes) (n chunk_size chunks : ℕ)
    → 0 < chunk_size
    → ceil_div (length pck) chunk_size ≡ ok chunks
    → ((serve_chunk pck n chunk_size).status ≡ (if ltb n chunks then 206 else 416))
      × (chunks ≤ n → (serve_chunk pck n chunk_size).body ≡ bytes_body [])
serve_chunk-status pck n chunk_size chunks pos h =
    let bounds = ceil_div-bounds (length pck) chunk_size chunks pos h in
    elim (le_or_lt chunks n) [
      | inl past ↦
          let covered : length pck ≤ n * chunk_size =
            omega (arith, bounds.0, mul-le-mul_right chunk_size past) in
          let refused = serve_chunk_past pck n chunk_size covered in
          (ap (λ r. r.status) refused ∙ ground arith, λ beyond. ap (λ r. r.body) refused)
      | inr below ↦
          let up_to : (n + 1) * chunk_size ≤ chunks * chunk_size =
            mul-le-mul_right chunk_size (omega arith) in
          let inside : n * chunk_size < length pck =
            omega (arith, bounds.1, up_to, add-mul n 1 chunk_size) in
          (
            (serve_chunk_inside pck n chunk_size inside).0 ∙ ground arith,
            λ beyond. absurd (omega (arith, below, beyond)),
          )
    ]
