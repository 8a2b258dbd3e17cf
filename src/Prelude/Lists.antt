-- ===== src/Prelude/Lists.antt =====
-- Lists measured and indexed by native numbers, under the library's names, with the laws of a
-- position in a buffer.
use Prim.Native.Nat.{ℕ, zero, suc, ◌+◌, ◌-◌}
use mathlib.Core.Path.{◌≡◌, refl, ap, sym, ◌∙◌}
use mathlib.Core.List.{List, [], ◌∷◌, ◌++◌}
use mathlib.Core.Option.{Option, none, some}
use native.Mathlib.Omega.{arith}

module _ {ℓ} {A : Type ℓ} where
  abbrev pub length : List A → ℕ
  length [] = 0
  length (x ∷ xs) = suc (length xs)

  abbrev pub get_elem? : List A → ℕ → Option A
  get_elem? [] i = none
  get_elem? (x ∷ xs) zero = some x
  get_elem? (x ∷ xs) (suc i) = get_elem? xs i

  -- A write out of bounds changes nothing.
  abbrev pub set : List A → ℕ → A → List A
  set [] i v = []
  set (x ∷ xs) zero v = v ∷ xs
  set (x ∷ xs) (suc i) v = x ∷ set xs i v

  abbrev pub take : ℕ → List A → List A
  take zero xs = []
  take (suc n) [] = []
  take (suc n) (x ∷ xs) = x ∷ take n xs

  abbrev pub drop : ℕ → List A → List A
  drop zero xs = xs
  drop (suc n) [] = []
  drop (suc n) (x ∷ xs) = drop n xs

  abbrev pub replicate : ℕ → A → List A
  replicate zero a = []
  replicate (suc n) a = a ∷ replicate n a

  abbrev pub All {κ} : (A → Type κ) → List A → Type κ
  All P [] = Unit {κ}
  All P (x ∷ xs) = P x × All P xs

  pub length-append : (xs ys : List A) → length (xs ++ ys) ≡ length xs + length ys
  length-append [] ys = omega arith
  length-append (x ∷ xs) ys = omega (arith, length-append xs ys)

  pub length-drop : (n : ℕ) (xs : List A) → length (drop n xs) ≡ length xs - n
  length-drop zero xs = omega arith
  length-drop (suc n) [] = omega arith
  length-drop (suc n) (x ∷ xs) = omega (arith, length-drop n xs)

abbrev nil_of {ℓ} : (A : Type ℓ) → List A
nil_of A = []

module _ {ℓ} {A : Type ℓ} where
  pub length-set : (xs : List A) (i : ℕ) (v : A) → length (set xs i v) ≡ length xs
  length-set [] i v = refl
  length-set (x ∷ xs) zero v = refl
  length-set (x ∷ xs) (suc i) v = ap suc (length-set xs i v)

  pub take-append : (xs ys : List A) → take (length xs) (xs ++ ys) ≡ xs
  take-append [] ys = refl
  take-append (x ∷ xs) ys = ap (λ (t : List A). x ∷ t) (take-append xs ys)

  pub append_nil : (xs : List A) → xs ++ nil_of A ≡ xs
  append_nil [] = refl
  append_nil (x ∷ xs) = ap (λ (t : List A). x ∷ t) (append_nil xs)

  pub drop-append : (xs ys : List A) → drop (length xs) (xs ++ ys) ≡ ys
  drop-append [] ys = refl
  drop-append (x ∷ xs) ys = drop-append xs ys

  pub drop-nil : (n : ℕ) → drop n (nil_of A) ≡ []
  drop-nil zero = refl
  drop-nil (suc n) = refl

  pub get_elem?-drop : (n i : ℕ) (xs : List A) → get_elem? (drop n xs) i ≡ get_elem? xs (n + i)
  get_elem?-drop zero i xs = ap (get_elem? xs) (omega arith)
  get_elem?-drop (suc n) i [] = refl
  get_elem?-drop (suc n) i (x ∷ xs) =
      get_elem?-drop n i xs ∙ sym (ap (get_elem? (x ∷ xs)) (suc-add n i))
    where
      suc-add : (n i : ℕ) → suc n + i ≡ suc (n + i)
      suc-add n i = omega arith

  pub drop-drop : (m n : ℕ) (xs : List A) → drop m (drop n xs) ≡ drop (n + m) xs
  drop-drop m zero xs = ap (λ (k : ℕ). drop k xs) (omega arith)
  drop-drop m (suc n) [] = drop-nil m ∙ sym (drop-nil (suc n + m))
  drop-drop m (suc n) (x ∷ xs) =
      drop-drop m n xs ∙ sym (ap (λ (k : ℕ). drop k (x ∷ xs)) (suc-add n m))
    where
      suc-add : (n i : ℕ) → suc n + i ≡ suc (n + i)
      suc-add n i = omega arith

-- What stands at position `pos` of `buf`, as an equation `drop pos buf ≡ xs`.
module _ {ℓ} {A : Type ℓ} (buf : List A) (pos : ℕ) where
  pub get_at : {x : A} {xs : List A} → drop pos buf ≡ x ∷ xs → get_elem? buf pos ≡ some x
  get_at h =
      ap (get_elem? buf) (omega arith)
      ∙ sym (get_elem?-drop pos 0 buf)
      ∙ ap (λ (t : List A). get_elem? t 0) h

  pub get_past : drop pos buf ≡ nil_of A → get_elem? buf pos ≡ none
  get_past h =
      ap (get_elem? buf) (omega arith)
      ∙ sym (get_elem?-drop pos 0 buf)
      ∙ ap (λ (t : List A). get_elem? t 0) h

  pub get_at_add :
      {xs : List A} (i : ℕ) → drop pos buf ≡ xs → get_elem? buf (pos + i) ≡ get_elem? xs i
  get_at_add i h = rw (← h) (sym (get_elem?-drop pos i buf))

  pub drop_at_suc : {x : A} {xs : List A} → drop pos buf ≡ x ∷ xs → drop (pos + 1) buf ≡ xs
  drop_at_suc h = sym (drop-drop 1 pos buf) ∙ ap (drop 1) h

  pub drop_at : {xs : List A} (n : ℕ) → drop pos buf ≡ xs → drop (pos + n) buf ≡ drop n xs
  drop_at n h = sym (drop-drop n pos buf) ∙ ap (drop n) h

  pub drop_at_append : (xs ys : List A) → drop pos buf ≡ xs ++ ys → drop (pos + length xs) buf ≡ ys
  drop_at_append xs ys h = drop_at (length xs) h ∙ drop-append xs ys

  pub length_at : {x : A} {xs : List A} → drop pos buf ≡ x ∷ xs → length buf ≡ pos + length (x ∷ xs)
  length_at h = omega (arith, length-drop pos buf, ap length h)
