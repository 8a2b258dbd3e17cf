-- ===== src/Prelude/Safety.antt =====
-- What a fallible function ensures: it does not panic, and what it returns satisfies `P`.
use Prim.Native.Nat.{ℕ, suc, zero, ◌≤◌, ◌<◌}
use mathlib.Core.Path.{◌≡◌, refl}
use mathlib.Core.Logic.{◌≢◌}
use mathlib.Core.Bool.{Bool, true, false}
use mathlib.Core.Option.{Option, none, some}
use mathlib.Core.List.{List, [], ◌∷◌}
use native.Mathlib.Omega.{arith}
use bacnet_sim.Prelude.Tests.{if◌then◌else◌, ltb, le→leb}
use bacnet_sim.Prelude.Lists.{length, get_elem?}
use bacnet_sim.Prelude.Results.{Outcome, ok, err, panic, ◌>>=◌, fail_if, ok_or, index, slice}

pub data Ensures {ℓ} {E : Type 0} {A : Type ℓ} (P : A → Type 0) : Outcome E A → Type ℓ where
  returns : {a : A} → P a → Ensures P (ok a)
  fails : {e : E} → Ensures P (err e)

module _ {ℓ} {E : Type 0} {A : Type ℓ} {P : A → Type 0} where
  pub Ensures-ne-panic : {r : Outcome E A} → Ensures P r → r ≢ panic
  Ensures-ne-panic (returns p) = λ h. cc
  Ensures-ne-panic fails = λ h. cc

  pub Ensures-ok : {a : A} → Ensures {E = E} P (ok a) → P a
  Ensures-ok (returns p) = p

  pub weaken :
      {Q : A → Type 0} {r : Outcome E A} → ((a : A) → P a → Q a) → Ensures P r → Ensures Q r
  weaken f (returns p) = returns (f _ p)
  weaken f fails = fails

module _ {ℓ κ} {E : Type 0} {A : Type ℓ} {B : Type κ} {P : A → Type 0} {Q : B → Type 0} where
  pub Ensures-bind :
      {m : Outcome E A} {f : A → Outcome E B}
      → Ensures P m
      → ((a : A) → P a → Ensures Q (f a))
      → Ensures Q (m >>= f)
  Ensures-bind (returns p) k = k _ p
  Ensures-bind fails k = fails

module _ {E : Type 0} where
  pub Ensures-fail_if : (b : Bool) (e : E) → Ensures (λ _. b ≡ false) (fail_if b e)
  Ensures-fail_if true e = fails
  Ensures-fail_if false e = returns refl

module _ {ℓ} {E : Type 0} {A : Type ℓ} where
  pub Ensures-if :
      {P : A → Type 0} {r s : Outcome E A} (b : Bool)
      → (b ≡ true → Ensures P r)
      → (b ≡ false → Ensures P s)
      → Ensures P (if b then r else s)
  Ensures-if true f g = f refl
  Ensures-if false f g = g refl

  pub Ensures-slice :
      (buf : List A) (from to : ℕ)
      → from ≤ to
      → to ≤ length buf
      → Ensures {E = E} (λ _. Unit) (slice buf from to)
  Ensures-slice buf from to h k = rw (le→leb from to h, le→leb to (length buf) k) (returns tt)

module _ {E : Type 0} {A : Type 0} where
  pub Ensures-ok_or : (o : Option A) (e : E) → Ensures (λ a. o ≡ some a) (ok_or o e)
  Ensures-ok_or none e = fails
  Ensures-ok_or (some a) e = returns refl

  pub Ensures-index :
      (buf : List A) (i : ℕ)
      → i < length buf
      → Ensures {E = E} (λ x. get_elem? buf i ≡ some x) (index buf i)
  Ensures-index [] i h = absurd (omega arith)
  Ensures-index (x ∷ xs) zero h = returns refl
  Ensures-index (x ∷ xs) (suc i) h = Ensures-index xs i (omega arith)

module _ {ℓ} {A : Type ℓ} where
  pub get_elem?-lt : (buf : List A) (i : ℕ) (x : A) → get_elem? buf i ≡ some x → i < length buf
  get_elem?-lt [] i x h = cc
  get_elem?-lt (y ∷ ys) zero x h = omega arith
  get_elem?-lt (y ∷ ys) (suc i) x h = omega (arith, get_elem?-lt ys i x h)

pub ltb→le : (a b : ℕ) → ltb a b ≡ false → b ≤ a
ltb→le a b h = ground arith

-- `r` returns a value that satisfies `P`: no error and no panic.
pub data Gives {ℓ} {E : Type 0} {A : Type ℓ} (P : A → Type 0) : Outcome E A → Type ℓ where
  given : {a : A} → P a → Gives P (ok a)

module _ {ℓ κ} {E : Type 0} {A : Type ℓ} {B : Type κ} {P : A → Type 0} {Q : B → Type 0} where
  pub Gives-bind :
      {m : Outcome E A} {f : A → Outcome E B}
      → Gives P m
      → ((a : A) → P a → Gives Q (f a))
      → Gives Q (m >>= f)
  Gives-bind (given p) k = k _ p
