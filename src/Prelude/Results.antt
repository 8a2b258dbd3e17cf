-- ===== src/Prelude/Results.antt =====
-- What a fallible Rust function does: it returns `Ok`, it returns `Err`, or it panics.
use Prim.Native.Nat.{ℕ, ◌-◌}
use mathlib.Core.Bool.{Bool, true, false, ◌&&◌}
use mathlib.Core.Option.{Option, none, some}
use mathlib.Core.List.{List}
use bacnet_sim.Prelude.Tests.{leb, if◌then◌else◌}
use bacnet_sim.Prelude.Lists.{length, get_elem?, take, drop}

pub data Outcome {ℓ} (E : Type 0) (A : Type ℓ) : Type ℓ where
  ok : A → Outcome E A
  err : E → Outcome E A
  panic : Outcome E A

infixl 5 ◌>>=◌ ◌>>◌
abbrev pub ◌>>=◌ {ℓ κ} :
    {E : Type 0} {A : Type ℓ} {B : Type κ} → Outcome E A → (A → Outcome E B) → Outcome E B
ok a >>= f = f a
err e >>= f = err e
panic >>= f = panic

abbrev pub ◌>>◌ {ℓ} : {E : Type 0} {B : Type ℓ} → Outcome E (Unit {0}) → Outcome E B → Outcome E B
m >> k = m >>= λ _. k

-- `if bad { return Err(e) }`
abbrev pub fail_if : {E : Type 0} → Bool → E → Outcome E (Unit {0})
fail_if true e = err e
fail_if false e = ok tt

-- `o.ok_or(e)?`
abbrev pub ok_or {ℓ} : {E : Type 0} {A : Type ℓ} → Option A → E → Outcome E A
ok_or (some a) e = ok a
ok_or none e = err e

-- `o.unwrap()`, and every other read that panics when there is nothing.
abbrev pub or_panic {ℓ} : {E : Type 0} {A : Type ℓ} → Option A → Outcome E A
or_panic (some a) = ok a
or_panic none = panic

module _ {ℓ} {E : Type 0} {A : Type ℓ} where
  -- `buf[i]`
  abbrev pub index : List A → ℕ → Outcome E A
  index buf i = or_panic (get_elem? buf i)

  -- `&buf[from..to]`
  abbrev pub slice : List A → ℕ → ℕ → Outcome E (List A)
  slice buf from to =
      if leb from to && leb to (length buf) then ok (take (to - from) (drop from buf)) else panic

  -- `r` is no panic.
  abbrev pub Returns : Outcome E A → Type 0
  Returns (ok a) = Unit
  Returns (err e) = Unit
  Returns panic = ⊥
