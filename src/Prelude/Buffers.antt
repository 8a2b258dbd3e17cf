-- ===== src/Prelude/Buffers.antt =====
-- Reads of a buffer at a position whose contents are known.
use Prim.Native.Nat.{ℕ, ◌+◌, ◌-◌, ◌≤◌}
use mathlib.Core.Path.{◌≡◌, refl, ap}
use mathlib.Core.List.{List, [], ◌∷◌, ◌++◌}
use native.Mathlib.Omega.{arith}
use bacnet_sim.Prelude.Tests.{le→leb}
use bacnet_sim.Prelude.Lists.{length, take, drop, length-append, length-drop, take-append}
use bacnet_sim.Prelude.Results.{ok, slice}

module _ {ℓ} {E : Type 0} {A : Type ℓ} (buf : List A) (pos : ℕ) where
  pub slice_at :
      (xs rest : List A)
      → pos + length xs ≤ length buf
      → drop pos buf ≡ xs ++ rest
      → slice {E = E} buf pos (pos + length xs) ≡ ok xs
  slice_at xs rest p h =
      rw (le→leb pos (pos + length xs) (omega arith), le→leb _ _ p, h, cancel, take-append xs rest)
    where
      cancel : pos + length xs - pos ≡ length xs
      cancel = omega arith

module _ {ℓ} {A : Type ℓ} where
  pub take_all : (xs : List A) → take (length xs) xs ≡ xs
  take_all [] = refl
  take_all (x ∷ xs) = ap (λ (t : List A). x ∷ t) (take_all xs)

-- `&buf[n..]`
module _ {ℓ} {E : Type 0} {A : Type ℓ} where
  pub slice_tail :
      (buf : List A) (n : ℕ) → n ≤ length buf → slice {E = E} buf n (length buf) ≡ ok (drop n buf)
  slice_tail buf n h = rw (
    le→leb n (length buf) h,
    le→leb (length buf) (length buf) (omega arith),
    ← length-drop n buf,
    take_all (drop n buf),
  )

module _ {ℓ} {A : Type ℓ} (buf : List A) (pos : ℕ) where
  pub length_at_append :
      (xs ys : List A) → 1 ≤ length xs → drop pos buf ≡ xs ++ ys → pos + length xs ≤ length buf
  length_at_append xs ys p h = omega (arith, length-drop pos buf, ap length h, length-append xs ys)
