-- ===== src/Prelude/Maps.antt =====
-- `HashMap` and `DashMap` as association lists with one entry for a key. The order of iteration is
-- the order of first insertion; the program's own order is unspecified.
use Prim.Native.Nat.{ℕ, suc}
use mathlib.Core.Path.{◌≡◌, refl}
use mathlib.Core.Logic.{◌↔◌, inl, inr}
use mathlib.Core.Bool.{Bool, true, false, ◌&&◌}
use mathlib.Core.Option.{Option, none, some}
use mathlib.Core.List.{List, [], ◌∷◌}
use native.Mathlib.Omega.{arith}
use bacnet_sim.Prelude.Tests.{if◌then◌else◌, ◌==◌, ==_iff, Bool-cases}
use bacnet_sim.Prelude.Lists.{length}

-- Equality of keys, as the program tests it.
pub record Key {ℓ} (K : Type ℓ) : Type ℓ where
  pub same : K → K → Bool
  pub same_iff : (a b : K) → (same a b ≡ true) ↔ (a ≡ b)

instance abbrev pub nat_key : Key ℕ
nat_key = record { same = ◌==◌; same_iff = ==_iff }

-- Equality of byte strings.
unfoldable pub same_bytes : List ℕ → List ℕ → Bool
same_bytes [] [] = true
same_bytes [] (y ∷ ys) = false
same_bytes (x ∷ xs) [] = false
same_bytes (x ∷ xs) (y ∷ ys) = x == y && same_bytes xs ys

pub same_bytes_iff : (a b : List ℕ) → (same_bytes a b ≡ true) ↔ (a ≡ b)
unfolding same_bytes
same_bytes_iff [] [] = (λ h. refl, λ h. refl)
same_bytes_iff [] (y ∷ ys) = (λ h. cc, λ h. cc)
same_bytes_iff (x ∷ xs) [] = (λ h. cc, λ h. cc)
same_bytes_iff (x ∷ xs) (y ∷ ys) = ground (arith, same_bytes_iff xs ys)

instance abbrev pub bytes_key : Key (List ℕ)
bytes_key = record { same = same_bytes; same_iff = same_bytes_iff }

abbrev pub Map {ℓ} : Type ℓ → Type ℓ → Type ℓ
Map K V = List (K × V)

module _ {ℓ} {K V : Type ℓ} ⦃key : Key K⦄ where
  unfoldable pub lookup : Map K V → K → Option V
  lookup [] k = none
  lookup ((j, v) ∷ m) k = if key.same j k then some v else lookup m k

  unfoldable pub insert : Map K V → K → V → Map K V
  insert [] k v = (k, v) ∷ []
  insert ((j, w) ∷ m) k v = if key.same j k then (j, v) ∷ m else (j, w) ∷ insert m k v

  unfoldable pub remove : Map K V → K → Map K V
  remove [] k = []
  remove ((j, w) ∷ m) k = let rest = remove m k in if key.same j k then rest else (j, w) ∷ rest

module _ {ℓ} {K V : Type ℓ} ⦃key : Key K⦄ where
  pub lookup-insert :
      (m : Map K V) (k j : K) (v : V)
      → lookup (insert m k v) j ≡ (if key.same k j then some v else lookup m j)
  unfolding lookup insert
  lookup-insert [] k j v = refl
  lookup-insert ((i, w) ∷ m) k j v =
      ground (arith, key.same_iff i k, key.same_iff i j, key.same_iff k j, lookup-insert m k j v)

  pub lookup-remove :
      (m : Map K V) (k j : K) → lookup (remove m k) j ≡ (if key.same k j then none else lookup m j)
  unfolding lookup remove
  lookup-remove [] k j = ground arith
  lookup-remove ((i, w) ∷ m) k j =
      ground (arith, key.same_iff i k, key.same_iff i j, key.same_iff k j, lookup-remove m k j)

  -- An entry more, or one replaced.
  pub length-insert_new :
      (m : Map K V) (k : K) (v : V) → lookup m k ≡ none → length (insert m k v) ≡ suc (length m)
  unfolding lookup insert
  length-insert_new [] k v h = refl
  length-insert_new ((i, w) ∷ m) k v h = ground (arith, length-insert_new m k v)

  pub length-insert_old :
      (m : Map K V) (k : K) (v w : V) → lookup m k ≡ some w → length (insert m k v) ≡ length m
  unfolding lookup insert
  length-insert_old [] k v w h = ground arith
  length-insert_old ((i, u) ∷ m) k v w h = ground (arith, length-insert_old m k v w)

  -- One entry for each key.
  abbrev pub Unique : Map K V → Type ℓ
  Unique [] = Unit
  Unique ((k, v) ∷ m) = (lookup m k ≡ none) × Unique m

  pub insert-Unique : (m : Map K V) (k : K) (v : V) → Unique m → Unique (insert m k v)
  unfolding insert lookup
  insert-Unique [] k v u = (refl, tt)
  insert-Unique ((j, w) ∷ m) k v (fresh, u) = elim (Bool-cases (key.same j k)) [
    | inl e ↦ rw e (fresh, u)
    | inr e ↦ rw e (
      ground (arith, key.same_iff j k, key.same_iff k j, fresh, e, lookup-insert m k j v),
      insert-Unique m k v u,
    )
  ]

  pub remove-Unique : (m : Map K V) (k : K) → Unique m → Unique (remove m k)
  unfolding remove
  remove-Unique [] k u = tt
  remove-Unique ((j, w) ∷ m) k (fresh, u) = elim (Bool-cases (key.same j k)) [
    | inl e ↦ rw e (remove-Unique m k u)
    | inr e ↦ rw e (ground (arith, fresh, lookup-remove m k j), remove-Unique m k u)
  ]
