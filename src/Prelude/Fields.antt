-- ===== src/Prelude/Fields.antt =====
-- `|` of two numbers whose binary digits do not overlap is their sum.
use Prim.Native.Nat.{
  ℕ, zero, suc, ◌+◌, ◌*◌, ◌/◌, ◌^◌, ◌≤◌, ◌<◌, max, digits, bit_or, bit_or-bitwise,
}
use mathlib.Core.Path.{◌≡◌, refl, ap}
use native.Mathlib.Nat.{pow-suc}
use native.Mathlib.Omega.{arith}

-- With a digit to go for each of the first number's, whose low `k` digits are zero.
disjoint_digits :
    (n q k a b : ℕ) → a ≡ q * 2 ^ k → b < 2 ^ k → a ≤ n → digits (λ y. y) max n a b ≡ a + b
disjoint_digits zero q k a b whole low fuel = omega arith
disjoint_digits (suc n) q k zero b whole low fuel = omega arith
disjoint_digits (suc n) q zero (suc a) b whole low fuel = omega (
  arith,
  disjoint_digits n (q / 2) 0 (suc a / 2) (b / 2) (omega arith) (omega arith) (omega arith),
)
disjoint_digits (suc n) q (suc k) (suc a) b whole low fuel =
    let halves : q * 2 ^ suc k ≡ 2 * (q * 2 ^ k) =
      omega (arith, ap (λ (t : ℕ). q * t) (pow-suc 2 k)) in
    omega (
      arith,
      disjoint_digits n q k (suc a / 2) (b / 2) (omega arith) (omega (arith, pow-suc 2 k))
          (omega arith),
      pow-suc 2 k,
    )

pub bit_or-add : (q k b : ℕ) → b < 2 ^ k → bit_or (q * 2 ^ k) b ≡ q * 2 ^ k + b
bit_or-add q k b low =
    simp bit_or-bitwise (disjoint_digits (q * 2 ^ k) q k (q * 2 ^ k) b refl low (omega arith))
