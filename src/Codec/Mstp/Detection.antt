-- ===== src/Codec/Mstp/Detection.antt =====
-- What the header's checksum detects.
use Prim.Native.Nat.{bit_xor}
use bacnet_sim.Prelude.{
  ℕ, zero, suc, ◌+◌, ◌*◌, ◌<◌, ◌≡◌, ◌≢◌, refl, sym, ap, ◌∙◌, Bool, true, false, ◌&&◌, List, [], ◌∷◌,
  ◌++◌, arith, ltb, ◌==◌, ==_iff, if◌then◌else◌, has_bit, All, IsByte,
}
use mathlib.Core.List.{foldl}
use bacnet_sim.Codec.Mstp.{crc_bit, crc_bits, crc8}

-- The test of all numbers below `n`.
all_pass : ℕ → (ℕ → Bool) → Bool
all_pass zero p = true
all_pass (suc n) p = let rest = all_pass n p in if p n then rest else false

all_pass-at : (n : ℕ) (p : ℕ → Bool) (j : ℕ) → all_pass n p ≡ true → j < n → p j ≡ true
unfolding all_pass
all_pass-at zero p j h lt = absurd (omega arith)
all_pass-at (suc n) p j h lt = ground (arith, all_pass-at n p j)

-- The rounds of the loop undone: the polynomial's top bit says which way a round went.
undo_bit : ℕ → ℕ
undo_bit crc = if has_bit crc 7 then bit_xor crc 0xE0 * 2 + 1 else crc * 2

undo_bits : ℕ → ℕ → ℕ
undo_bits zero crc = crc
undo_bits (suc n) crc = undo_bits n (undo_bit crc)

undoes : ℕ → Bool
undoes x = undo_bits 8 (crc_bits 0xE0 8 x) == x && ltb (crc_bits 0xE0 8 x) 256

undoes_all : all_pass 256 undoes ≡ true
unfolding all_pass undoes undo_bits undo_bit crc_bits crc_bit
undoes_all = refl

xor_back : ℕ → Bool
xor_back s =
    all_pass 256
      (λ b. bit_xor (bit_xor s b) b == s && (bit_xor s (bit_xor s b) == b && ltb (bit_xor s b) 256))

xor_back_all : all_pass 256 xor_back ≡ true
unfolding all_pass xor_back
xor_back_all = refl

and-parts : (a b : Bool) → a && b ≡ true → (a ≡ true) × (b ≡ true)
and-parts a b h = ground (arith, h)

crc_bits-undone :
    (x : ℕ) → x < 256 → (undo_bits 8 (crc_bits 0xE0 8 x) ≡ x) × (crc_bits 0xE0 8 x < 256)
unfolding undoes
crc_bits-undone x h =
    let (back, low) = and-parts _ _ (all_pass-at 256 undoes x undoes_all h) in
    ((==_iff _ _).0 back, ground (arith, low))

record Xors (s b : ℕ) : Type 0 where
  back : bit_xor (bit_xor s b) b ≡ s
  forth : bit_xor s (bit_xor s b) ≡ b
  low : bit_xor s b < 256

bit_xor-Xors : (s b : ℕ) → s < 256 → b < 256 → Xors s b
unfolding xor_back
bit_xor-Xors s b hs hb =
    let row = all_pass-at 256 xor_back s xor_back_all hs in
    let (back, rest) = and-parts _ _ (all_pass-at 256 _ b row hb) in
    let (forth, low) = and-parts _ _ rest in
    record { back = (==_iff _ _).0 back; forth = (==_iff _ _).0 forth; low = ground (arith, low) }

-- One byte of the checksum.
abbrev step : ℕ → ℕ → ℕ
step s b = crc_bits 0xE0 8 (bit_xor s b)

step-IsByte : (s b : ℕ) → s < 256 → b < 256 → step s b < 256
step-IsByte s b hs hb = (crc_bits-undone (bit_xor s b) (Xors.low (bit_xor-Xors s b hs hb))).1

step-same :
    (s b s' b' : ℕ)
    → bit_xor s b < 256
    → bit_xor s' b' < 256
    → step s b ≡ step s' b'
    → bit_xor s b ≡ bit_xor s' b'
step-same s b s' b' h h' e =
    sym (crc_bits-undone (bit_xor s b) h).0
    ∙ ap (undo_bits 8) e
    ∙ (crc_bits-undone (bit_xor s' b') h').0

foldl-step-injective :
    (s s' : ℕ) (bytes : List ℕ)
    → s < 256
    → s' < 256
    → All IsByte bytes
    → foldl step s bytes ≡ foldl step s' bytes
    → s ≡ s'
foldl-step-injective s s' [] hs hs' hb e = e
foldl-step-injective s s' (b ∷ bytes) hs hs' (hb, hbs) e =
    let x = bit_xor-Xors s b hs hb in
    let x' = bit_xor-Xors s' b hs' hb in
    let stepped =
      foldl-step-injective (step s b) (step s' b) bytes (step-IsByte s b hs hb)
        (step-IsByte s' b hs' hb) hbs e in
    sym x.back ∙ ap (λ (k : ℕ). bit_xor k b) (step-same s b s' b x.low x'.low stepped) ∙ x'.back

foldl-step-IsByte : (s : ℕ) (bytes : List ℕ) → s < 256 → All IsByte bytes → foldl step s bytes < 256
foldl-step-IsByte s [] hs hb = hs
foldl-step-IsByte s (b ∷ bytes) hs (hb, hbs) =
    foldl-step-IsByte (step s b) bytes (step-IsByte s b hs hb) hbs

foldl-step-changed :
    (s b c : ℕ) (front back : List ℕ)
    → s < 256
    → All IsByte (front ++ (b ∷ back))
    → c < 256
    → foldl step s (front ++ (b ∷ back)) ≡ foldl step s (front ++ (c ∷ back))
    → b ≡ c
foldl-step-changed s b c [] back hs (hb, hbs) hc e =
    let x = bit_xor-Xors s b hs hb in
    let y = bit_xor-Xors s c hs hc in
    let stepped =
      foldl-step-injective (step s b) (step s c) back (step-IsByte s b hs hb)
        (step-IsByte s c hs hc) hbs e in
    sym x.forth ∙ ap (λ (k : ℕ). bit_xor s k) (step-same s b s c x.low y.low stepped) ∙ y.forth
foldl-step-changed s b c (a ∷ front) back hs (ha, hbs) hc e =
    foldl-step-changed (step s a) b c front back (step-IsByte s a hs ha) hbs hc e

All-changed :
    (b c : ℕ) (front back : List ℕ)
    → All IsByte (front ++ (b ∷ back))
    → c < 256
    → All IsByte (front ++ (c ∷ back))
All-changed b c [] back (hb, hbs) hc = (hc, hbs)
All-changed b c (a ∷ front) back (ha, hbs) hc = (ha, All-changed b c front back hbs hc)

-- The header's checksum detects every change of one byte of what it is taken of, wherever it stands.
pub crc8-changed :
    (b c : ℕ) (front back : List ℕ)
    → All IsByte (front ++ (b ∷ back))
    → IsByte c
    → b ≢ c
    → crc8 (front ++ (b ∷ back)) ≢ crc8 (front ++ (c ∷ back))
unfolding crc8
crc8-changed b c front back hb hc other same =
    let low = foldl-step-IsByte 0xFF (front ++ (b ∷ back)) (omega arith) hb in
    let low' =
      foldl-step-IsByte 0xFF (front ++ (c ∷ back)) (omega arith)
        (All-changed b c front back hb hc) in
    other
      (foldl-step-changed 0xFF b c front back (omega arith) hb hc (omega (arith, low, low', same)))
