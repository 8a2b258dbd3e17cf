-- ===== src/Types/PropertyId/Numbers.antt =====
-- Property identifiers and their numbers are one to one.
use bacnet_sim.Prelude.{ℕ, ◌≡◌, refl, List, [], ◌∷◌, arith, ◌==◌, Bool, true, ◌&&◌}
use bacnet_sim.Types.PropertyId.{PropertyIdentifier, numbered, first_arm, from_u32, to_u32}

-- Each arm pairs a name with the number that `to_u32` gives it.
arms_agree : List (ℕ × PropertyIdentifier) → Bool
arms_agree [] = true
arms_agree ((k, p) ∷ arms) = (to_u32 p == k) && arms_agree arms

to_u32-first_arm :
    (v : ℕ) (arms : List (ℕ × PropertyIdentifier))
    → arms_agree arms ≡ true
    → to_u32 (first_arm v arms) ≡ v
unfolding first_arm arms_agree
to_u32-first_arm v [] h = unfold to_u32 in refl
to_u32-first_arm v ((k, p) ∷ arms) h = ground (arith, to_u32-first_arm v arms)

-- Reading a number as an identifier and writing it back gives the number.
to_u32-from_u32 : (v : ℕ) → to_u32 (from_u32 v) ≡ v
unfolding from_u32
to_u32-from_u32 v = to_u32-first_arm v numbered (unfold arms_agree to_u32 in refl)

-- `p` is one of the named identifiers, or `unknown` with a number that no name has.
abbrev pub IsCanonical : PropertyIdentifier → Type 0
IsCanonical (PropertyIdentifier.unknown v) = from_u32 v ≡ PropertyIdentifier.unknown v
IsCanonical _ = Unit

pub from_u32-to_u32 : (p : PropertyIdentifier) → IsCanonical p → from_u32 (to_u32 p) ≡ p
unfolding from_u32 to_u32
from_u32-to_u32 PropertyIdentifier.object_identifier h = refl
from_u32-to_u32 (PropertyIdentifier.unknown v) h = h
from_u32-to_u32 _ h = refl
