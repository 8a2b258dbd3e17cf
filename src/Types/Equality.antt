-- ===== src/Types/Equality.antt =====
-- crates/bacnet-types/src: equality of identifiers, as `derive(PartialEq)` has it.
use mathlib.Core.Path.{◌≡◌, refl}
use mathlib.Core.Logic.{◌↔◌}
use mathlib.Core.Bool.{Bool, true, false}
use native.Mathlib.Decide.{ℕ_discrete}
use bacnet_sim.Types.PropertyId.{PropertyIdentifier}
use bacnet_sim.Types.Value.{ObjectId}

abbrev pub ObjectId-discrete : Discrete ObjectId
ObjectId-discrete = hlevel ℕ_discrete

abbrev pub PropertyIdentifier-discrete : Discrete PropertyIdentifier
PropertyIdentifier-discrete = hlevel ℕ_discrete

abbrev pub holds : {A : Type 0} → Dec A → Bool
holds (yes p) = true
holds (no p) = false

holds_iff : {A : Type 0} (d : Dec A) → (holds d ≡ true) ↔ A
holds_iff (yes p) = (λ h. p, λ h. refl)
holds_iff (no p) = (λ h. cc, λ h. absurd (p h))

unfoldable pub same_object : ObjectId → ObjectId → Bool
same_object a b = holds (ObjectId-discrete a b)

pub same_object_iff : (a b : ObjectId) → (same_object a b ≡ true) ↔ (a ≡ b)
unfolding same_object
same_object_iff a b = holds_iff (ObjectId-discrete a b)

unfoldable pub same_property : PropertyIdentifier → PropertyIdentifier → Bool
same_property a b = holds (PropertyIdentifier-discrete a b)

pub same_property_iff : (a b : PropertyIdentifier) → (same_property a b ≡ true) ↔ (a ≡ b)
unfolding same_property
same_property_iff a b = holds_iff (PropertyIdentifier-discrete a b)
