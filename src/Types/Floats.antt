-- ===== src/Types/Floats.antt =====
-- The floating-point operations of the platform, on bit patterns: the model takes them as given.
use bacnet_sim.Prelude.{ℕ, Bool, true, false, not, Option, none, some, ◌==◌}
use bacnet_sim.Types.Value.{PropertyValue}

pub record Floats : Type 0 where
  pub double_as_f32 : ℕ → ℕ
  pub u32_as_f32 : ℕ → ℕ
  pub i32_as_f32 : ℕ → ℕ
  pub gt : ℕ → ℕ → Bool
  pub add : ℕ → ℕ → ℕ
  pub sub : ℕ → ℕ → ℕ

-- crates/bacnet-types/src/property_value.rs
unfoldable pub as_f32 : Floats → PropertyValue → Option ℕ
as_f32 floats (PropertyValue.real v) = some v
as_f32 floats (PropertyValue.double v) = some (floats.double_as_f32 v)
as_f32 floats (PropertyValue.unsigned v) = some (floats.u32_as_f32 v)
as_f32 floats (PropertyValue.integer v) = some (floats.i32_as_f32 v)
as_f32 floats _ = none

unfoldable pub as_bool : PropertyValue → Option Bool
as_bool (PropertyValue.boolean v) = some v
as_bool (PropertyValue.enumerated v) = some (not (v == 0))
as_bool _ = none

-- `b as u32`
abbrev pub bool_number : Bool → ℕ
bool_number true = 1
bool_number false = 0
