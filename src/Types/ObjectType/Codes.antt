-- ===== src/Types/ObjectType/Codes.antt =====
-- Object types and their codes.
use bacnet_sim.Prelude.{ℕ, ◌≡◌, ◌≤◌, some, arith}
use bacnet_sim.Types.ObjectType.{ObjectType, as_u16, from_u16}

pub as_u16-le : (t : ObjectType) → as_u16 t ≤ 60
unfolding as_u16
as_u16-le ObjectType.analog_input = omega arith
as_u16-le _ = omega arith

-- A code that is recognised is the code of the type that it is read as.
pub as_u16-from_u16 : (v : ℕ) (t : ObjectType) → from_u16 v ≡ some t → as_u16 t ≡ v
unfolding from_u16 as_u16
as_u16-from_u16 v t h = ground arith
