-- ===== src/Objects/AnyObject/Forcing.antt =====
-- Forced writes of what a sensor measures.
use bacnet_sim.Prelude.{
  ℕ, ◌≤◌, ◌≡◌, inl, inr, refl, Bool, Option, none, some, le→leb, Bool-cases, Outcome, ok,
}
use bacnet_sim.Types.Error.{BacnetError}
use bacnet_sim.Types.PropertyId.{PropertyIdentifier}
use bacnet_sim.Types.Value.{PropertyValue}
use bacnet_sim.Types.Floats.{Floats, as_f32, as_bool}
use bacnet_sim.Objects.Interface.{
  is_present_value, is_true, write_out_of_service, force_write_property,
}
use bacnet_sim.Objects.AnalogInput
use bacnet_sim.Objects.AnalogInput.{AnalogInput}
use bacnet_sim.Objects.BinaryInput
use bacnet_sim.Objects.BinaryInput.{BinaryInput}
use bacnet_sim.Objects.MultiState
use bacnet_sim.Objects.MultiState.{MultiStateInput}
use bacnet_sim.Objects.AnyObject.{
  AnyObject, analog_input, binary_input, multi_state_input, read_property, write_property,
  any_object,
}

module _ (floats : Floats) (secs now : ℕ) where
  abbrev pub force :
      AnyObject → PropertyValue → Outcome BacnetError (AnyObject × Option BacnetError)
  force o v = force_write_property (any_object floats secs) o PropertyIdentifier.present_value v now

  analog_input_forced :
      (o : AnalogInput) (v : PropertyValue) (x : ℕ)
      → as_f32 floats v ≡ some x
      → force (analog_input o) v
        ≡ ok (analog_input (record o { present_value = x; last_changed = now }), none)
  unfolding force_write_property write_out_of_service write_property read_property is_true
      is_present_value AnalogInput.write_property AnalogInput.read_property
      AnalogInput.write_present_value AnalogInput.write_out_of_service as_bool
  analog_input_forced o v x h = elim (Bool-cases o.out_of_service) [
    | inl e ↦ rw (e, h) refl
    | inr e ↦ rw (e, h) refl
  ]

  binary_input_forced :
      (o : BinaryInput) (v : PropertyValue) (b : Bool)
      → as_bool v ≡ some b
      → force (binary_input o) v
        ≡ ok (binary_input (record o { present_value = b; last_changed = now }), none)
  unfolding force_write_property write_out_of_service write_property read_property is_true
      is_present_value BinaryInput.write_property BinaryInput.read_property
      BinaryInput.write_present_value BinaryInput.write_out_of_service as_bool
  binary_input_forced o v b h = elim (Bool-cases o.out_of_service) [
    | inl e ↦ rw (e, h) refl
    | inr e ↦ rw (e, h) refl
  ]

  multi_state_input_forced :
      (o : MultiStateInput) (n : ℕ)
      → 1 ≤ n
      → n ≤ o.number_of_states
      → force (multi_state_input o) (PropertyValue.unsigned n)
        ≡ ok (multi_state_input (record o { present_value = n; last_changed = now }), none)
  unfolding force_write_property write_out_of_service write_property read_property is_true
      is_present_value MultiState.write_property MultiState.read_property
      MultiState.write_present_value MultiState.set_state MultiState.write_out_of_service
  multi_state_input_forced o n lo hi = elim (Bool-cases o.out_of_service) [
    | inl e ↦ rw (e, le→leb 1 n lo, le→leb n o.number_of_states hi) refl
    | inr e ↦ rw (e, le→leb 1 n lo, le→leb n o.number_of_states hi) refl
  ]

  -- Whether it is in service or not, a sensor takes the forced present value that a write could give
  -- it out of service: nothing else of it changes but the time of its last change, and no error is
  -- reported.
  pub sensors_forced :
      (ai : AnalogInput) (bi : BinaryInput) (mi : MultiStateInput) (v w : PropertyValue) (x n : ℕ)
      (b : Bool)
      → as_f32 floats v ≡ some x
      → as_bool w ≡ some b
      → 1 ≤ n
      → n ≤ mi.number_of_states
      → (force (analog_input ai) v
          ≡ ok (analog_input (record ai { present_value = x; last_changed = now }), none))
        × (force (binary_input bi) w
            ≡ ok (binary_input (record bi { present_value = b; last_changed = now }), none))
        × (force (multi_state_input mi) (PropertyValue.unsigned n)
            ≡ ok (multi_state_input (record mi { present_value = n; last_changed = now }), none))
  sensors_forced ai bi mi v w x n b hv hw lo hi = (
    analog_input_forced ai v x hv,
    binary_input_forced bi w b hw,
    multi_state_input_forced mi n lo hi,
  )
