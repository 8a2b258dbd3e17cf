-- ===== src/Objects/AnalogOutput/Commands.antt =====
-- The present value as the command of the highest priority.
use bacnet_sim.Prelude.{
  ℕ, zero, suc, ◌+◌, ◌-◌, ◌≤◌, ◌<◌, ◌≡◌, refl, sym, ap, ◌∙◌, true, false, Option, none, some, List,
  [], ◌∷◌, ◌==◌, arith, if◌then◌else◌, set, All, Outcome, ok, ◌>>=◌, le→leb,
}
use bacnet_sim.Types.Error.{BacnetError}
use bacnet_sim.Types.PropertyId.{PropertyIdentifier}
use bacnet_sim.Types.Value.{PropertyValue}
use bacnet_sim.Types.Enumerations.{EngineeringUnits}
use bacnet_sim.Types.Floats.{Floats, as_f32}
use bacnet_sim.Objects.AnalogOutput.{
  AnalogOutput, new, first_commanded, real_or_null, command_of, write_present_value, write_property,
  read_property,
}

-- A command: a priority, from 1, and a value, or `none` to relinquish.
abbrev pub Command : Type 0
Command = ℕ × Option ℕ

-- What the last command at a priority left there, the commands newest first.
pub commanded : List Command → ℕ → Option ℕ
commanded [] p = none
commanded ((q, o) ∷ earlier) p = if q == p then o else commanded earlier p

-- The value of the first priority from `p` on that has one, of so many.
pub highest : (ℕ → Option ℕ) → ℕ → ℕ → ℕ → ℕ
highest f p zero default_value = default_value
highest f p (suc n) default_value = value_or (f p) (highest f (p + 1) n default_value)
  where
    value_or : Option ℕ → ℕ → ℕ
    value_or (some v) rest = v
    value_or none rest = rest

table : (ℕ → Option ℕ) → ℕ → ℕ → List (Option ℕ)
table f p zero = []
table f p (suc n) = f p ∷ table f (p + 1) n

table-agree :
    (f g : ℕ → Option ℕ) (p n : ℕ) → ((q : ℕ) → p ≤ q → f q ≡ g q) → table f p n ≡ table g p n
unfolding table
table-agree f g p zero h = refl
table-agree f g p (suc n) h =
    rw (h p (omega arith), table-agree f g (p + 1) n (λ q le. h q (omega (arith, le)))) refl

abbrev update : (ℕ → Option ℕ) → ℕ → Option ℕ → ℕ → Option ℕ
update f p o q = if p == q then o else f q

set-table :
    (f : ℕ → Option ℕ) (p n i : ℕ) (o : Option ℕ)
    → i < n
    → set (table f p n) i o ≡ table (update f (p + i) o) p n
unfolding table
set-table f p zero i o h = absurd (omega arith)
set-table f p (suc n) zero o h =
    let here : (p + 0 == p) ≡ true = ground arith in
    rw (here, table-agree f (update f (p + 0) o) (p + 1) n (λ q le. ground (arith, le))) refl
set-table f p (suc n) (suc i) o h =
    let other : (p + suc i == p) ≡ false = ground arith in
    let next : p + suc i ≡ p + 1 + i = omega arith in
    rw (other, set-table f (p + 1) n i o (omega arith))
      (ap (λ (k : ℕ). f p ∷ table (update f k o) (p + 1) n) (sym next))

first_commanded-table :
    (f : ℕ → Option ℕ) (p n default_value : ℕ)
    → first_commanded (table f p n) default_value ≡ highest f p n default_value
unfolding table first_commanded highest
first_commanded-table f p zero default_value = refl
first_commanded-table f p (suc n) default_value =
    ground (arith, first_commanded-table f (p + 1) n default_value)

abbrev pub InRange : Command → Type 0
InRange (q, o) = (1 ≤ q) × (q ≤ 16)

set-commanded :
    (earlier : List Command) (q : ℕ) (v : Option ℕ)
    → InRange (q, v)
    → set (table (commanded earlier) 1 16) (q - 1) v ≡ table (commanded ((q, v) ∷ earlier)) 1 16
unfolding commanded
set-commanded earlier q v (lo, hi) =
    let slot : 1 + (q - 1) ≡ q = omega arith in
    set-table (commanded earlier) 1 16 (q - 1) v (omega arith)
    ∙ ap (λ (k : ℕ). table (update (commanded earlier) k v) 1 16) slot

module _ (floats : Floats) (now : ℕ) where
  -- The commands are written one after the other, the last of the list first.
  pub command_all : AnalogOutput → List Command → Outcome BacnetError AnalogOutput
  command_all o [] = ok o
  command_all o ((q, v) ∷ earlier) = do
    o' ← command_all o earlier
    write_property floats o' PropertyIdentifier.present_value (real_or_null v) (some q) now

  record Holds (cmds : List Command) (o : AnalogOutput) : Type 0 where
    slots : o.priority_array ≡ table (commanded cmds) 1 16
    default_value : o.relinquish_default ≡ 0
    present : o.present_value ≡ highest (commanded cmds) 1 16 0

  write-slots :
      (o : AnalogOutput) (q : ℕ) (v : Option ℕ)
      → InRange (q, v)
      → write_property floats o PropertyIdentifier.present_value (real_or_null v) (some q) now
        ≡ ok (record o {
          priority_array = set o.priority_array (q - 1) v;
          present_value = first_commanded (set o.priority_array (q - 1) v) o.relinquish_default;
          last_changed = now;
        })
  unfolding write_property write_present_value command_of as_f32
  write-slots o q none (lo, hi) = rw (le→leb 1 q lo, le→leb q 16 hi) refl
  write-slots o q (some v) (lo, hi) = rw (le→leb 1 q lo, le→leb q 16 hi) refl

  command_all-Holds :
      (o : AnalogOutput) (cmds : List Command)
      → All InRange cmds
      → Holds [] o
      → (o' : AnalogOutput) × (command_all o cmds ≡ ok o') × Holds cmds o'
  unfolding command_all
  command_all-Holds o [] hs h = (o, refl, h)
  command_all-Holds o ((q, v) ∷ earlier) (here, hs) h =
      let (o', made, h') = command_all-Holds o earlier hs h in
      let slots : set o'.priority_array (q - 1) v ≡ table (commanded ((q, v) ∷ earlier)) 1 16 =
        rw h'.slots (set-commanded earlier q v here) in
      (
        record o' {
          priority_array = set o'.priority_array (q - 1) v;
          present_value = first_commanded (set o'.priority_array (q - 1) v) o'.relinquish_default;
          last_changed = now;
        },
        rw made (write-slots o' q v here),
        record {
          slots = slots;
          default_value = h'.default_value;
          present =
              rw (slots, h'.default_value)
                (first_commanded-table (commanded ((q, v) ∷ earlier)) 1 16 0);
        },
      )

new-Holds :
    (floats : Floats) (device_id instance : ℕ) (name : List ℕ) (units : EngineeringUnits) (now : ℕ)
    → Holds floats now [] (new device_id instance name units now)
unfolding new table commanded highest
new-Holds floats device_id instance name units now = record {
  slots = refl;
  default_value = refl;
  present = refl;
}

-- However an analog output was commanded since it was made, at priorities from 1 to 16, every write
-- succeeds, and its present value, stored and read, is that of the highest priority whose last
-- command was no relinquishment, or the default, zero, where there is none.
pub command_all-highest :
    (floats : Floats) (device_id instance : ℕ) (name : List ℕ) (units : EngineeringUnits) (now : ℕ)
    (cmds : List Command)
    → All InRange cmds
    → (o : AnalogOutput) × (command_all floats now (new device_id instance name units now) cmds
        ≡ ok o)
      × (o.present_value ≡ highest (commanded cmds) 1 16 0)
      × (read_property o PropertyIdentifier.present_value none
          ≡ ok (PropertyValue.real (highest (commanded cmds) 1 16 0)))
unfolding read_property
command_all-highest floats device_id instance name units now cmds hs =
    let (o, made, h) =
      command_all-Holds floats now (new device_id instance name units now) cmds hs
        (new-Holds floats device_id instance name units now) in
    (
      o,
      made,
      h.present,
      rw (h.slots, h.default_value, first_commanded-table (commanded cmds) 1 16 0) refl,
    )
