-- ===== src/Engine/Alarm/Reports.antt =====
-- When a transition is reported.
use bacnet_sim.Prelude.{
  ℕ, ◌-◌, ◌≤◌, ◌<◌, ◌≡◌, ◌≢◌, refl, ◌∙◌, Option, none, some, List, [], ◌∷◌, ◌++◌, arith, All,
}
use bacnet_sim.Types.Floats.{Floats, as_f32}
use bacnet_sim.Types.Value.{ObjectId, PropertyValue}
use bacnet_sim.Engine.Alarm.{
  EventState, out_of_range, EventNotification, AlarmStateMachine, number, or_insert, target,
  transition, evaluate_range, evaluate_by, evaluate,
}

module _ (floats : Floats) (high low deadband : ℕ) where
  -- The value `v` calls for `s`, in a machine whose state is `current`.
  abbrev pub Calls : EventState → EventState → ℕ → Type 0
  Calls current s v = target floats current high low deadband v ≡ s

abbrev pub with_report : Option EventNotification → List EventNotification → List EventNotification
with_report none reports = reports
with_report (some e) reports = e ∷ reports

module _ (floats : Floats) (object_id : ObjectId) where
  -- The observations of values, each with its time, and the reports that they give, oldest first.
  unfoldable pub observe :
      AlarmStateMachine → List (ℕ × ℕ) → AlarmStateMachine × List EventNotification
  observe m [] = (m, [])
  observe m ((v, now) ∷ later) =
      let (m', o) = evaluate floats m (PropertyValue.real v) now object_id in
      let (end, reports) = observe m' later in (end, with_report o reports)

module _ (floats : Floats) (high low deadband : ℕ) (object_id : ObjectId) where
  evaluate-transition :
      (m : AlarmStateMachine) (v now : ℕ) (s : EventState)
      → m.algorithm ≡ out_of_range high low deadband
      → Calls floats high low deadband m.current_state s v
      → evaluate floats m (PropertyValue.real v) now object_id ≡ transition m s now object_id
  unfolding evaluate evaluate_by evaluate_range as_f32
  evaluate-transition m v now s range calls = rw (range, calls) refl

module _ (m : AlarmStateMachine) (s : EventState) (now : ℕ) (object_id : ObjectId) where
  transition-settled :
      number s ≡ number m.current_state
      → transition m s now object_id ≡ (record m { transition_start = none }, none)
  unfolding transition
  transition-settled same = ground (arith, same)

  transition-early :
      number s ≢ number m.current_state
      → now - or_insert m.transition_start now < m.time_delay
      → transition m s now object_id
        ≡ (record m { transition_start = some (or_insert m.transition_start now) }, none)
  unfolding transition
  transition-early other early = ground (arith, other, early)

  transition-due :
      number s ≢ number m.current_state
      → m.time_delay ≤ now - or_insert m.transition_start now
      → transition m s now object_id ≡ (
        record m { current_state = s; transition_start = none },
        some (record {
          event_object = object_id;
          from_state = m.current_state;
          to_state = s;
          timestamp = now;
        }),
      )
  unfolding transition
  transition-due other due = ground (arith, other, due)

abbrev pub report : ObjectId → EventState → EventState → ℕ → EventNotification
report object_id from_state to_state now = record {
  event_object = object_id;
  from_state = from_state;
  to_state = to_state;
  timestamp = now;
}

module _ (floats : Floats) (high low deadband : ℕ) (object_id : ObjectId) where
  pub record Watches (m : AlarmStateMachine) (s : EventState) : Type 0 where
    pub range : m.algorithm ≡ out_of_range high low deadband
    pub other : number s ≢ number m.current_state

  -- The observations before the delay is over, from a pending transition on.
  observe-pending :
      (m : AlarmStateMachine) (s : EventState) (start v now : ℕ) (early : List (ℕ × ℕ))
      → Watches m s
      → All
          (λ o. Calls floats high low deadband m.current_state s o.0 × (o.1 - start < m.time_delay))
          early
      → Calls floats high low deadband m.current_state s v
      → m.time_delay ≤ now - start
      → observe floats object_id
          (record m { transition_start = some start })
          (early ++ ((v, now) ∷ []))
        ≡ (
          record m { current_state = s; transition_start = none },
          report object_id m.current_state s now ∷ [],
        )
  unfolding observe
  observe-pending m s start v now [] w calls last due =
      let pending : AlarmStateMachine = record m { transition_start = some start } in
      let due_now =
        evaluate-transition floats high low deadband object_id pending v now s w.range last
        ∙ transition-due pending s now object_id w.other due in
      rw due_now refl
  observe-pending m s start v now ((u, t) ∷ early) w ((here, soon), calls) last due =
      let pending : AlarmStateMachine = record m { transition_start = some start } in
      let waiting =
        evaluate-transition floats high low deadband object_id pending u t s w.range here
        ∙ transition-early pending s t object_id w.other soon in
      rw waiting (observe-pending m s start v now early w calls last due)

  -- A machine that watches a range and has nothing pending sees values that all call for the same
  -- other state: it reports nothing before the delay since the first of them is over, and the first
  -- observation after it changes the state and makes the one report of the change.
  pub observe-sustained :
      (m : AlarmStateMachine) (s : EventState) (u start v now : ℕ) (early : List (ℕ × ℕ))
      → Watches m s
      → m.transition_start ≡ none
      → 0 < m.time_delay
      → Calls floats high low deadband m.current_state s u
      → All
          (λ o. Calls floats high low deadband m.current_state s o.0 × (o.1 - start < m.time_delay))
          early
      → Calls floats high low deadband m.current_state s v
      → m.time_delay ≤ now - start
      → observe floats object_id m ((u, start) ∷ early ++ ((v, now) ∷ [])) ≡ (
        record m { current_state = s; transition_start = none },
        report object_id m.current_state s now ∷ [],
      )
  unfolding observe
  observe-sustained m s u start v now early w idle delay first calls last due =
      let since : or_insert m.transition_start start ≡ start = rw idle refl in
      let soon : start - or_insert m.transition_start start < m.time_delay =
        rw since (omega arith) in
      let waiting =
        evaluate-transition floats high low deadband object_id m u start s w.range first
        ∙ transition-early m s start object_id w.other soon in
      rw (waiting, since) (observe-pending m s start v now early w calls last due)

  -- A value that calls for the machine's own state, before the delay of a pending transition is over
  -- or after it, takes the pending transition back.
  pub evaluate-settled :
      (m : AlarmStateMachine) (v now : ℕ)
      → m.algorithm ≡ out_of_range high low deadband
      → Calls floats high low deadband m.current_state m.current_state v
      → evaluate floats m (PropertyValue.real v) now object_id
        ≡ (record m { transition_start = none }, none)
  evaluate-settled m v now range calls =
      evaluate-transition floats high low deadband object_id m v now m.current_state range calls
      ∙ transition-settled m m.current_state now object_id refl

  -- The delay of a pending transition counts for another one too: where a first value calls for one
  -- other state and the next one, with the delay since the first over, for a second other state, the
  -- second is reported at once.
  pub observe-switched :
      (m : AlarmStateMachine) (s s' : EventState) (u start v now : ℕ)
      → Watches m s
      → Watches m s'
      → m.transition_start ≡ none
      → 0 < m.time_delay
      → Calls floats high low deadband m.current_state s u
      → Calls floats high low deadband m.current_state s' v
      → m.time_delay ≤ now - start
      → observe floats object_id m ((u, start) ∷ (v, now) ∷ []) ≡ (
        record m { current_state = s'; transition_start = none },
        report object_id m.current_state s' now ∷ [],
      )
  unfolding observe
  observe-switched m s s' u start v now w w' idle delay first second due =
      let since : or_insert m.transition_start start ≡ start = rw idle refl in
      let soon : start - or_insert m.transition_start start < m.time_delay =
        rw since (omega arith) in
      let waiting =
        evaluate-transition floats high low deadband object_id m u start s w.range first
        ∙ transition-early m s start object_id w.other soon in
      rw (waiting, since) (observe-pending m s' start v now [] w' tt second due)
