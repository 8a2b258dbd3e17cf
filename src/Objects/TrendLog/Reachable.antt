-- ===== src/Objects/TrendLog/Reachable.antt =====
-- The logs that the operations can produce.
use bacnet_sim.Prelude.{
  ℕ, ◌-◌, ◌==◌, ◌≤◌, ◌≡◌, refl, not, ◌||◌, List, leb, arith, length, ok, Bool-cases, inl, inr,
}
use bacnet_sim.Prelude.Safety.{Ensures, returns, fails, Ensures-ok}
use bacnet_sim.Types.PropertyId.{PropertyIdentifier}
use bacnet_sim.Types.Value.{PropertyValue}
use bacnet_sim.Objects.TrendLog.{
  TrendLogEntry, TrendLog, new, push_entry, log_value, write_property, write_enable,
  write_out_of_service, write_record_count, write_log_interval, tick, read_property,
}
use bacnet_sim.Objects.TrendLog.Buffer.{length-push_entry}

-- A log that `new` makes and that its operations change.
pub data Reachable : TrendLog → Type 0 where
  made :
      (device_id instance : ℕ) (name : List ℕ) (now : ℕ)
      → Reachable (new device_id instance name now)
  logged :
      (log : TrendLog) (value : PropertyValue) (now : ℕ)
      → Reachable log
      → Reachable (log_value log value now)
  written :
      (log log' : TrendLog) (property : PropertyIdentifier) (value : PropertyValue)
      → Reachable log
      → write_property log property value ≡ ok log'
      → Reachable log'
  ticked : (log : TrendLog) (now : ℕ) → Reachable log → Reachable (tick log now)

record IsBounded (log : TrendLog) : Type 0 where
  room : length log.log_buffer ≤ 1000
  count : log.record_count ≡ length log.log_buffer
  size : log.buffer_size ≡ 1000

log_value-IsBounded :
    (log : TrendLog) (value : PropertyValue) (now : ℕ)
    → IsBounded log
    → IsBounded (log_value log value now)
unfolding log_value
log_value-IsBounded log value now h = elim (Bool-cases (not log.enable || log.out_of_service)) [
  | inl off ↦ rw off h
  | inr on ↦
      let e : TrendLogEntry = record { timestamp = now; value = value } in
      let fits : length (push_entry log.buffer_size log.log_buffer e) ≤ 1000 = omega (
        arith,
        length-push_entry log.buffer_size log.log_buffer e (omega (arith, h.room, h.size)),
        h.size,
      ) in
      rw on (record { room = fits; count = omega (arith, fits); size = h.size })
]

with_enable :
    (log : TrendLog) (value : PropertyValue)
    → IsBounded log
    → Ensures IsBounded (write_enable log value)
unfolding write_enable
with_enable log (PropertyValue.boolean v) h =
    returns (record { room = h.room; count = h.count; size = h.size })
with_enable log _ h = fails

with_out_of_service :
    (log : TrendLog) (value : PropertyValue)
    → IsBounded log
    → Ensures IsBounded (write_out_of_service log value)
unfolding write_out_of_service
with_out_of_service log (PropertyValue.boolean v) h =
    returns (record { room = h.room; count = h.count; size = h.size })
with_out_of_service log _ h = fails

with_log_interval :
    (log : TrendLog) (value : PropertyValue)
    → IsBounded log
    → Ensures IsBounded (write_log_interval log value)
unfolding write_log_interval
with_log_interval log (PropertyValue.unsigned v) h =
    returns (record { room = h.room; count = h.count; size = h.size })
with_log_interval log _ h = fails

with_record_count :
    (log : TrendLog) (value : PropertyValue)
    → IsBounded log
    → Ensures IsBounded (write_record_count log value)
unfolding write_record_count
with_record_count log (PropertyValue.unsigned n) h = elim (Bool-cases (n == 0)) [
  | inl clear ↦ rw clear (returns (record { room = omega arith; count = refl; size = h.size }))
  | inr keep ↦ rw keep (returns h)
]
with_record_count log _ h = returns h

write_property-Ensures :
    (log : TrendLog) (property : PropertyIdentifier) (value : PropertyValue)
    → IsBounded log
    → Ensures IsBounded (write_property log property value)
unfolding write_property
write_property-Ensures log PropertyIdentifier.enable value h = with_enable log value h
write_property-Ensures log PropertyIdentifier.out_of_service value h =
    with_out_of_service log value h
write_property-Ensures log PropertyIdentifier.record_count value h = with_record_count log value h
write_property-Ensures log PropertyIdentifier.log_interval value h = with_log_interval log value h
write_property-Ensures log _ value h = fails

tick-IsBounded : (log : TrendLog) (now : ℕ) → IsBounded log → IsBounded (tick log now)
unfolding tick
tick-IsBounded log now h = elim (Bool-cases (not log.enable || log.out_of_service)) [
  | inl off ↦ rw off h
  | inr on ↦ elim (Bool-cases (leb log.log_interval (now - log.last_sample))) [
    | inl due ↦ rw (on, due) (record { room = h.room; count = h.count; size = h.size })
    | inr early ↦ rw (on, early) h
  ]
]

Reachable-IsBounded : (log : TrendLog) → Reachable log → IsBounded log
Reachable-IsBounded log (made device_id instance name now) =
    unfold new in record { room = omega arith; count = refl; size = refl }
Reachable-IsBounded log (logged before value now r) =
    log_value-IsBounded before value now (Reachable-IsBounded before r)
Reachable-IsBounded log (written before after property value r e) =
    Ensures-ok
      (rw e at (write_property-Ensures before property value (Reachable-IsBounded before r)))
Reachable-IsBounded log (ticked before now r) =
    tick-IsBounded before now (Reachable-IsBounded before r)

-- Whatever a log went through since it was made, it holds at most 1000 entries, and its property
-- `record_count` reads as the number of entries that it holds.
pub read_property-record_count :
    (log : TrendLog)
    → Reachable log
    → (length log.log_buffer ≤ 1000)
      × (read_property log PropertyIdentifier.record_count
          ≡ ok (PropertyValue.unsigned (length log.log_buffer)))
unfolding read_property
read_property-record_count log r = let h = Reachable-IsBounded log r in (h.room, rw h.count refl)
