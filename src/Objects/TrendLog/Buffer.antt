-- ===== src/Objects/TrendLog/Buffer.antt =====
-- The log as the last entries that were recorded.
use bacnet_sim.Prelude.{
  ℕ, zero, suc, ◌+◌, ◌-◌, ◌^◌, ◌≤◌, ◌<◌, ◌≡◌, refl, sym, ap, ◌∙◌, min, max, true, false, List, [],
  ◌∷◌, ◌++◌, leb, arith, length, drop, length-append, length-drop, drop-drop, as_u32, Bool-cases,
  inl, inr,
}
use bacnet_sim.Types.Value.{PropertyValue}
use bacnet_sim.Objects.TrendLog.{TrendLogEntry, TrendLog, saturating_add, push_entry, log_value}

-- The last `n` entries.
pub last : ℕ → List TrendLogEntry → List TrendLogEntry
last n xs = drop (length xs - n) xs

pub log_values : TrendLog → List (PropertyValue × ℕ) → TrendLog
log_values log [] = log
log_values log ((value, now) ∷ later) = log_values (log_value log value now) later

entry_of : PropertyValue × ℕ → TrendLogEntry
entry_of (value, now) = record { timestamp = now; value = value }

pub entries_of : List (PropertyValue × ℕ) → List TrendLogEntry
entries_of [] = []
entries_of (x ∷ rest) = entry_of x ∷ entries_of rest

length-entries_of : (vs : List (PropertyValue × ℕ)) → length (entries_of vs) ≡ length vs
unfolding entries_of
length-entries_of [] = refl
length-entries_of (x ∷ rest) = ap suc (length-entries_of rest)

drop-append_le :
    (n : ℕ) (xs ys : List TrendLogEntry) → n ≤ length xs → drop n (xs ++ ys) ≡ drop n xs ++ ys
drop-append_le zero xs ys h = refl
drop-append_le (suc n) [] ys h = absurd (omega arith)
drop-append_le (suc n) (x ∷ xs) ys h = drop-append_le n xs ys (omega arith)

push_entry-last :
    (size : ℕ) (buffer : List TrendLogEntry) (e : TrendLogEntry)
    → length buffer ≤ max 1 size
    → push_entry size buffer e ≡ last (max 1 size) (buffer ++ (e ∷ []))
unfolding push_entry last
push_entry-last size [] e h =
    rw (none_left)
      (elim (Bool-cases (leb size 0)) [ inl full ↦ rw full refl | inr room ↦ rw room refl ])
  where
    none_left : 1 - max 1 size ≡ 0
    none_left = omega arith
push_entry-last size (x ∷ rest) e h = elim (Bool-cases (leb size (suc (length rest)))) [
  | inl full ↦
      let one : suc (length (rest ++ (e ∷ []))) - max 1 size ≡ 1 =
        ground (arith, length-append rest (e ∷ []), full) in
      rw (full, one) refl
  | inr room ↦
      let none : suc (length (rest ++ (e ∷ []))) - max 1 size ≡ 0 =
        ground (arith, length-append rest (e ∷ []), room) in
      rw (room, none) refl
]

pub length-push_entry :
    (size : ℕ) (buffer : List TrendLogEntry) (e : TrendLogEntry)
    → length buffer ≤ max 1 size
    → length (push_entry size buffer e) ≤ max 1 size
length-push_entry size buffer e h = rw (push_entry-last size buffer e h) (
    unfold last in
    omega (arith, length-drop (length (buffer ++ (e ∷ [])) - max 1 size) (buffer ++ (e ∷ []))))

last-last : (n : ℕ) (xs ys : List TrendLogEntry) → last n (last n xs ++ ys) ≡ last n (xs ++ ys)
unfolding last
last-last n xs ys =
    let k = length xs - n in
    let count : k + (length (drop k xs ++ ys) - n) ≡ length (xs ++ ys) - n =
      omega (arith, length-append xs ys, length-append (drop k xs) ys, length-drop k xs) in
    ap (drop (length (drop k xs ++ ys) - n)) (sym (drop-append_le k xs ys (omega arith)))
    ∙ drop-drop (length (drop k xs ++ ys) - n) k (xs ++ ys)
    ∙ ap (λ (i : ℕ). drop i (xs ++ ys)) count

append-nil : (xs : List TrendLogEntry) → xs ++ [] ≡ xs
append-nil [] = refl
append-nil (x ∷ xs) = ap (λ (t : List TrendLogEntry). x ∷ t) (append-nil xs)

append_assoc :
    (xs : List TrendLogEntry) (y : TrendLogEntry) (ys : List TrendLogEntry)
    → (xs ++ (y ∷ [])) ++ ys ≡ xs ++ (y ∷ ys)
append_assoc [] y ys = refl
append_assoc (x ∷ xs) y ys = ap (λ (t : List TrendLogEntry). x ∷ t) (append_assoc xs y ys)

last-all : (n : ℕ) (xs : List TrendLogEntry) → length xs ≤ n → last n xs ≡ xs
unfolding last
last-all n xs h = let none_left : length xs - n ≡ 0 = omega arith in rw none_left refl

-- The fields that logging changes, of a log that is enabled and in service.
log_value-active :
    (log : TrendLog) (value : PropertyValue) (now : ℕ)
    → log.enable ≡ true
    → log.out_of_service ≡ false
    → log_value log value now ≡ record log {
      log_buffer = push_entry log.buffer_size log.log_buffer (entry_of (value, now));
      record_count =
          as_u32 (length (push_entry log.buffer_size log.log_buffer (entry_of (value, now))));
      total_record_count = saturating_add log.total_record_count 1;
    }
unfolding log_value entry_of
log_value-active log value now on service = rw (on, service) refl

pub record IsLogging (log : TrendLog) : Type 0 where
  pub enable : log.enable ≡ true
  pub out_of_service : log.out_of_service ≡ false
  pub room : length log.log_buffer ≤ max 1 log.buffer_size
  pub count : log.record_count ≡ as_u32 (length log.log_buffer)
  pub total : log.total_record_count < 2 ^ 32

-- A log that is enabled and in service holds the last entries of its buffer and of those that are
-- recorded, as many as its size (one, for a size of zero); it counts the ones it holds, and it
-- counts all that it ever recorded up to the largest `u32`.
pub log_values-last :
    (log : TrendLog) (values : List (PropertyValue × ℕ))
    → IsLogging log
    → ((log_values log values).log_buffer
        ≡ last (max 1 log.buffer_size) (log.log_buffer ++ entries_of values))
      × ((log_values log values).record_count
          ≡ as_u32 (length (last (max 1 log.buffer_size) (log.log_buffer ++ entries_of values))))
      × ((log_values log values).total_record_count
          ≡ min (log.total_record_count + length values) (2 ^ 32 - 1))
unfolding log_values entries_of
log_values-last log [] h =
    let same : log.log_buffer ++ [] ≡ log.log_buffer = append-nil log.log_buffer in
    let whole = last-all (max 1 log.buffer_size) log.log_buffer h.room in
    (rw (same, whole) refl, rw (same, whole) h.count, omega (arith, h.total))
log_values-last log ((value, now) ∷ later) h =
    let e = entry_of (value, now) in
    let buffer = push_entry log.buffer_size log.log_buffer e in
    let rest = entries_of later in
    let n = max 1 log.buffer_size in
    let pushed : last n (buffer ++ rest) ≡ last n (log.log_buffer ++ (e ∷ rest)) =
      rw
        (
          push_entry-last log.buffer_size log.log_buffer e h.room,
          last-last n (log.log_buffer ++ (e ∷ [])) rest,
          append_assoc log.log_buffer e rest,
        )
        refl in
    let logged : TrendLog = record log {
      log_buffer = buffer;
      record_count = as_u32 (length buffer);
      total_record_count = saturating_add log.total_record_count 1;
    } in
    let ih = log_values-last logged later (record {
      enable = h.enable;
      out_of_service = h.out_of_service;
      room = length-push_entry log.buffer_size log.log_buffer e h.room;
      count = refl;
      total = omega arith;
    }) in
    let step : log_values log ((value, now) ∷ later) ≡ log_values logged later =
      ap (λ (l : TrendLog). log_values l later)
        (log_value-active log value now h.enable h.out_of_service) in
    rw step (
      ih.0 ∙ pushed,
      ih.1 ∙ ap (λ (t : List TrendLogEntry). as_u32 (length t)) pushed,
      omega (arith, ih.2, h.total),
    )
