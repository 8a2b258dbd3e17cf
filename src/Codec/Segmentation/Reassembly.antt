-- ===== src/Codec/Segmentation/Reassembly.antt =====
-- Segments that arrive in any order, some of them more than once.
use bacnet_sim.Prelude.{
  ℕ, zero, suc, ◌+◌, ◌-◌, ◌≤◌, ◌<◌, ◌≡◌, refl, sym, ◌∙◌, Bool, true, false, not, ◌||◌, ◌&&◌, Option,
  none, some, List, [], ◌∷◌, ◌++◌, arith, ◌==◌, if◌then◌else◌, length, All, as_u8, Bool-cases, inl,
  inr,
}
use bacnet_sim.Prelude.Maps.{
  Map, lookup, insert, nat_key, lookup-insert, length-insert_new, length-insert_old,
}
use bacnet_sim.Codec.Segmentation.{
  SegmentBuffer, new, reassemble_from, reassemble, complete, add_segment,
}

abbrev pub contains : List ℕ → ℕ → Bool
contains [] j = false
contains (i ∷ rest) j = i == j || contains rest j

unfoldable pub all_below : ℕ → (ℕ → Bool) → Bool
all_below zero p = true
all_below (suc n) p = p n && all_below n p

count_below : ℕ → (ℕ → Bool) → ℕ
count_below zero p = 0
count_below (suc n) p = (if p n then 1 else 0) + count_below n p

count_below-le : (n : ℕ) (p : ℕ → Bool) → count_below n p ≤ n
unfolding count_below
count_below-le zero p = omega arith
count_below-le (suc n) p = ground (arith, count_below-le n p)

-- All are there exactly when the count is full.
count_below-full : (n : ℕ) (p : ℕ → Bool) → (count_below n p == n) ≡ all_below n p
unfolding count_below all_below
count_below-full zero p = refl
count_below-full (suc n) p = ground (arith, count_below-full n p, count_below-le n p)

all_below-at : (n : ℕ) (p : ℕ → Bool) (j : ℕ) → all_below n p ≡ true → j < n → p j ≡ true
unfolding all_below
all_below-at zero p j h lt = absurd (omega arith)
all_below-at (suc n) p j h lt = ground (arith, all_below-at n p j)

all_below-gap : (n : ℕ) (p : ℕ → Bool) (j : ℕ) → p j ≡ false → j < n → all_below n p ≡ false
all_below-gap n p j gap lt = ground (arith, gap, all_below-at n p j)

count_below-above :
    (n : ℕ) (p : ℕ → Bool) (i : ℕ) → n ≤ i → count_below n (λ j. i == j || p j) ≡ count_below n p
unfolding count_below
count_below-above zero p i h = refl
count_below-above (suc n) p i h = ground (arith, count_below-above n p i)

count_below-insert :
    (n : ℕ) (p : ℕ → Bool) (i : ℕ)
    → i < n
    → count_below n (λ j. i == j || p j) ≡ (if p i then 0 else 1) + count_below n p
unfolding count_below
count_below-insert zero p i h = absurd (omega arith)
count_below-insert (suc n) p i h = ground (arith, count_below-insert n p i, count_below-above n p i)

count_below-none : (n : ℕ) → count_below n (contains []) ≡ 0
unfolding count_below
count_below-none zero = refl
count_below-none (suc n) = omega (arith, count_below-none n)

length-insert :
    (m : Map ℕ (List ℕ)) (i : ℕ) (v w : List ℕ) (c : Bool)
    → lookup m i ≡ (if c then some w else none)
    → length (insert m i v) ≡ (if c then 0 else 1) + length m
length-insert m i v w true h = rw (length-insert_old m i v w h) (omega arith)
length-insert m i v w false h = rw (length-insert_new m i v h) (omega arith)

-- A message of `n` segments, `segs i` the i-th of them, and what the buffer holds once the numbers
-- in `seen` have arrived.
module _ (n : ℕ) (segs : ℕ → List ℕ) where
  -- The arrival of segment `i`, whose flag says whether more segments follow it.
  pub arrive : SegmentBuffer → ℕ → SegmentBuffer × Option (List ℕ)
  arrive b i = add_segment b i (not (i + 1 == n)) (segs i)

  pub deliver : SegmentBuffer → List ℕ → SegmentBuffer
  deliver b [] = b
  deliver b (i ∷ later) = (arrive (deliver b later) i).0

  -- The whole message, from segment `i` on.
  pub message : ℕ → ℕ → List ℕ
  message i zero = []
  message i (suc rounds) = segs i ++ message (i + 1) rounds

  record Holds (b : SegmentBuffer) (seen : List ℕ) : Type 0 where
    entry : (j : ℕ) → lookup b.segments j ≡ (if contains seen j then some (segs j) else none)
    count : length b.segments ≡ count_below n (contains seen)
    total : b.total_expected ≡ (if contains seen (n - 1) then some n else none)

  Holds-new : (invoke_id window_size : ℕ) → Holds (new invoke_id window_size) []
  unfolding new
  Holds-new invoke_id window_size = record {
    entry = λ j. unfold lookup in refl;
    count = sym (count_below-none n);
    total = refl;
  }

  Holds-arrive :
      (b : SegmentBuffer) (seen : List ℕ) (i : ℕ)
      → i < n
      → Holds b seen
      → Holds (arrive b i).0 (i ∷ seen)
  unfolding arrive add_segment
  Holds-arrive b seen i lt h = record {
    entry = λ j. rw lookup-insert (ground (arith, h.entry j));
    count = omega (
      arith,
      length-insert b.segments i (segs i) (segs i) (contains seen i) (h.entry i),
      h.count,
      count_below-insert n (contains seen) i lt,
    );
    total = ground (arith, h.total);
  }

  Holds-deliver :
      (b : SegmentBuffer) (seen : List ℕ)
      → All (λ i. i < n) seen
      → Holds b []
      → Holds (deliver b seen) seen
  unfolding deliver
  Holds-deliver b [] lt h = h
  Holds-deliver b (i ∷ later) (lt, lts) h =
      Holds-arrive (deliver b later) later i lt (Holds-deliver b later lts h)

  -- Where every segment is there, the loop writes the message.
  reassemble_from-message :
      (b : SegmentBuffer) (seen : List ℕ) (i rounds : ℕ)
      → Holds b seen
      → all_below n (contains seen) ≡ true
      → i + rounds ≤ n
      → reassemble_from b.segments i rounds ≡ message i rounds
  unfolding reassemble_from message
  reassemble_from-message b seen i zero h full le = refl
  reassemble_from-message b seen i (suc rounds) h full le = rw (
    h.entry i,
    all_below-at n (contains seen) i full (omega arith),
    reassemble_from-message b seen (i + 1) rounds h full (omega arith),
  )

  count-full :
      (b : SegmentBuffer) (seen : List ℕ)
      → Holds b seen
      → (length b.segments == n) ≡ all_below n (contains seen)
  count-full b seen h = rw h.count (count_below-full n (contains seen))

  complete-some :
      (b : SegmentBuffer) (seen : List ℕ)
      → Holds b seen
      → complete b (some n)
        ≡ (if all_below n (contains seen) then some (message 0 (as_u8 n)) else none)
  unfolding complete reassemble
  complete-some b seen h =
      rw (count-full b seen h) (elim (Bool-cases (all_below n (contains seen))) [
        | inl full ↦ rw (full, reassemble_from-message b seen 0 (as_u8 n) h full (omega arith)) refl
        | inr gap ↦ rw gap refl
      ])

  complete-eq :
      (b : SegmentBuffer) (seen : List ℕ) (total : Option ℕ)
      → Holds b seen
      → total ≡ some n
      → complete b total
        ≡ (if all_below n (contains seen) then some (message 0 (as_u8 n)) else none)
  complete-eq b seen total h e = rw e (complete-some b seen h)

  complete-none : (b : SegmentBuffer) (total : Option ℕ) → total ≡ none → complete b total ≡ none
  unfolding complete
  complete-none b total e = rw e refl

  complete-Holds :
      (b : SegmentBuffer) (seen : List ℕ)
      → 1 ≤ n
      → Holds b seen
      → complete b b.total_expected
        ≡ (if all_below n (contains seen) then some (message 0 (as_u8 n)) else none)
  complete-Holds b seen lo h = elim (Bool-cases (contains seen (n - 1))) [
    | inl last ↦ complete-eq b seen b.total_expected h (rw h.total (rw last refl))
    | inr gap ↦
        rw (all_below-gap n (contains seen) (n - 1) gap (omega arith))
          (complete-none b b.total_expected (rw h.total (rw gap refl)))
  ]

  arrive-deliver :
      (invoke_id window_size : ℕ) (seen : List ℕ) (i : ℕ)
      → 1 ≤ n
      → All (λ j. j < n) seen
      → i < n
      → (arrive (deliver (new invoke_id window_size) seen) i).1
        ≡ (if all_below n (contains (i ∷ seen)) then some (message 0 (as_u8 n)) else none)
  unfolding arrive add_segment
  arrive-deliver invoke_id window_size seen i lo lts lt =
      let b : SegmentBuffer = deliver (new invoke_id window_size) seen in
      let h : Holds b seen =
        Holds-deliver (new invoke_id window_size) seen lts (Holds-new invoke_id window_size) in
      complete-Holds (arrive b i).0 (i ∷ seen) lo (Holds-arrive b seen i lt h)

  -- The segments of a message of 1 to 255 segments come in any order, some of them more than once:
  -- the arrival of segment `i` after those of `seen` gives the whole message, its segments in their
  -- order, where every number is then there, and gives nothing where one is missing.
  pub reassembly :
      (invoke_id window_size : ℕ) (seen : List ℕ) (i : ℕ)
      → 1 ≤ n
      → n ≤ 255
      → All (λ j. j < n) seen
      → i < n
      → (arrive (deliver (new invoke_id window_size) seen) i).1
        ≡ (if all_below n (contains (i ∷ seen)) then some (message 0 n) else none)
  reassembly invoke_id window_size seen i lo hi lts lt =
      let small : as_u8 n ≡ n = omega arith in
      arrive-deliver invoke_id window_size seen i lo lts lt ∙ rw small refl

  -- A message of 256 segments, the most that the one-byte numbers can name, is given as the empty
  -- message once they are all there, whatever they hold.
  pub reassembly_256 :
      (invoke_id window_size : ℕ) (seen : List ℕ) (i : ℕ)
      → n ≡ 256
      → All (λ j. j < n) seen
      → i < n
      → all_below n (contains (i ∷ seen)) ≡ true
      → (arrive (deliver (new invoke_id window_size) seen) i).1 ≡ some []
  unfolding message
  reassembly_256 invoke_id window_size seen i h lts lt full =
      let none_left : as_u8 n ≡ 0 = omega arith in
      arrive-deliver invoke_id window_size seen i (omega arith) lts lt ∙ rw (full, none_left) refl
