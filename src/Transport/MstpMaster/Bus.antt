-- ===== src/Transport/MstpMaster/Bus.antt =====
-- The masters of a bus and the frames that each has still to read.
use bacnet_sim.Prelude.{
  ℕ, zero, suc, ◌+◌, ◌≤◌, ◌<◌, ◌≡◌, refl, sym, ap, ◌∙◌, Bool, false, ◌&&◌, List, [], ◌∷◌, ◌++◌,
  arith, ltb, ◌==◌, if◌then◌else◌, lt→ltb, Bool-cases, inl, inr,
}
use bacnet_sim.Codec.Mstp.{MstpFrame, MstpFrameType, as_u8}
use bacnet_sim.Transport.MstpMaster.{
  VirtualMstpMaster, is_type, token_frame, send_pending, hold_token, on_frame,
}

-- The station behind each address up to the highest, and the frames it has not read, oldest first.
pub record Bus : Type 0 where
  pub station : ℕ → VirtualMstpMaster
  pub unread : ℕ → List MstpFrame

-- The bus hands what a station sends to every station, the sender too.
unfoldable pub broadcast : List MstpFrame → (ℕ → List MstpFrame) → ℕ → List MstpFrame
broadcast sent unread a = unread a ++ sent

abbrev pub replace {ℓ} : {A : Type ℓ} → (ℕ → A) → ℕ → A → ℕ → A
replace f a x b = if a == b then x else f b

-- Station `a` reads its next frame, `f`.
pub read_frame : Bus → ℕ → MstpFrame → List MstpFrame → Bus
read_frame bus a f rest =
    let (m, sent) = on_frame (bus.station a) f in
    record {
      station = replace bus.station a m;
      unread = broadcast sent (replace bus.unread a rest);
    }

-- A frame that hands the token to `a`.
abbrev pub is_token_for : ℕ → MstpFrame → Bool
is_token_for a f = is_type MstpFrameType.token f && f.destination == a

unfoldable pub count_tokens : ℕ → List MstpFrame → ℕ
count_tokens a [] = 0
count_tokens a (f ∷ rest) = (if is_token_for a f then 1 else 0) + count_tokens a rest

-- The tokens on their way to the stations below `n`.
unfoldable pub tokens_below : ℕ → (ℕ → List MstpFrame) → ℕ
tokens_below zero unread = 0
tokens_below (suc n) unread = count_tokens n (unread n) + tokens_below n unread

-- The frames that hand a token to a station below `n`.
unfoldable pub tokens_in : ℕ → List MstpFrame → ℕ
tokens_in n [] = 0
tokens_in n (f ∷ rest) =
    (if is_type MstpFrameType.token f && ltb f.destination n then 1 else 0) + tokens_in n rest

count_tokens-append :
    (a : ℕ) (xs ys : List MstpFrame)
    → count_tokens a (xs ++ ys) ≡ count_tokens a xs + count_tokens a ys
unfolding count_tokens
count_tokens-append a [] ys = omega arith
count_tokens-append a (f ∷ xs) ys = omega (arith, count_tokens-append a xs ys)

tokens_in-suc :
    (n : ℕ) (sent : List MstpFrame)
    → tokens_in (suc n) sent ≡ count_tokens n sent + tokens_in n sent
unfolding count_tokens tokens_in
tokens_in-suc n [] = refl
tokens_in-suc n (f ∷ rest) = ground (arith, tokens_in-suc n rest)

tokens_in-zero : (sent : List MstpFrame) → tokens_in zero sent ≡ 0
unfolding tokens_in
tokens_in-zero [] = refl
tokens_in-zero (f ∷ rest) = ground (arith, tokens_in-zero rest)

pub tokens_below-broadcast :
    (n : ℕ) (sent : List MstpFrame) (unread : ℕ → List MstpFrame)
    → tokens_below n (broadcast sent unread) ≡ tokens_in n sent + tokens_below n unread
unfolding tokens_below broadcast
tokens_below-broadcast zero sent unread = omega (arith, tokens_in-zero sent)
tokens_below-broadcast (suc n) sent unread = omega (
  arith,
  count_tokens-append n (unread n) sent,
  tokens_in-suc n sent,
  tokens_below-broadcast n sent unread,
)

tokens_below-above :
    (n : ℕ) (unread : ℕ → List MstpFrame) (a : ℕ) (rest : List MstpFrame)
    → n ≤ a
    → tokens_below n (replace unread a rest) ≡ tokens_below n unread
unfolding tokens_below
tokens_below-above zero unread a rest h = refl
tokens_below-above (suc n) unread a rest h =
    let other : (a == n) ≡ false = ground arith in
    rw (other, tokens_below-above n unread a rest (omega arith)) refl

count_tokens-head :
    (a : ℕ) (frames : List MstpFrame) (f : MstpFrame) (rest : List MstpFrame)
    → frames ≡ f ∷ rest
    → count_tokens a frames ≡ (if is_token_for a f then 1 else 0) + count_tokens a rest
unfolding count_tokens
count_tokens-head a frames f rest e = rw e refl

tokens_below-read :
    (n : ℕ) (unread : ℕ → List MstpFrame) (a : ℕ) (f : MstpFrame) (rest : List MstpFrame)
    → a < n
    → unread a ≡ f ∷ rest
    → tokens_below n unread
      ≡ (if is_token_for a f then 1 else 0) + tokens_below n (replace unread a rest)
unfolding tokens_below
tokens_below-read zero unread a f rest h e = absurd (omega arith)
tokens_below-read (suc n) unread a f rest h e = elim (Bool-cases (a == n)) [
  | inl here ↦
      let same : a ≡ n = ground (arith, here) in
      let counted = count_tokens-head a (unread a) f rest e in
      let queue = ap (λ (k : ℕ). count_tokens k (unread k)) same in
      let queue_after = ap (λ (k : ℕ). count_tokens k rest) same in
      rw here (
        omega (
          arith,
          counted,
          queue,
          queue_after,
          tokens_below-above n unread a rest (omega (arith, same)),
        ))
  | inr other ↦
      rw other (omega (arith, tokens_below-read n unread a f rest (ground (arith, other)) e))
]

-- The stations below `n` have the addresses below `n`, and pass the token to one of them.
pub record IsRing (n : ℕ) (station : ℕ → VirtualMstpMaster) : Type 0 where
  pub address : (a : ℕ) → a < n → (station a).address ≡ a
  pub next_station : (a : ℕ) → a < n → (station a).next_station < n

-- A station keeps its address and its successor.
on_frame-address : (m : VirtualMstpMaster) (f : MstpFrame) → (on_frame m f).0.address ≡ m.address
unfolding on_frame hold_token
on_frame-address m f = ground arith

on_frame-next_station :
    (m : VirtualMstpMaster) (f : MstpFrame) → (on_frame m f).0.next_station ≡ m.next_station
unfolding on_frame hold_token
on_frame-next_station m f = ground arith

tokens_in-hold_token :
    (n : ℕ) (m : VirtualMstpMaster) (pending : List (ℕ × List ℕ))
    → m.next_station < n
    → tokens_in n (send_pending m pending ++ (token_frame m.next_station m.address ∷ [])) ≡ 1
unfolding tokens_in send_pending as_u8
tokens_in-hold_token n m [] h = rw (lt→ltb m.next_station n h) refl
tokens_in-hold_token n m ((dst, npdu) ∷ rest) h = rw (lt→ltb m.next_station n h) refl

-- A station sends a token exactly when it reads one.
tokens_in-on_frame :
    (n : ℕ) (m : VirtualMstpMaster) (f : MstpFrame)
    → m.next_station < n
    → tokens_in n (on_frame m f).1 ≡ (if is_token_for m.address f then 1 else 0)
unfolding on_frame hold_token
tokens_in-on_frame n m f h = elim (Bool-cases (is_token_for m.address f)) [
  | inl held ↦ rw held (tokens_in-hold_token n m m.pending_tx h)
  | inr not_held ↦
      rw not_held
        (elim (Bool-cases (is_type MstpFrameType.poll_for_master f && f.destination == m.address)) [
          | inl polled ↦ rw polled (unfold tokens_in as_u8 in refl)
          | inr other ↦ rw other (unfold tokens_in in refl)
        ])
]

module _ (n : ℕ) where
  -- Any order in which the stations read their frames.
  pub data Runs : Bus → Bus → Type 0 where
    quiet : (bus : Bus) → Runs bus bus
    reads :
        (bus end : Bus) (a : ℕ) (f : MstpFrame) (rest : List MstpFrame)
        → a < n
        → bus.unread a ≡ f ∷ rest
        → Runs (read_frame bus a f rest) end
        → Runs bus end

  read_frame-IsRing :
      (bus : Bus) (a : ℕ) (f : MstpFrame) (rest : List MstpFrame)
      → a < n
      → IsRing n bus.station
      → IsRing n (read_frame bus a f rest).station
  unfolding read_frame
  read_frame-IsRing bus a f rest h ring = record {
    address = λ b hb. elim (Bool-cases (a == b)) [
      | inl here ↦
          rw here (on_frame-address (bus.station a) f ∙ ring.address a h ∙ ground (arith, here))
      | inr other ↦ rw other (ring.address b hb)
    ];
    next_station = λ b hb. elim (Bool-cases (a == b)) [
      | inl here ↦ rw (here, on_frame-next_station (bus.station a) f) (ring.next_station a h)
      | inr other ↦ rw other (ring.next_station b hb)
    ];
  }

  tokens_below-read_frame :
      (bus : Bus) (a : ℕ) (f : MstpFrame) (rest : List MstpFrame)
      → a < n
      → bus.unread a ≡ f ∷ rest
      → IsRing n bus.station
      → tokens_below n (read_frame bus a f rest).unread ≡ tokens_below n bus.unread
  unfolding read_frame
  tokens_below-read_frame bus a f rest h e ring =
      let sent = tokens_in-on_frame n (bus.station a) f (ring.next_station a h) in
      tokens_below-broadcast n (on_frame (bus.station a) f).1 (replace bus.unread a rest)
      ∙ rw (sent, ring.address a h) (sym (tokens_below-read n bus.unread a f rest h e))

  -- In a ring whose stations pass the token to one another, whatever the order in which they read
  -- what the bus carries, the number of tokens on the way to a station stays the same.
  pub tokens_below-Runs :
      (bus end : Bus)
      → IsRing n bus.station
      → Runs bus end
      → tokens_below n end.unread ≡ tokens_below n bus.unread
  tokens_below-Runs bus end ring (quiet b) = refl
  tokens_below-Runs bus end ring (reads b e a f rest h next more) =
      tokens_below-Runs (read_frame bus a f rest) end (read_frame-IsRing bus a f rest h ring) more
      ∙ tokens_below-read_frame bus a f rest h next ring
