-- ===== src/Transport/MstpMaster/OneToken.antt =====
-- The ring that the stations of a bus make when they join it.
use bacnet_sim.Prelude.{
  ℕ, zero, suc, ◌+◌, ◌%◌, ◌≤◌, ◌<◌, ◌≡◌, refl, sym, ap, ◌∙◌, [], arith, Outcome, ok, lt→ltb,
}
use bacnet_sim.Codec.Mstp.{as_u8}
use bacnet_sim.Transport.MstpMaster.{MasterState, VirtualMstpMaster, join, restart}
use bacnet_sim.Transport.MstpMaster.Bus.{
  count_tokens, Bus, broadcast, IsRing, tokens_below, Runs, tokens_below-Runs, tokens_in,
  tokens_below-broadcast,
}

-- The stations 0 to `max_master`, each of them as it is when it has joined.
unfoldable pub Joined : ℕ → (ℕ → VirtualMstpMaster) → Type 0
Joined max_master station = (a : ℕ) → a ≤ max_master → join a max_master ≡ ok (station a)

joined_station : ℕ → ℕ → VirtualMstpMaster
joined_station a max_master = record {
  address = a;
  max_master = max_master;
  state = MasterState.initialize;
  next_station = (a + 1) % (max_master + 1);
  token_received_count = 0;
  pending_tx = [];
}

join-ok :
    (a max_master : ℕ)
    → a ≤ max_master
    → max_master < 255
    → join a max_master ≡ ok (joined_station a max_master)
unfolding join joined_station
join-ok a max_master h lt =
    rw (lt→ltb (a + 1) 256 (omega arith), lt→ltb (max_master + 1) 256 (omega arith)) refl

abbrev joined_ok : VirtualMstpMaster → Outcome Unit VirtualMstpMaster
joined_ok m = ok m

ok-injective : (x y : VirtualMstpMaster) → joined_ok x ≡ joined_ok y → x ≡ y
ok-injective x y e = cc

Joined-IsRing :
    (max_master : ℕ) (station : ℕ → VirtualMstpMaster)
    → max_master < 255
    → Joined max_master station
    → IsRing (max_master + 1) station
unfolding Joined joined_station
Joined-IsRing max_master station lt joined =
    let same : (a : ℕ) → a ≤ max_master → joined_station a max_master ≡ station a = λ a h.
      ok-injective (joined_station a max_master) (station a)
        (sym (join-ok a max_master h lt) ∙ joined a h) in
    record {
      address = λ a h. ap (λ (m : VirtualMstpMaster). m.address) (sym (same a (omega (arith, h))));
      next_station = λ a h. rw⁻¹ (same a (omega (arith, h))) (omega arith);
    }

-- The bus when the station at address 0 has started the ring and nothing is read yet.
unfoldable pub started : (ℕ → VirtualMstpMaster) → Bus
started station = record { station = station; unread = broadcast (restart (station 0)) (λ a. []) }

tokens_below-none : (n : ℕ) → tokens_below n (λ a. []) ≡ 0
unfolding tokens_below count_tokens
tokens_below-none zero = refl
tokens_below-none (suc n) = omega (arith, tokens_below-none n)

tokens_in-restart :
    (n : ℕ) (m : VirtualMstpMaster) → m.address ≡ 0 → tokens_in (n + 1) (restart m) ≡ 1
unfolding restart tokens_in as_u8
tokens_in-restart n m h = rw (h, lt→ltb 0 (n + 1) (omega arith)) refl

-- The masters 0 to `max_master`, which is below 255, joined the bus, and the one at address 0 started
-- the ring: whatever the order in which they read what the bus carries, while no wait times out
-- there is exactly one token on the way to one of them.
pub one_token :
    (max_master : ℕ) (station : ℕ → VirtualMstpMaster) (end : Bus)
    → max_master < 255
    → Joined max_master station
    → Runs (max_master + 1) (started station) end
    → tokens_below (max_master + 1) end.unread ≡ 1
unfolding started
one_token max_master station end lt joined runs =
    let ring = Joined-IsRing max_master station lt joined in
    let sent = tokens_in-restart max_master (station 0) (ring.address 0 (omega arith)) in
    tokens_below-Runs (max_master + 1) (started station) end ring runs
    ∙ tokens_below-broadcast (max_master + 1) (restart (station 0)) (λ a. [])
    ∙ omega (arith, sent, tokens_below-none (max_master + 1))
