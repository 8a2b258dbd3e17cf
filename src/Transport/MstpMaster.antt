-- ===== src/Transport/MstpMaster.antt =====
-- crates/bacnet-transport/src/mstp/master.rs: a master of the token-passing ring. The sums of the
-- one-byte addresses panic when they overflow, as in a build with overflow checks.
pub mod Bus
pub mod OneToken
use bacnet_sim.Prelude.{
  ℕ, ◌+◌, ◌%◌, ◌^◌, Bool, true, false, ◌&&◌, Option, none, some, List, [], ◌∷◌, ◌++◌, ltb, ◌==◌,
  if◌then◌else◌, Outcome, ok, err, panic, ◌>>=◌, ◌>>◌,
}
use bacnet_sim.Codec.Mstp.{MstpFrame, MstpFrameType, as_u8}

pub data MasterState : Type 0 where
  initialize idle use_token wait_for_reply pass_token done_with_token : MasterState
  poll_for_master no_token : MasterState

pub record VirtualMstpMaster : Type 0 where
  pub address : ℕ
  pub max_master : ℕ
  pub state : MasterState
  pub next_station : ℕ
  pub token_received_count : ℕ
  pub pending_tx : List (ℕ × List ℕ)

-- `==` of two frame types, by their codes
abbrev pub is_type : MstpFrameType → MstpFrame → Bool
is_type t f = as_u8 f.frame_type == as_u8 t

-- `a + b` of two `u8`
abbrev pub add_u8 : ℕ → ℕ → Outcome Unit ℕ
add_u8 a b = if ltb (a + b) 256 then ok (a + b) else panic

unfoldable pub join : ℕ → ℕ → Outcome Unit VirtualMstpMaster
join address max_master = do
  after ← add_u8 address 1
  stations ← add_u8 max_master 1
  ok (record {
    address = address;
    max_master = max_master;
    state = MasterState.initialize;
    next_station = after % stations;
    token_received_count = 0;
    pending_tx = [];
  })

abbrev pub token_frame : ℕ → ℕ → MstpFrame
token_frame destination source = record {
  frame_type = MstpFrameType.token;
  destination = destination;
  source = source;
  payload = [];
}

-- What the master at address 0 sends when `run` starts, and whenever the ring is silent too long.
unfoldable pub restart : VirtualMstpMaster → List MstpFrame
restart m = if m.address == 0 then token_frame 0 0 ∷ [] else []

unfoldable pub send_pending : VirtualMstpMaster → List (ℕ × List ℕ) → List MstpFrame
send_pending m [] = []
send_pending m ((dst, npdu) ∷ rest) =
    record {
      frame_type = MstpFrameType.bacnet_data_not_expecting_reply;
      destination = dst;
      source = m.address;
      payload = npdu;
    }
    ∷ []

abbrev pub after_one : List (ℕ × List ℕ) → List (ℕ × List ℕ)
after_one [] = []
after_one (x ∷ rest) = rest

-- The token has come: one frame of the queue goes out, then the token.
unfoldable pub hold_token : VirtualMstpMaster → VirtualMstpMaster × List MstpFrame
hold_token m = (
  record m {
    state = MasterState.idle;
    token_received_count = (m.token_received_count + 1) % 2 ^ 64;
    pending_tx = after_one m.pending_tx;
  },
  send_pending m m.pending_tx ++ (token_frame m.next_station m.address ∷ []),
)

-- One frame read from the bus, in the loop of `run`.
unfoldable pub on_frame : VirtualMstpMaster → MstpFrame → VirtualMstpMaster × List MstpFrame
on_frame m f =
    if is_type MstpFrameType.token f && f.destination == m.address
    then hold_token m
    else if is_type MstpFrameType.poll_for_master f && f.destination == m.address
    then (
      m,
      record {
        frame_type = MstpFrameType.reply_to_poll_for_master;
        destination = f.source;
        source = m.address;
        payload = [];
      }
          ∷ [],
    )
    else (m, [])
