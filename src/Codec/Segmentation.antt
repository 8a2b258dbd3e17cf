-- ===== src/Codec/Segmentation.antt =====
-- crates/bacnet-codec/src/apdu/segmentation.rs: putting segments together.
pub mod Reassembly
use bacnet_sim.Prelude.{
  ℕ, zero, suc, ◌+◌, ◌-◌, ◌%◌, ◌^◌, Bool, true, false, Option, none, some, List, [], ◌∷◌, ◌++◌,
  ◌==◌, if◌then◌else◌, length, as_u8,
}
use bacnet_sim.Prelude.Maps.{Map, lookup, insert, nat_key}

pub record SegmentBuffer : Type 0 where
  pub invoke_id : ℕ
  pub sequence_count : ℕ
  pub window_size : ℕ
  pub segments : Map ℕ (List ℕ)
  pub total_expected : Option ℕ

unfoldable pub new : ℕ → ℕ → SegmentBuffer
new invoke_id window_size = record {
  invoke_id = invoke_id;
  sequence_count = 0;
  window_size = window_size;
  segments = [];
  total_expected = none;
}

-- A segment that is missing adds nothing.
abbrev pub bytes_of : Option (List ℕ) → List ℕ
bytes_of none = []
bytes_of (some seg) = seg

-- The loop over the counters from `i` on, with so many rounds left.
unfoldable pub reassemble_from : Map ℕ (List ℕ) → ℕ → ℕ → List ℕ
reassemble_from segments i zero = []
reassemble_from segments i (suc rounds) =
    bytes_of (lookup segments i) ++ reassemble_from segments (i + 1) rounds

-- `for i in 0..total as u8`
unfoldable pub reassemble : SegmentBuffer → ℕ → List ℕ
reassemble b total = reassemble_from b.segments 0 (as_u8 total)

unfoldable pub complete : SegmentBuffer → Option ℕ → Option (List ℕ)
complete b none = none
complete b (some total) = if length b.segments == total then some (reassemble b total) else none

unfoldable pub add_segment : SegmentBuffer → ℕ → Bool → List ℕ → SegmentBuffer × Option (List ℕ)
add_segment b sequence_number more_follows bytes =
    let b' : SegmentBuffer = record b {
      segments = insert b.segments sequence_number bytes;
      total_expected = if more_follows then b.total_expected else some (sequence_number + 1);
    } in
    (b', complete b' b'.total_expected)
