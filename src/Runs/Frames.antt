-- ===== src/Runs/Frames.antt =====
-- The theorems on the frames of crates/bacnet-codec/src at concrete frames.
use bacnet_sim.Prelude.{
  ℕ, zero, suc, ◌≤◌, ◌<◌, All, ◌≡◌, ◌≢◌, ◌==◌, refl, true, false, none, some, List, [], ◌∷◌, ◌++◌,
  arith, ok, panic, if◌then◌else◌,
}
use bacnet_sim.Codec.Bvll.{SocketAddrV4, BvllFrame, forwarded_npdu}
use bacnet_sim.Codec.Bvll.RoundTrip.{decode-encode_bvll}
use bacnet_sim.Codec.Bvll.Panics.{decode-panic_iff}
use bacnet_sim.Codec.Npdu.{NpduControl, NpduAddress, Npdu, encode_local}
use bacnet_sim.Codec.Npdu.Wire.{wire, IsWellFormed, decode-wire, decode-panic_truncated}
use bacnet_sim.Codec.Mstp.{MstpFrameType, MstpFrame}
use bacnet_sim.Codec.Mstp.RoundTrip.{decode-encode_mstp}
use bacnet_sim.Codec.Sc.{ScFrame, encapsulated}
use bacnet_sim.Codec.Sc.RoundTrip.{decode-encode_sc}
use bacnet_sim.Codec.Sc.Safety.{decode-ne-panic_sc}
use bacnet_sim.Codec.Segmentation.{new}
use bacnet_sim.Codec.Segmentation.Reassembly.{
  arrive, deliver, reassembly, reassembly_256, all_below, contains, message,
}
use bacnet_sim.Codec.Bvll
use bacnet_sim.Codec.Npdu
use bacnet_sim.Codec.Mstp
use bacnet_sim.Codec.Sc

abbrev forwarded : BvllFrame
forwarded =
    forwarded_npdu (record { ip0 = 10; ip1 = 0; ip2 = 0; ip3 = 7; port = 0xBAC0 })
      (0x01 ∷ 0x00 ∷ [])

forwarded_is_read : Bvll.decode (Bvll.encode forwarded ++ (0xFF ∷ [])) ≡ ok forwarded
forwarded_is_read = decode-encode_bvll forwarded (0xFF ∷ []) (omega arith, omega arith)

-- The frame that claims to be three bytes long.
short_length_panics : Bvll.decode (0x81 ∷ 0x0A ∷ 0x00 ∷ 0x03 ∷ []) ≡ panic
short_length_panics = (decode-panic_iff (0x81 ∷ 0x0A ∷ 0x00 ∷ 0x03 ∷ [])).1 (refl, omega arith)

abbrev routed : Npdu
routed = record {
  version = 1;
  control = record {
    network_message = false;
    destination_specifier = true;
    source_specifier = true;
    expecting_reply = true;
    priority = 2;
  };
  destination = some (record { network = 1001; mac = 0x21 ∷ [] });
  source = some (record { network = 5; mac = 10 ∷ 0 ∷ 0 ∷ 7 ∷ 0xBA ∷ 0xC0 ∷ [] });
  hop_count = some 254;
  apdu = 0x10 ∷ 0x08 ∷ [];
}

routed-IsWellFormed : IsWellFormed routed
routed-IsWellFormed = record {
  version = refl;
  priority = omega arith;
  destination = tt;
  source = tt;
  hop_count = tt;
  destination_network = omega arith;
  source_network = omega arith;
}

routed_is_read : Npdu.decode (wire routed) ≡ ok routed
routed_is_read = decode-wire routed routed-IsWellFormed

cut_address_panics : Npdu.decode (1 ∷ 0x20 ∷ 0x03 ∷ 0xE9 ∷ 6 ∷ 1 ∷ 2 ∷ []) ≡ panic
cut_address_panics = decode-panic_truncated 0x20 0x03 0xE9 6 (1 ∷ 2 ∷ []) refl (omega arith)

abbrev data_frame : MstpFrame
data_frame = record {
  frame_type = MstpFrameType.bacnet_data_not_expecting_reply;
  destination = 5;
  source = 3;
  payload = 0xDE ∷ 0xAD ∷ [];
}

data_frame_is_read : Mstp.decode (Mstp.encode data_frame ++ (0x55 ∷ [])) ≡ ok data_frame
data_frame_is_read = decode-encode_mstp data_frame (0x55 ∷ []) (omega arith)

abbrev hub_frame : ScFrame
hub_frame = encapsulated 77 none (some (1 ∷ 2 ∷ 3 ∷ 4 ∷ 5 ∷ 6 ∷ [])) (0x01 ∷ 0x00 ∷ [])

hub_frame_is_read : Sc.decode (Sc.encode hub_frame) ≡ ok hub_frame
unfolding encapsulated
hub_frame_is_read = decode-encode_sc hub_frame (record { orig = tt; dest = refl; id = omega arith })

sc_bytes_are_safe : Sc.decode (0x01 ∷ 0x0C ∷ 0x00 ∷ 0x01 ∷ 1 ∷ 2 ∷ []) ≢ panic
sc_bytes_are_safe = decode-ne-panic_sc (0x01 ∷ 0x0C ∷ 0x00 ∷ 0x01 ∷ 1 ∷ 2 ∷ [])

abbrev three_segments : ℕ → List ℕ
three_segments i = if i == 0 then 10 ∷ 11 ∷ [] else if i == 1 then 12 ∷ [] else 13 ∷ []

-- The last segment first, then the first one twice, then the middle one.
three_segments_are_put_together :
    (arrive 3 three_segments (deliver 3 three_segments (new 9 4) (0 ∷ 0 ∷ 2 ∷ [])) 1).1 ≡ (
      if all_below 3 (contains (1 ∷ 0 ∷ 0 ∷ 2 ∷ []))
      then some (message 3 three_segments 0 3)
      else none)
three_segments_are_put_together =
    reassembly 3 three_segments 9 4 (0 ∷ 0 ∷ 2 ∷ []) 1 (omega arith) (omega arith)
      (omega arith, (omega arith, (omega arith, tt))) (omega arith)

abbrev counted : ℕ → List ℕ
counted zero = []
counted (suc n) = n ∷ counted n

counted-All : (n m : ℕ) → n ≤ m → All (λ j. j < m) (counted n)
counted-All zero m h = tt
counted-All (suc n) m h = (omega arith, counted-All n m (omega arith))

full_window_is_lost :
    (arrive 256 three_segments (deliver 256 three_segments (new 9 4) (counted 255)) 255).1 ≡ some []
full_window_is_lost =
    reassembly_256 256 three_segments 9 4 (counted 255) 255 refl (counted-All 255 256 (omega arith))
      (omega arith) (unfold all_below in refl)
