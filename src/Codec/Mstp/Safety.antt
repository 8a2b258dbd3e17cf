-- ===== src/Codec/Mstp/Safety.antt =====
-- The decoder's answer on any buffer.
use bacnet_sim.Prelude.{
  ℕ, ◌+◌, ◌≤◌, ◌≢◌, not, ◌||◌, List, arith, ltb, ◌==◌, length, panic, if◌then◌else◌, be16,
}
use bacnet_sim.Prelude.Safety.{
  Ensures, returns, Ensures-ne-panic, Ensures-bind, Ensures-fail_if, Ensures-index, Ensures-if,
  Ensures-slice, Ensures-ok_or, weaken, ltb→le,
}
use bacnet_sim.Codec.Mstp.{
  bad_data_crc, bad_preamble, incomplete, bad_header_crc, unknown_frame_type, crc8, crc16, from_u8,
  check_payload, decode,
}

check_payload-Ensures :
    (buf payload : List ℕ) (data_len : ℕ)
    → 8 + data_len + (if ltb 0 data_len then 2 else 0) ≤ length buf
    → Ensures (λ r. Unit) (check_payload buf payload data_len)
unfolding check_payload
check_payload-Ensures buf payload data_len room =
    Ensures-if (ltb 0 data_len)
      (λ some_data.
        let room_for_crc : 10 + data_len ≤ length buf = ground (arith, some_data, room) in
        Ensures-bind (Ensures-index buf (8 + data_len) (omega (arith, room_for_crc))) λ lo h_lo.
          Ensures-bind (Ensures-index buf (9 + data_len) (omega (arith, room_for_crc))) λ hi h_hi.
            weaken (λ u h. tt) (Ensures-fail_if (not (be16 hi lo == crc16 payload)) bad_data_crc))
      (λ no_data. returns tt)

-- The decoder returns a frame or an error on every buffer: it never panics.
pub decode-ne-panic_mstp : (buf : List ℕ) → decode buf ≢ panic
unfolding decode
decode-ne-panic_mstp buf = Ensures-ne-panic {P = λ _. Unit} (
    Ensures-bind (Ensures-fail_if _ _) λ _ two.
      let room_2 = ltb→le (length buf) 2 two in
      Ensures-bind (Ensures-index buf 0 (omega arith)) λ b0 h0.
        Ensures-bind (Ensures-index buf 1 (omega arith)) λ b1 h1.
          Ensures-bind (Ensures-fail_if (not (b0 == 0x55) || not (b1 == 0xFF)) bad_preamble)
            λ _ preamble. Ensures-bind (Ensures-fail_if (ltb (length buf) 8) incomplete) λ _ eight.
              let room_8 = ltb→le (length buf) 8 eight in
              Ensures-bind (Ensures-index buf 2 (omega arith)) λ type h2.
                Ensures-bind (Ensures-ok_or (from_u8 type) (unknown_frame_type type))
                  λ frame_type h_type.
                    Ensures-bind (Ensures-index buf 3 (omega arith)) λ destination h3.
                      Ensures-bind (Ensures-index buf 4 (omega arith)) λ source h4.
                        Ensures-bind (Ensures-index buf 5 (omega arith)) λ hi h5.
                          Ensures-bind (Ensures-index buf 6 (omega arith)) λ lo h6.
                            Ensures-bind (Ensures-index buf 7 (omega arith)) λ crc h7.
                              Ensures-bind (Ensures-slice buf 2 7 (omega arith) (omega arith))
                                λ hdr h_hdr.
                                  Ensures-bind
                                    (Ensures-fail_if (not (crc == crc8 hdr)) bad_header_crc)
                                    λ _ crc_ok.
                                      Ensures-bind
                                        (Ensures-fail_if
                                          (ltb (length buf) (
                                            8 + be16 hi lo + (if ltb 0 (be16 hi lo) then 2 else 0)))
                                          incomplete)
                                        λ _ long.
                                          let room =
                                            ltb→le (length buf)
                                              (8
                                                + be16 hi lo
                                                + (if ltb 0 (be16 hi lo) then 2 else 0))
                                              long in
                                          Ensures-bind
                                            (Ensures-slice buf 8 (8 + be16 hi lo) (omega arith)
                                              (omega (arith, room)))
                                            λ payload h_payload.
                                              Ensures-bind
                                                (check_payload-Ensures buf payload (be16 hi lo)
                                                  room)
                                                λ _ h_crc. returns tt)
