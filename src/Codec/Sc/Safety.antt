-- ===== src/Codec/Sc/Safety.antt =====
-- The decoder's answer on any buffer.
use bacnet_sim.Prelude.{ℕ, ◌+◌, ◌≤◌, ◌≢◌, Bool, true, false, List, arith, length, panic}
use bacnet_sim.Prelude.Safety.{
  Ensures, returns, Ensures-ne-panic, Ensures-bind, Ensures-fail_if, Ensures-index, Ensures-slice,
  ltb→le,
}
use bacnet_sim.Codec.Sc.{decode_vmac, decode}

decode_vmac-Ensures :
    (flag : Bool) (buf : List ℕ) (pos : ℕ)
    → pos ≤ length buf
    → Ensures (λ r. r.1 ≤ length buf) (decode_vmac flag buf pos)
unfolding decode_vmac
decode_vmac-Ensures true buf pos h = Ensures-bind (Ensures-fail_if _ _) λ _ long.
    let room = ltb→le (length buf) (pos + 6) long in
    Ensures-bind (Ensures-slice buf pos (pos + 6) (omega arith) room) λ vmac _. returns room
decode_vmac-Ensures false buf pos h = returns h

-- The decoder returns a frame or an error on every buffer: it never panics.
pub decode-ne-panic_sc : (buf : List ℕ) → decode buf ≢ panic
unfolding decode
decode-ne-panic_sc buf = Ensures-ne-panic {P = λ _. Unit} (
    Ensures-bind (Ensures-fail_if _ _) λ _ long.
      let room = ltb→le (length buf) 4 long in
      Ensures-bind (Ensures-index buf 0 (omega arith)) λ function _.
        Ensures-bind (Ensures-index buf 1 (omega arith)) λ ctrl _.
          Ensures-bind (Ensures-index buf 2 (omega arith)) λ hi _.
            Ensures-bind (Ensures-index buf 3 (omega arith)) λ lo _.
              Ensures-bind (decode_vmac-Ensures _ buf 4 room) λ o at_dest.
                Ensures-bind (decode_vmac-Ensures _ buf o.1 at_dest) λ d at_payload.
                  Ensures-bind (Ensures-slice buf d.1 (length buf) at_payload (omega arith))
                    λ payload _. returns tt)
