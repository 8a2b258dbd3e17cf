-- ===== src/Encoding/Tags/Safety.antt =====
-- The readers of context tags on any buffer: none of them panics, and each moves the position
-- forward, within the buffer.
use bacnet_sim.Prelude.{ℕ, ◌+◌, ◌≤◌, ◌<◌, not, ◌||◌, List, arith, ltb, ◌==◌, length, get_elem?}
use bacnet_sim.Prelude.Safety.{
  Ensures, returns, fails, weaken, Ensures-bind, Ensures-fail_if, Ensures-if, Ensures-ok_or,
  Ensures-index, Ensures-slice, get_elem?-lt, ltb→le,
}
use bacnet_sim.Types.Error.{decode_error}
use bacnet_sim.Encoding.Tags.{
  peek, tag_number, is_context, lvt_of, decode_lvt_len, read_uint, decode_ctx_u32, decode_ctx_bool,
  be32_at, decode_ctx_object_id, decode_ctx_property_id,
}

-- The position moved forward and stands inside the buffer or at its end.
abbrev pub Advances : {A : Type 0} → List ℕ → ℕ → A × ℕ → Type 0
Advances buf pos r = (pos < r.1) × (r.1 ≤ length buf)

module _ (buf : List ℕ) (pos : ℕ) where
  pub decode_lvt_len-Ensures :
      (lvt : ℕ)
      → pos ≤ length buf
      → Ensures (λ r. (pos ≤ r.1) × (r.1 ≤ length buf)) (decode_lvt_len buf pos lvt)
  unfolding decode_lvt_len
  decode_lvt_len-Ensures lvt h =
      Ensures-if (ltb lvt 5) (λ _. returns (omega arith, h))
        λ _.
          Ensures-if (lvt == 5)
            (λ _.
              Ensures-bind (Ensures-ok_or (get_elem? buf pos) decode_error)
                λ l there. returns (omega arith, omega (arith, get_elem?-lt buf pos l there)))
            λ _. fails

  pub read_uint-Ensures :
      (len : ℕ) → Ensures (λ r. (pos ≤ r.1) × (r.1 ≤ length buf)) (read_uint buf pos len)
  unfolding read_uint
  read_uint-Ensures len =
      Ensures-if (ltb (length buf) (pos + len)) (λ _. fails)
        λ long.
          let room = ltb→le (length buf) (pos + len) long in
          Ensures-bind (Ensures-slice buf pos (pos + len) (omega arith) room)
            λ bytes _. returns (omega arith, room)

  pub be32_at-Ensures : pos + 4 ≤ length buf → Ensures (λ _. Unit) (be32_at buf pos)
  unfolding be32_at
  be32_at-Ensures room = Ensures-bind (Ensures-index buf pos (omega arith)) λ a _.
      Ensures-bind (Ensures-index buf (pos + 1) (omega arith)) λ b _.
        Ensures-bind (Ensures-index buf (pos + 2) (omega arith))
          λ c _. Ensures-bind (Ensures-index buf (pos + 3) (omega arith)) λ d _. returns tt

module _ (buf : List ℕ) (pos expected : ℕ) where
  pub decode_ctx_u32-Ensures : Ensures (Advances buf pos) (decode_ctx_u32 buf pos expected)
  unfolding decode_ctx_u32
  decode_ctx_u32-Ensures = Ensures-bind (Ensures-ok_or (peek buf pos) decode_error) λ b there.
      let inside = get_elem?-lt buf pos b there in
      Ensures-bind
        (Ensures-fail_if (not (is_context b) || not (tag_number b == expected)) decode_error)
        λ _ _.
          Ensures-bind (decode_lvt_len-Ensures buf (pos + 1) (lvt_of b) (omega arith))
            λ r at. weaken (λ s in_s. (omega arith, omega arith)) (read_uint-Ensures buf r.1 r.0)

  pub decode_ctx_property_id-Ensures :
      Ensures (Advances buf pos) (decode_ctx_property_id buf pos expected)
  unfolding decode_ctx_property_id
  decode_ctx_property_id-Ensures = Ensures-bind decode_ctx_u32-Ensures λ r at. returns at

  pub decode_ctx_bool-Ensures : Ensures (Advances buf pos) (decode_ctx_bool buf pos expected)
  unfolding decode_ctx_bool
  decode_ctx_bool-Ensures = Ensures-bind decode_ctx_u32-Ensures λ r at. returns at

  pub decode_ctx_object_id-Ensures :
      Ensures (Advances buf pos) (decode_ctx_object_id buf pos expected)
  unfolding decode_ctx_object_id
  decode_ctx_object_id-Ensures = Ensures-bind (Ensures-ok_or (peek buf pos) decode_error) λ b there.
      let inside = get_elem?-lt buf pos b there in
      Ensures-bind
        (Ensures-fail_if (not (is_context b) || not (tag_number b == expected)) decode_error)
        λ _ _. Ensures-bind (decode_lvt_len-Ensures buf (pos + 1) (lvt_of b) (omega arith)) λ r at.
          Ensures-bind (Ensures-fail_if (not (r.0 == 4)) decode_error) λ _ _.
            Ensures-bind (Ensures-fail_if (ltb (length buf) (r.1 + 4)) decode_error) λ _ long.
              let room = ltb→le (length buf) (r.1 + 4) long in
              Ensures-bind (be32_at-Ensures buf r.1 room) λ raw _. returns (omega arith, room)
