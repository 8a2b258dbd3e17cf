-- ===== src/Codec/Optional.antt =====
-- crates/bacnet-codec/src/apdu: a context-tagged number that a request may leave out, as every
-- decoder of a request body reads it: `if has_context_tag(..) { Some(decode_ctx_u32(..)?) }`.
use bacnet_sim.Prelude.{
  ℕ, ◌+◌, ◌≤◌, ◌<◌, ◌≡◌, ◌≢◌, ◌⊎◌, inl, inr, refl, ap, true, false, ◌&&◌, Option, none, some, List,
  [], ◌∷◌, ◌++◌, arith, if◌then◌else◌, ltb, ◌==◌, ==_iff, lt→ltb, length, drop, get_at, get_past,
  ok, ◌>>=◌, IsU32,
}
use bacnet_sim.Encoding.Tags.{
  Read, is_context, tag_number, lvt_of, decode_ctx_u32, encode_ctx_u32, has_context_tag, uint_bytes,
}
use bacnet_sim.Encoding.Tags.RoundTrip.{decode_ctx_u32_at, context_tag_parts}

unfoldable pub decode_optional : List ℕ → ℕ → ℕ → Read (Option ℕ)
decode_optional body pos tag =
    if has_context_tag body pos tag
    then (do (v, next) ← decode_ctx_u32 body pos tag; ok (some v, next))
    else ok (none, pos)

unfoldable pub encode_optional : ℕ → Option ℕ → List ℕ
encode_optional tag none = []
encode_optional tag (some v) = encode_ctx_u32 tag v

-- The next byte, if there is one, is not under the tag, or it opens or closes a group.
abbrev pub Absent : ℕ → List ℕ → Type 0
Absent tag [] = Unit
Absent tag (b ∷ bytes) = (tag_number b ≢ tag) ⊎ (6 ≤ lvt_of b)

abbrev pub FitsU32 : Option ℕ → Type 0
FitsU32 none = Unit
FitsU32 (some v) = IsU32 v

pub uint_bytes-le : (v : ℕ) → (uint_bytes v).0 ≤ 4
unfolding uint_bytes
uint_bytes-le v = ground arith

-- A number under another tag.
pub encode_ctx_u32-Absent :
    (tag other v : ℕ) (rest : List ℕ)
    → other < 16
    → other ≢ tag
    → Absent tag (encode_ctx_u32 other v ++ rest)
unfolding encode_ctx_u32
encode_ctx_u32-Absent tag other v rest ho differ =
    let (c, t, l) = context_tag_parts other (uint_bytes v).0 ho (omega (arith, uint_bytes-le v)) in
    inl (rw t differ)

module _ (buf : List ℕ) (pos tag : ℕ) where
  has_context_tag_at :
      (v : ℕ) (rest : List ℕ)
      → tag < 16
      → drop pos buf ≡ encode_ctx_u32 tag v ++ rest
      → has_context_tag buf pos tag ≡ true
  unfolding encode_ctx_u32 has_context_tag
  has_context_tag_at v rest ht h =
      let (c, t, l) = context_tag_parts tag (uint_bytes v).0 ht (omega (arith, uint_bytes-le v)) in
      rw
        (
          get_at buf pos h,
          c,
          t,
          l,
          (==_iff tag tag).1 refl,
          lt→ltb (uint_bytes v).0 6 (omega (arith, uint_bytes-le v)),
        )
        refl

  absent_test :
      (b : ℕ)
      → (tag_number b ≢ tag) ⊎ (6 ≤ lvt_of b)
      → (is_context b && (tag_number b == tag && ltb (lvt_of b) 6)) ≡ false
  absent_test b (inl differ) = ground (arith, ==_iff (tag_number b) tag)
  absent_test b (inr large) = ground arith

  has_context_tag-Absent :
      (rest : List ℕ) → drop pos buf ≡ rest → Absent tag rest → has_context_tag buf pos tag ≡ false
  unfolding has_context_tag
  has_context_tag-Absent [] h away = rw (get_past buf pos h) refl
  has_context_tag-Absent (b ∷ bytes) h away = rw (get_at buf pos h) (absent_test b away)

  -- What was written under the tag is read, and what was left out is found to be missing.
  pub decode_optional_at :
      (o : Option ℕ) (rest : List ℕ)
      → tag < 16
      → FitsU32 o
      → Absent tag rest
      → drop pos buf ≡ encode_optional tag o ++ rest
      → decode_optional buf pos tag ≡ ok (o, pos + length (encode_optional tag o))
  unfolding decode_optional encode_optional
  decode_optional_at none rest ht ho away h =
      rw (has_context_tag-Absent rest h away) (ap (λ (n : ℕ). ok (none, n)) (omega arith))
  decode_optional_at (some v) rest ht ho away h =
      rw (has_context_tag_at v rest ht h, decode_ctx_u32_at buf pos tag v rest ht ho h) refl
