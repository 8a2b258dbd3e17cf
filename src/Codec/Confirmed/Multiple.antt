-- ===== src/Codec/Confirmed/Multiple.antt =====
-- ReadPropertyMultiple bodies in the layout that confirmed.rs documents, and what is read in them.
use bacnet_sim.Prelude.{
  ℕ, zero, suc, ◌+◌, ◌≤◌, ◌<◌, ◌≡◌, inr, refl, ap, ◌∙◌, false, List, [], ◌∷◌, ◌++◌, arith, leb,
  le→leb, length, drop, length-append, length-drop, get_at, drop_at_suc, drop_at_append, length_at,
  ok,
}
use mathlib.Core.List.{append_assoc}
use bacnet_sim.Types.PropertyId.{to_u32}
use bacnet_sim.Types.Value.{ObjectId}
use bacnet_sim.Encoding.Tags.{
  is_closing, encode_ctx_u32, encode_ctx_object_id, encode_opening_tag, encode_closing_tag,
  uint_bytes,
}
use bacnet_sim.Codec.Optional.{
  encode_optional, Absent, FitsU32, decode_optional_at, encode_ctx_u32-Absent, uint_bytes-le,
}
use bacnet_sim.Encoding.Tags.RoundTrip.{context_tag_parts}
use bacnet_sim.Codec.Identifiers.{
  IsExactId, IsExactProperty, decode_object_id_exact_at, decode_property_id_exact_at,
}
use bacnet_sim.Codec.Confirmed.{Reference, Spec, decode_references, decode_specs, decode_rpm}
use bacnet_sim.Codec.Confirmed.RoundTrip.{is_opening_at, is_closing_at}

-- The properties asked of one object.
abbrev pub references_body : List Reference → List ℕ
references_body [] = []
references_body ((p, i) ∷ refs) =
    encode_ctx_u32 0 (to_u32 p) ++ (encode_optional 1 i ++ references_body refs)

abbrev pub rpm_body : List Spec → List ℕ
rpm_body [] = []
rpm_body ((o, refs) ∷ specs) =
    encode_ctx_object_id 0 o
    ++ (encode_opening_tag 1 ++ (references_body refs ++ (encode_closing_tag 1 ++ rpm_body specs)))

-- Identifiers that the wire carries without loss, and indices that fit 32 bits.
abbrev pub ExactReferences : List Reference → Type 0
ExactReferences [] = Unit
ExactReferences ((p, i) ∷ refs) = IsExactProperty p × FitsU32 i × ExactReferences refs

abbrev pub ExactSpecs : List Spec → Type 0
ExactSpecs [] = Unit
ExactSpecs ((o, refs) ∷ specs) = IsExactId o × ExactReferences refs × ExactSpecs specs

length-references_body : (refs : List Reference) → length refs ≤ length (references_body refs)
unfolding encode_ctx_u32
length-references_body [] = omega arith
length-references_body ((p, i) ∷ refs) = omega (
  arith,
  length-references_body refs,
  length-append (encode_ctx_u32 0 (to_u32 p)) (encode_optional 1 i ++ references_body refs),
  length-append (encode_optional 1 i) (references_body refs),
)

length-rpm_body : (specs : List Spec) → length specs ≤ length (rpm_body specs)
unfolding encode_ctx_object_id encode_opening_tag encode_closing_tag
length-rpm_body [] = omega arith
length-rpm_body ((o, refs) ∷ specs) = omega (
  arith,
  length-rpm_body specs,
  length-append (references_body refs) (encode_closing_tag 1 ++ rpm_body specs),
)

-- Behind a reference comes another one or the end of the list: no array index either way.
list_end-Absent :
    (refs : List Reference) (rest : List ℕ)
    → Absent 1 (references_body refs ++ (encode_closing_tag 1 ++ rest))
unfolding encode_closing_tag
list_end-Absent [] rest = inr (omega arith)
list_end-Absent ((p, i) ∷ refs) rest =
    rw
      (append_assoc (encode_ctx_u32 0 (to_u32 p)) (encode_optional 1 i ++ references_body refs)
        (encode_closing_tag 1 ++ rest))
      (encode_ctx_u32-Absent 1 0 (to_u32 p) _ (omega arith) λ same. cc)

module _ (buf : List ℕ) (pos : ℕ) where
  not_closing_at :
      (v : ℕ) (rest : List ℕ)
      → drop pos buf ≡ encode_ctx_u32 0 v ++ rest
      → is_closing buf pos 1 ≡ false
  unfolding is_closing encode_ctx_u32
  not_closing_at v rest h =
      let (c, t, l) =
        context_tag_parts 0 (uint_bytes v).0 (omega arith) (omega (arith, uint_bytes-le v)) in
      rw (get_at buf pos h, c, t) refl

  inside_at :
      (v : ℕ) (rest : List ℕ)
      → drop pos buf ≡ encode_ctx_u32 0 v ++ rest
      → leb (length buf) pos ≡ false
  unfolding encode_ctx_u32
  inside_at v rest h = ground (arith, length_at buf pos h)

decode_references_at :
    (refs : List Reference) (rounds : ℕ) (buf : List ℕ) (pos : ℕ) (rest : List ℕ)
    → ExactReferences refs
    → length refs < rounds
    → drop pos buf ≡ references_body refs ++ (encode_closing_tag 1 ++ rest)
    → decode_references rounds buf pos ≡ ok (refs, pos + length (references_body refs))
unfolding decode_references
decode_references_at refs zero buf pos rest exact enough h = absurd (omega arith)
decode_references_at [] (suc rounds) buf pos rest exact enough h =
    rw (is_closing_at buf pos 1 rest (omega arith) h) (ap (λ (n : ℕ). ok ([], n)) (omega arith))
decode_references_at ((p, i) ∷ refs) (suc rounds) buf pos rest (named, fits, exact) enough h =
    let number = encode_ctx_u32 0 (to_u32 p) in
    let index_bytes = encode_optional 1 i in
    let behind = references_body refs ++ (encode_closing_tag 1 ++ rest) in
    let here : drop pos buf ≡ number ++ (index_bytes ++ behind) =
      h
      ∙ append_assoc number (index_bytes ++ references_body refs) (encode_closing_tag 1 ++ rest)
      ∙ ap (λ (t : List ℕ). number ++ t)
          (append_assoc index_bytes (references_body refs) (encode_closing_tag 1 ++ rest)) in
    let p1 = pos + length number in
    let p2 = p1 + length index_bytes in
    let at1 = drop_at_append buf pos number _ here in
    let at2 = drop_at_append buf p1 index_bytes behind at1 in
    let inside : leb (length buf) pos ≡ false = inside_at buf pos (to_u32 p) _ here in
    let ends : p2 + length (references_body refs) ≡ pos + length (references_body ((p, i) ∷ refs)) =
      omega (
        arith,
        length-append number (index_bytes ++ references_body refs),
        length-append index_bytes (references_body refs),
      ) in
    rw
      (
        not_closing_at buf pos (to_u32 p) _ here,
        inside,
        decode_property_id_exact_at buf pos 0 p _ (omega arith) named here,
        decode_optional_at buf p1 1 i behind (omega arith) fits (list_end-Absent refs rest) at1,
        decode_references_at refs rounds buf p2 rest exact (omega arith) at2,
        ends,
      )
      refl

module _ (buf : List ℕ) (pos : ℕ) where
  -- Where so many bytes stand, the buffer is so long.
  room_at : (xs rest : List ℕ) → drop pos buf ≡ xs ++ rest → length xs ≤ length buf
  room_at xs rest h = omega (arith, length-drop pos buf, ap length h, length-append xs rest)

  object_inside :
      (oid : ObjectId) (rest : List ℕ)
      → drop pos buf ≡ encode_ctx_object_id 0 oid ++ rest
      → leb (length buf) pos ≡ false
  unfolding encode_ctx_object_id
  object_inside oid rest h = ground (arith, length_at buf pos h)

decode_specs_at :
    (specs : List Spec) (rounds : ℕ) (buf : List ℕ) (pos : ℕ)
    → ExactSpecs specs
    → length specs < rounds
    → drop pos buf ≡ rpm_body specs
    → decode_specs rounds buf pos ≡ ok specs
unfolding decode_specs encode_opening_tag encode_closing_tag
decode_specs_at specs zero buf pos exact enough h = absurd (omega arith)
decode_specs_at [] (suc rounds) buf pos exact enough h =
    rw (le→leb (length buf) pos (omega (arith, length-drop pos buf, ap length h))) refl
decode_specs_at ((o, refs) ∷ specs) (suc rounds) buf pos (known, exact, others) enough h =
    let object = encode_ctx_object_id 0 o in
    let listed = references_body refs in
    let behind = encode_closing_tag 1 ++ rpm_body specs in
    let p1 = pos + length object in
    let p2 = p1 + 1 + length listed in
    let at1 = drop_at_append buf pos object _ h in
    let at_list = drop_at_suc buf p1 at1 in
    let at2 = drop_at_append buf (p1 + 1) listed behind at_list in
    let bounded : length refs < suc (length buf) =
      omega (arith, room_at buf (p1 + 1) listed behind at_list, length-references_body refs) in
    rw
      (
        object_inside buf pos o _ h,
        decode_object_id_exact_at buf pos 0 o _ (omega arith) known h,
        is_opening_at buf p1 1 _ (omega arith) at1,
        decode_references_at refs (suc (length buf)) buf (p1 + 1) (rpm_body specs) exact bounded
            at_list,
        decode_specs_at specs rounds buf (p2 + 1) others (omega arith) (drop_at_suc buf p2 at2),
      )
      refl

-- A ReadPropertyMultiple body for any number of objects, each with any number of properties, with
-- array indices or without them, is decoded to the same objects and properties in the same order,
-- where the wire carries the identifiers without loss.
pub decode_rpm-rpm_body :
    (specs : List Spec) → ExactSpecs specs → decode_rpm (rpm_body specs) ≡ ok specs
unfolding decode_rpm
decode_rpm-rpm_body specs exact =
    decode_specs_at specs (suc (length (rpm_body specs))) (rpm_body specs) 0 exact
      (omega (arith, length-rpm_body specs)) refl
