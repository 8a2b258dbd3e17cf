-- ===== src/Codec/Confirmed/Safety.antt =====
-- The decoder's answer on any buffer.
use bacnet_sim.Prelude.{
  ℕ, zero, suc, ◌+◌, ◌-◌, ◌≤◌, ◌<◌, ◌≡◌, ◌≢◌, refl, ap, ◌∙◌, Bool, true, false, not, some, List, [],
  ◌∷◌, arith, leb, ◌==◌, ==_iff, length, get_elem?, panic,
}
use bacnet_sim.Prelude.Safety.{
  Ensures, returns, fails, Ensures-ne-panic, Ensures-bind, Ensures-fail_if, Ensures-if,
  Ensures-index, Ensures-slice, ltb→le,
}
use bacnet_sim.Types.Error.{decode_error}
use bacnet_sim.Encoding.Tags.{is_opening, is_closing, has_context_tag, holds, peek}
use bacnet_sim.Encoding.Tags.Safety.{
  decode_ctx_u32-Ensures, decode_ctx_property_id-Ensures, decode_ctx_bool-Ensures,
  decode_ctx_object_id-Ensures,
}
use bacnet_sim.Codec.Optional.{decode_optional}
use bacnet_sim.Codec.Confirmed.{
  decode_read_property, decode_references, decode_specs, decode_rpm, decode_confirmed_flag,
  decode_subscribe_cov, decode_service, decode,
}

module _ (body : List ℕ) (pos : ℕ) where
  decode_optional-Ensures :
      (tag : ℕ)
      → pos ≤ length body
      → Ensures (λ r. (pos ≤ r.1) × (r.1 ≤ length body)) (decode_optional body pos tag)
  unfolding decode_optional
  decode_optional-Ensures tag h =
      Ensures-if (has_context_tag body pos tag)
        (λ _.
          Ensures-bind (decode_ctx_u32-Ensures body pos tag) λ r at. returns (omega arith, at.1))
        λ _. returns (omega arith, h)

  decode_confirmed_flag-Ensures :
      pos ≤ length body → Ensures (λ r. r.1 ≤ length body) (decode_confirmed_flag body pos)
  unfolding decode_confirmed_flag
  decode_confirmed_flag-Ensures h =
      Ensures-if (has_context_tag body pos 2)
        (λ _. Ensures-bind (decode_ctx_bool-Ensures body pos 2) λ r at. returns at.1) λ _. returns h

-- A byte that passes a test is there.
holds-lt :
    (buf : List ℕ) (pos : ℕ) (p : ℕ → Bool) → holds (peek buf pos) p ≡ true → pos < length buf
holds-lt [] pos p h = cc
holds-lt (x ∷ xs) zero p h = omega arith
holds-lt (x ∷ xs) (suc pos) p h = omega (arith, holds-lt xs pos p h)

is_opening-lt : (body : List ℕ) (pos tag : ℕ) → is_opening body pos tag ≡ true → pos < length body
unfolding is_opening
is_opening-lt body pos tag h = holds-lt body pos _ h

is_closing-lt : (body : List ℕ) (pos tag : ℕ) → is_closing body pos tag ≡ true → pos < length body
unfolding is_closing
is_closing-lt body pos tag h = holds-lt body pos _ h

-- With a round for every byte left and one more, the loop ends before the rounds do.
decode_references-Ensures :
    (rounds : ℕ) (body : List ℕ) (pos : ℕ)
    → pos ≤ length body
    → length body - pos < rounds
    → Ensures (λ r. (pos ≤ r.1) × (r.1 < length body)) (decode_references rounds body pos)
unfolding decode_references
decode_references-Ensures zero body pos h enough = absurd (omega arith)
decode_references-Ensures (suc rounds) body pos h enough =
    Ensures-if (is_closing body pos 1)
      (λ closed. returns (omega arith, is_closing-lt body pos 1 closed))
      λ _. Ensures-bind (Ensures-fail_if (leb (length body) pos) decode_error) λ _ _.
        Ensures-bind (decode_ctx_property_id-Ensures body pos 0) λ p at.
          Ensures-bind (decode_optional-Ensures body p.1 1 at.1) λ o behind.
            Ensures-bind (decode_references-Ensures rounds body o.1 behind.1 (omega arith))
              λ r done. returns (omega arith, done.1)

not-true : (b : Bool) → not b ≡ false → b ≡ true
not-true true h = refl
not-true false h = cc

decode_specs-Ensures :
    (rounds : ℕ) (body : List ℕ) (pos : ℕ)
    → length body - pos < rounds
    → Ensures (λ _. Unit) (decode_specs rounds body pos)
unfolding decode_specs
decode_specs-Ensures zero body pos enough = absurd (omega arith)
decode_specs-Ensures (suc rounds) body pos enough =
    Ensures-if (leb (length body) pos) (λ _. returns tt)
      λ more. Ensures-bind (decode_ctx_object_id-Ensures body pos 0) λ o at.
        Ensures-bind (Ensures-fail_if (not (is_opening body o.1 1)) decode_error) λ _ opened.
          let inside = is_opening-lt body o.1 1 (not-true _ opened) in
          Ensures-bind
            (decode_references-Ensures (suc (length body)) body (o.1 + 1) (omega arith)
              (omega arith))
            λ r done.
              Ensures-bind (decode_specs-Ensures rounds body (r.1 + 1) (omega arith))
                λ specs _. returns tt

-- The two loops of the ReadPropertyMultiple decoder end on every body: neither uses up its rounds,
-- one more than the bytes of the body, and no read is out of range.
pub decode_rpm-ends : (body : List ℕ) → decode_rpm body ≢ panic
unfolding decode_rpm
decode_rpm-ends body =
    Ensures-ne-panic {P = λ _. Unit} (decode_specs-Ensures (suc (length body)) body 0 (omega arith))

decode_read_property-Ensures : (body : List ℕ) → Ensures (λ _. Unit) (decode_read_property body)
unfolding decode_read_property
decode_read_property-Ensures body = Ensures-bind (decode_ctx_object_id-Ensures body 0 0) λ o at.
    Ensures-bind (decode_ctx_property_id-Ensures body o.1 1)
      λ p behind. Ensures-bind (decode_optional-Ensures body p.1 2 behind.1) λ i _. returns tt

decode_subscribe_cov-Ensures : (body : List ℕ) → Ensures (λ _. Unit) (decode_subscribe_cov body)
unfolding decode_subscribe_cov
decode_subscribe_cov-Ensures body = Ensures-bind (decode_ctx_u32-Ensures body 0 0) λ n at.
    Ensures-bind (decode_ctx_object_id-Ensures body n.1 1) λ o behind.
      Ensures-bind (decode_confirmed_flag-Ensures body o.1 behind.1)
        λ c at_life. Ensures-bind (decode_optional-Ensures body c.1 3 at_life) λ l _. returns tt

module _ (lossy : List ℕ → List ℕ) where
  decode_service-Ensures :
      (choice : ℕ) (body : List ℕ)
      → choice ≢ 15
      → Ensures (λ _. Unit) (decode_service lossy choice body)
  unfolding decode_service decode_rpm
  decode_service-Ensures choice body other =
      Ensures-if (choice == 12)
        (λ _. Ensures-bind (decode_read_property-Ensures body) λ r _. returns tt)
        λ _.
          Ensures-if (choice == 14)
            (λ _.
              Ensures-bind (decode_specs-Ensures (suc (length body)) body 0 (omega arith))
                λ s _. returns tt)
            λ _.
              Ensures-if (choice == 15) (λ is_15. absurd (other ((==_iff choice 15).0 is_15)))
                λ _.
                  Ensures-if (choice == 5)
                    (λ _. Ensures-bind (decode_subscribe_cov-Ensures body) λ r _. returns tt)
                    λ _. fails

  -- A buffer whose fourth byte, the service choice, is not that of WriteProperty is decoded or
  -- refused; the decoder does not panic on it, and its loops end.
  pub decode-ne-panic_confirmed :
      (buf : List ℕ) → get_elem? buf 3 ≢ some 15 → decode lossy buf ≢ panic
  unfolding decode
  decode-ne-panic_confirmed buf other = Ensures-ne-panic {P = λ _. Unit} (
      Ensures-bind (Ensures-fail_if _ _) λ _ long.
        let room = ltb→le (length buf) 4 long in
        Ensures-bind (Ensures-index buf 0 (omega arith)) λ flags _.
          Ensures-bind (Ensures-index buf 2 (omega arith)) λ id _.
            Ensures-bind (Ensures-index buf 3 (omega arith)) λ choice read.
              Ensures-bind (Ensures-slice buf 4 (length buf) room (omega arith)) λ body _.
                Ensures-bind
                  (decode_service-Ensures choice body λ is_15. other (read ∙ ap some is_15))
                  λ s _. returns tt)
