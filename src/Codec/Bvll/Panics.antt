-- ===== src/Codec/Bvll/Panics.antt =====
-- The frames on which the decoder panics.
use bacnet_sim.Prelude.{
  ℕ, ◌-◌, ◌<◌, ◌≡◌, ◌≢◌, ◌↔◌, List, [], ◌∷◌, arith, take, panic, slice_tail, be16,
}
use bacnet_sim.Types.Error.{BacnetError}
use bacnet_sim.Codec.Bvll.{decode, decode_function, decode_forwarded}

-- A buffer of a frame's type whose length field counts less than the four bytes of the header.
abbrev pub HasShortLength : List ℕ → Type 0
HasShortLength (type ∷ function ∷ hi ∷ lo ∷ more) = (type ≡ 0x81) × (be16 hi lo < 4)
HasShortLength _ = ⊥

decode_forwarded-ne-panic : (len : ℕ) (payload : List ℕ) → decode_forwarded len payload ≢ panic
unfolding decode_forwarded
decode_forwarded-ne-panic len (a ∷ b ∷ c ∷ d ∷ e ∷ f ∷ npdu) h =
    ground (arith, slice_tail {E = BacnetError} (a ∷ b ∷ c ∷ d ∷ e ∷ f ∷ npdu) 6 (omega arith))
decode_forwarded-ne-panic len [] h = ground arith
decode_forwarded-ne-panic len (a ∷ []) h = ground arith
decode_forwarded-ne-panic len (a ∷ b ∷ []) h = ground arith
decode_forwarded-ne-panic len (a ∷ b ∷ c ∷ []) h = ground arith
decode_forwarded-ne-panic len (a ∷ b ∷ c ∷ d ∷ []) h = ground arith
decode_forwarded-ne-panic len (a ∷ b ∷ c ∷ d ∷ e ∷ []) h = ground arith

decode_function-ne-panic :
    (function len : ℕ) (payload : List ℕ) → decode_function function len payload ≢ panic
decode_function-ne-panic function len [] h =
    unfold decode_function in ground (arith, decode_forwarded-ne-panic len [])
decode_function-ne-panic function len (a ∷ []) h =
    unfold decode_function in ground (arith, decode_forwarded-ne-panic len (a ∷ []))
decode_function-ne-panic function len (a ∷ b ∷ rest) h =
    unfold decode_function in ground (arith, decode_forwarded-ne-panic len (a ∷ b ∷ rest))

-- The decoder panics exactly on a buffer of four bytes or more that has a frame's type byte and a
-- length field below four.
pub decode-panic_iff : (buf : List ℕ) → (decode buf ≡ panic) ↔ HasShortLength buf
unfolding decode
decode-panic_iff (type ∷ function ∷ hi ∷ lo ∷ more) = (
  λ h. ground (arith, decode_function-ne-panic function (be16 hi lo) (take (be16 hi lo - 4) more)),
  λ h. ground arith,
)
decode-panic_iff [] = ground arith
decode-panic_iff (a ∷ []) = ground arith
decode-panic_iff (a ∷ b ∷ []) = ground arith
decode-panic_iff (a ∷ b ∷ c ∷ []) = ground arith
