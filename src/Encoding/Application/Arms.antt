-- ===== src/Encoding/Application/Arms.antt =====
-- Each arm of the value decoder on the bytes that the encoder writes for it.
use mathlib.Core.List.{foldl}
use bacnet_sim.Prelude.{
  ℕ, suc, ◌+◌, ◌/◌, ◌%◌, ◌^◌, ◌≤◌, ◌<◌, ◌≡◌, ◌≢◌, refl, ap, ◌∙◌, Bool, false, List, [], ◌∷◌, ◌++◌,
  arith, length, drop, length_at_append, slice_at, drop_at, drop_at_suc, get_at, get_at_add,
  length_at, le→ltb, ok, as_u8, suc-==-zero, be32_bytes, be64_bytes, IsU32, IsU64,
}
use bacnet_sim.Types.Error.{BacnetError}
use bacnet_sim.Types.Value.{ObjectId, Weekday, weekday_number}
use bacnet_sim.Encoding.Tags.{
  Read, peek, tag_number, is_context, lvt_of, decode_lvt_len, read_uint, shift_in, be32_at,
  object_id_of_raw, object_id_raw,
}
use bacnet_sim.Encoding.Tags.RoundTrip.{
  read_uint_at, be32_at_lem, be32-be32_bytes, decode_lvt_len_small, object_id_raw-IsU32,
}
use bacnet_sim.Encoding.BitStrings.{bits_of_data}
use bacnet_sim.Encoding.Asn1
use bacnet_sim.Encoding.Tags
use bacnet_sim.Encoding.Asn1.{
  tag_byte, encode_application_unsigned, encode_application_real, encode_application_object_id,
  encode_application_date, encode_application_bitstring,
}
use bacnet_sim.Encoding.Application.{
  decode_uint, decode_integer, decode_real, decode_double, decode_octets, decode_bits, decode_date,
  decode_time, decode_object_id, decode_text, weekday_or_sunday,
}

pub pair_eq : {a b : ℕ} {m n : ℕ} → a ≡ b → m ≡ n → (let r : Read ℕ = ok (a, m) in r) ≡ ok (b, n)
pair_eq p q = λ i. ok (p i, q i)

-- The two copies of `uint_bytes`, in tags.rs and in asn1.rs, agree.
pub uint_bytes_agree : (v : ℕ) → IsU32 v → Asn1.uint_bytes v ≡ Tags.uint_bytes v
unfolding Asn1.uint_bytes Tags.uint_bytes
uint_bytes_agree v h = ground arith

module _ (buf : List ℕ) (pos : ℕ) where
  pub decode_lvt_len_five :
      (len : ℕ) (rest : List ℕ)
      → drop pos buf ≡ len ∷ rest
      → decode_lvt_len buf pos 5 ≡ ok (len, pos + 1)
  unfolding decode_lvt_len
  decode_lvt_len_five len rest h = rw (get_at buf pos h)

  -- A length below 256 in its own byte.
  pub decode_lvt_len_byte :
      (x n : ℕ) (rest : List ℕ)
      → x ≡ n
      → n < 256
      → drop pos buf ≡ as_u8 x ∷ rest
      → decode_lvt_len buf pos 5 ≡ ok (n, pos + 1)
  decode_lvt_len_byte x n rest e p h =
      decode_lvt_len_five (as_u8 x) rest h ∙ ap (λ (k : ℕ). ok (k, pos + 1)) (omega arith)

  pub decode_uint_at :
      (lvt : ℕ) (xs rest : List ℕ)
      → 1 ≤ length xs
      → length xs ≤ 4
      → lvt ≡ length xs
      → drop pos buf ≡ xs ++ rest
      → decode_uint buf pos lvt ≡ ok (foldl shift_in 0 xs, pos + length xs)
  unfolding decode_uint
  decode_uint_at lvt xs rest lo hi e h =
      rw (e, decode_lvt_len_small buf pos (length xs) (omega arith))
        (read_uint_at buf pos xs rest lo h)

  pub decode_real_at :
      (x : ℕ) (rest : List ℕ)
      → IsU32 x
      → drop pos buf ≡ be32_bytes x rest
      → decode_real buf pos 4 ≡ ok (x, pos + 4)
  unfolding decode_real
  decode_real_at x rest hx h = rw (
    decode_lvt_len_small buf pos 4 (omega arith),
    le→ltb (length buf) (pos + 4) (omega (arith, length_at buf pos h)),
    be32_at_lem buf pos _ _ _ _ rest h,
    be32-be32_bytes x hx,
  )

  pub decode_integer_at :
      (x : ℕ) (rest : List ℕ)
      → IsU32 x
      → drop pos buf ≡ be32_bytes x rest
      → decode_integer buf pos 4 ≡ ok (x, pos + 4)
  unfolding decode_integer
  decode_integer_at x rest hx h =
      rw
        (
          decode_lvt_len_small buf pos 4 (omega arith),
          le→ltb (length buf) (pos + 4) (omega (arith, length_at buf pos h)),
          slice_at {E = BacnetError} buf pos (be32_bytes x []) rest
              (omega (arith, length_at buf pos h)) h,
        )
        (ap (λ (v : ℕ). ok (v, pos + 4)) (omega arith))

  pub decode_double_at :
      (x : ℕ) (rest : List ℕ)
      → IsU64 x
      → drop pos buf ≡ 8 ∷ be64_bytes x rest
      → decode_double buf pos 5 ≡ ok (x, pos + 9)
  unfolding decode_double
  decode_double_at x rest hx h =
      let h1 = drop_at_suc buf pos h in
      rw
        (
          decode_lvt_len_five 8 _ h,
          le→ltb (length buf) (pos + 1 + 8) (omega (arith, length_at buf pos h)),
          be32_at_lem buf (pos + 1) _ _ _ _ _ h1,
          be32_at_lem buf (pos + 1 + 4) _ _ _ _ rest (drop_at buf (pos + 1) 4 h1),
          be32-be32_bytes (x / 2 ^ 32) (omega arith),
          be32-be32_bytes (x % 2 ^ 32) (omega arith),
        )
        (pair_eq (omega arith) (omega arith))

  pub decode_octets_at :
      (lvt start : ℕ) (xs rest : List ℕ)
      → decode_lvt_len buf pos lvt ≡ ok (length xs, start)
      → start + length xs ≤ length buf
      → drop start buf ≡ xs ++ rest
      → decode_octets buf pos lvt ≡ ok (xs, start + length xs)
  unfolding decode_octets
  decode_octets_at lvt start xs rest e p h =
      rw (e, le→ltb _ _ p, slice_at {E = BacnetError} buf start xs rest p h)

  pub decode_bits_at :
      (lvt start unused : ℕ) (bits : List Bool) (bytes rest : List ℕ)
      → decode_lvt_len buf pos lvt ≡ ok (suc (length bytes), start)
      → drop start buf ≡ unused ∷ (bytes ++ rest)
      → bits_of_data bytes unused ≡ ok bits
      → decode_bits buf pos lvt ≡ ok (bits, start + suc (length bytes))
  unfolding decode_bits
  decode_bits_at lvt start unused bits bytes rest e h b =
      let p = length_at_append buf start (unused ∷ bytes) rest (omega arith) h in
      rw (
        e,
        suc-==-zero (length bytes),
        le→ltb _ _ p,
        get_at buf start h,
        step,
        slice_at {E = BacnetError} buf (start + 1) bytes rest (omega (arith, p))
            (drop_at_suc buf start h),
        b,
      )
    where
      step : start + suc (length bytes) ≡ start + 1 + length bytes
      step = omega arith

  pub decode_date_at :
      (y m d w : ℕ) (rest : List ℕ)
      → drop pos buf ≡ y ∷ m ∷ d ∷ w ∷ rest
      → decode_date buf pos 4
        ≡ ok
            (record { year = y + 1900; month = m; day = d; weekday = weekday_or_sunday w }, pos + 4)
  unfolding decode_date
  decode_date_at y m d w rest h = rw (
    decode_lvt_len_small buf pos 4 (omega arith),
    le→ltb (length buf) (pos + 4) (omega (arith, length_at buf pos h)),
    get_at buf pos h,
    get_at_add buf pos 1 h,
    get_at_add buf pos 2 h,
    get_at_add buf pos 3 h,
  )

  pub decode_time_at :
      (h m s c : ℕ) (rest : List ℕ)
      → drop pos buf ≡ h ∷ m ∷ s ∷ c ∷ rest
      → decode_time buf pos 4
        ≡ ok (record { hour = h; minute = m; second = s; hundredths = c }, pos + 4)
  unfolding decode_time
  decode_time_at h m s c rest e = rw (
    decode_lvt_len_small buf pos 4 (omega arith),
    le→ltb (length buf) (pos + 4) (omega (arith, length_at buf pos e)),
    get_at buf pos e,
    get_at_add buf pos 1 e,
    get_at_add buf pos 2 e,
    get_at_add buf pos 3 e,
  )

  pub decode_object_id_at :
      (oid : ObjectId) (rest : List ℕ)
      → drop pos buf ≡ be32_bytes (object_id_raw oid) rest
      → decode_object_id buf pos 4 ≡ ok (object_id_of_raw (object_id_raw oid), pos + 4)
  unfolding decode_object_id
  decode_object_id_at oid rest h = rw (
    decode_lvt_len_small buf pos 4 (omega arith),
    le→ltb (length buf) (pos + 4) (omega (arith, length_at buf pos h)),
    be32_at_lem buf pos _ _ _ _ rest h,
    be32-be32_bytes (object_id_raw oid) (object_id_raw-IsU32 oid),
  )

  pub decode_text_at :
      (lossy : List ℕ → List ℕ) (start : ℕ) (s rest : List ℕ)
      → decode_lvt_len buf pos 5 ≡ ok (suc (length s), start)
      → drop start buf ≡ 0 ∷ (s ++ rest)
      → lossy s ≡ s
      → decode_text lossy buf pos 5 ≡ ok (s, start + suc (length s))
  unfolding decode_text
  decode_text_at lossy start s rest e h l =
      let p = length_at_append buf start (0 ∷ s) rest (omega arith) h in
      rw (
        e,
        suc-==-zero (length s),
        le→ltb _ _ p,
        get_at buf start h,
        step,
        slice_at {E = BacnetError} buf (start + 1) s rest (omega (arith, p))
            (drop_at_suc buf start h),
        l,
      )
    where
      step : start + suc (length s) ≡ start + 1 + length s
      step = omega arith

-- The tag byte that the application encoders write, taken apart.
pub tag_byte_parts :
    (tag len : ℕ)
    → tag < 16
    → len < 8
    → (is_context (tag_byte tag len) ≡ false)
      × (tag_number (tag_byte tag len) ≡ tag)
      × (lvt_of (tag_byte tag len) ≡ len)
tag_byte_parts tag len ht hl = ground arith

pub weekday_or_sunday-weekday_number :
    (w : Weekday) → w ≢ Weekday.unspecified → weekday_or_sunday (weekday_number w) ≡ w
unfolding weekday_or_sunday weekday_number
weekday_or_sunday-weekday_number Weekday.unspecified h = absurd (h refl)
weekday_or_sunday-weekday_number _ h = refl
