-- ===== src/Objects/Store.antt =====
-- crates/bacnet-object/src/store.rs: the objects of all devices, in 256 shards. `hash` stands for
-- the value of `FxHasher` on the two keys. The locks are not modelled: each operation here is one
-- critical section. A shard's index is below the number of shards, so no access to one panics.
pub mod Shards
pub mod Find
pub mod Latest
use Prim.Native.Nat.{bit_or}
use bacnet_sim.Prelude.{
  ℕ, zero, suc, ◌+◌, ◌-◌, ◌*◌, ◌/◌, ◌%◌, ◌^◌, ◌≤◌, ◌<◌, ◌≡◌, ◌≢◌, ◌↔◌, ◌⊎◌, inl, inr, refl, sym, ap,
  ◌∙◌, Bool, true, false, not, ◌&&◌, ◌||◌, Option, none, some, List, [], ◌∷◌, ◌++◌, map, arith,
  if◌then◌else◌, ltb, leb, ◌==◌, ==_iff, lt→ltb, le→ltb, le→leb, Bool-cases, length, get_elem?,
  take, drop, take-append, drop-append, length-append, length-drop, get_at, get_past, get_at_add,
  drop_at_suc, drop_at, drop_at_append, length_at, length_at_append, slice_tail, slice_at, take_all,
  Outcome, ok, err, panic, ◌>>=◌, ◌>>◌, fail_if, ok_or, or_panic, index, slice, shr, low_bits,
  has_bit, as_u8, as_u16, as_u32, be32, be32_bytes, IsU32, append_nil, replicate, set,
}
use mathlib.Core.List.{foldl}
use bacnet_sim.Prelude.Maps.{Map, Key, lookup, insert as insert_entry}
use bacnet_sim.Types.Error.{BacnetError}
use bacnet_sim.Types.ObjectType.{as_u16 as type_code}
use bacnet_sim.Types.PropertyId.{PropertyIdentifier}
use bacnet_sim.Types.Value.{ObjectId, PropertyValue}
use bacnet_sim.Objects.Interface.{BacnetObject, force_write_property}

abbrev pub num_shards : ℕ
num_shards = 256

pub pair_iff : (a b : ℕ × ℕ) → (((a.0 == b.0) && (a.1 == b.1)) ≡ true) ↔ (a ≡ b)
pair_iff a b = ground arith

instance abbrev pub pair_key : Key (ℕ × ℕ)
pair_key = record { same = λ a b. (a.0 == b.0) && (a.1 == b.1); same_iff = pair_iff }

abbrev pub Shard : Type 0 → Type 0
Shard O = Map (ℕ × ℕ) O

abbrev pub Store : Type 0 → Type 0
Store O = List (Shard O)

-- `((object_type as u64) << 22) | instance as u64`
unfoldable pub object_key : ObjectId → ℕ
object_key oid = bit_or (type_code oid.object_type * 2 ^ 22) oid.instance

-- A change of the element at an index.
unfoldable pub modify {ℓ} : {A : Type ℓ} → List A → ℕ → (A → A) → List A
modify [] i f = []
modify (x ∷ xs) zero f = f x ∷ xs
modify (x ∷ xs) (suc i) f = x ∷ modify xs i f

abbrev pub or_empty : {O : Type 0} → Option (Shard O) → Shard O
or_empty (some shard) = shard
or_empty none = []

unfoldable pub shard_at : {O : Type 0} → Store O → ℕ → Shard O
shard_at store i = or_empty (get_elem? store i)

-- The shard's index with the two keys, in the place of the shard itself.
pub record ObjectRef : Type 0 where
  pub shard : ℕ
  pub key : ℕ × ℕ

unfoldable pub new : {O : Type 0} → Store O
new = replicate num_shards []

unfoldable pub count : {O : Type 0} → Store O → ℕ
count [] = 0
count (shard ∷ store) = length shard + count store

unfoldable pub push : {A : Type 0} → A → List A → List A
push item bucket = bucket ++ (item ∷ [])

abbrev pub Item : Type 0 → Type 0
Item O = (ℕ × ℕ) × O

-- The loop over one bucket, under the shard's lock.
unfoldable pub insert_items : {O : Type 0} → List (Item O) → Shard O → Shard O
insert_items [] shard = shard
insert_items ((k, o) ∷ items) shard = insert_items items (insert_entry shard k o)

-- The loop over the buckets; an empty one is skipped.
unfoldable pub insert_buckets : {O : Type 0} → Store O → List (List (Item O)) → Store O
insert_buckets [] buckets = []
insert_buckets (shard ∷ store) [] = shard ∷ store
insert_buckets (shard ∷ store) (bucket ∷ buckets) =
    insert_items bucket shard ∷ insert_buckets store buckets

abbrev pub present : {O : Type 0} → ℕ → ℕ × ℕ → Option O → Option ObjectRef
present i k none = none
present i k (some o) = some (record { shard = i; key = k })

module _ (hash : ℕ → ℕ → ℕ) where
  unfoldable pub shard_key : ℕ → ObjectId → ℕ × (ℕ × ℕ)
  shard_key device oid = (hash device (object_key oid) % num_shards, (device, object_key oid))

  unfoldable pub get : {O : Type 0} → Store O → ℕ → ObjectId → Option ObjectRef
  get store device oid =
      let (i, k) = shard_key device oid in present i k (lookup (shard_at store i) k)

module _ {O : Type 0} where
  -- What a guard dereferences, `self.0[&self.1]`.
  unfoldable pub held : Store O → ObjectRef → Outcome BacnetError O
  held store ref = or_panic (lookup (shard_at store ref.shard) ref.key)

  unfoldable pub put_back : Store O → ObjectRef → O → Store O
  put_back store ref o = modify store ref.shard λ shard. insert_entry shard ref.key o

module _ {O : Type 0} (object : BacnetObject O) where
  unfoldable pub guarded_read :
      Store O → ObjectRef → PropertyIdentifier → Option ℕ → Outcome BacnetError PropertyValue
  guarded_read store ref p i = do o ← held store ref; object.read_property o p i

  unfoldable pub guarded_all :
      Store O → ObjectRef → Outcome BacnetError (List (PropertyIdentifier × PropertyValue))
  guarded_all store ref = do o ← held store ref; ok (object.all_properties o)

  unfoldable pub guarded_write :
      Store O
      → ObjectRef
      → PropertyIdentifier
      → Option ℕ
      → PropertyValue
      → Option ℕ
      → ℕ
      → Outcome BacnetError (Store O)
  guarded_write store ref p i value priority now = do
    o ← held store ref
    written ← object.write_property o p i value priority now
    ok (put_back store ref written)

  -- The store afterwards, and the error if there is one.
  unfoldable pub guarded_force_write :
      Store O
      → ObjectRef
      → PropertyIdentifier
      → PropertyValue
      → ℕ
      → Outcome BacnetError (Store O × Option BacnetError)
  guarded_force_write store ref p value now = do
    o ← held store ref
    (written, result) ← force_write_property object o p value now
    ok (put_back store ref written, result)

  module _ (hash : ℕ → ℕ → ℕ) where
    unfoldable pub insert : Store O → ℕ → O → Store O
    insert store device o =
        let (i, k) = shard_key hash device (object.object_id o) in
        modify store i λ shard. insert_entry shard k o

    -- The first loop: each object into its shard's bucket.
    unfoldable pub bucketed : List (List (Item O)) → List (ℕ × O) → List (List (Item O))
    bucketed buckets [] = buckets
    bucketed buckets ((device, o) ∷ objects) =
        let (i, k) = shard_key hash device (object.object_id o) in
        bucketed (modify buckets i (push (k, o))) objects

    unfoldable pub bulk_insert : Store O → List (ℕ × O) → Store O
    bulk_insert store objects = insert_buckets store (bucketed (replicate num_shards []) objects)
