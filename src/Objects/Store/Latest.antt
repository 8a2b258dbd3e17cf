-- ===== src/Objects/Store/Latest.antt =====
-- What is found in the store after insertions: the latest object of the identifier.
use bacnet_sim.Prelude.{
  ℕ, ◌%◌, ◌^◌, ◌<◌, ◌≡◌, refl, ap, ◌∙◌, Bool, true, false, ◌&&◌, Option, none, some, List, [], ◌∷◌,
  arith, if◌then◌else◌, ◌==◌, length, replicate, All, bit_or-add,
}
use bacnet_sim.Prelude.Maps.{lookup}
use bacnet_sim.Types.ObjectType.{as_u16 as type_code}
use bacnet_sim.Types.Value.{ObjectId}
use bacnet_sim.Objects.Interface.{BacnetObject}
use bacnet_sim.Objects.Store.{
  num_shards, pair_key, Shard, Store, object_key, new, insert, bulk_insert,
}
use bacnet_sim.Objects.Store.Shards.{length-modify, insert_each, bulk_insert-each, length-replicate}
use bacnet_sim.Objects.Store.Find.{shard_at-replicate, find, entry, find-entry, entry-insert}

-- The instance fits the 22 bits that the key has for it.
abbrev pub IsInstance : ObjectId → Type 0
IsInstance oid = oid.instance < 2 ^ 22

abbrev pub same_id : ObjectId → ObjectId → Bool
same_id a b = (type_code a.object_type == type_code b.object_type) && (a.instance == b.instance)

object_key-same :
    (a b : ObjectId) → IsInstance a → IsInstance b → (object_key a == object_key b) ≡ same_id a b
unfolding object_key
object_key-same a b ha hb =
    rw
      (
        bit_or-add (type_code a.object_type) 22 a.instance ha,
        bit_or-add (type_code b.object_type) 22 b.instance hb,
      )
      (ground arith)

abbrev pub or_else {ℓ} : {A : Type ℓ} → Option A → Option A → Option A
or_else (some a) o = some a
or_else none o = o

or_else-none : {A : Type 0} (o : Option A) → or_else o none ≡ o
or_else-none none = refl
or_else-none (some a) = refl

or_else_if :
    {A : Type 0} (o : Option A) (b : Bool) (a : A) (last : Option A)
    → or_else o (if b then some a else last) ≡ or_else (or_else o (if b then some a else none)) last
or_else_if (some x) b a last = refl
or_else_if none true a last = refl
or_else_if none false a last = refl

module _ {O : Type 0} (object : BacnetObject O) (hash : ℕ → ℕ → ℕ) where
  -- The last object of the list with the device and the identifier.
  abbrev pub latest : List (ℕ × O) → ℕ → ObjectId → Option O
  latest [] device oid = none
  latest ((d, o) ∷ objects) device oid =
      or_else (latest objects device oid)
        (if (d == device) && same_id (object.object_id o) oid then some o else none)

  full_after :
      (store : Store O) (device : ℕ) (o : O)
      → length store ≡ num_shards
      → length (insert object hash store device o) ≡ num_shards
  unfolding insert
  full_after store device o full = length-modify store _ _ ∙ full

  entry-each :
      (objects : List (ℕ × O)) (store : Store O) (device : ℕ) (oid : ObjectId)
      → length store ≡ num_shards
      → All (λ (d : ℕ × O). IsInstance (object.object_id d.1)) objects
      → IsInstance oid
      → entry object hash (insert_each object hash store objects) device (object_key oid)
        ≡ or_else (latest objects device oid) (entry object hash store device (object_key oid))
  entry-each [] store device oid full small here = refl
  entry-each ((d, o) ∷ objects) store device oid full (fits, small) here =
      let more = insert object hash store d o in
      let next = entry-each objects more device oid (full_after store d o full) small here in
      rw
        (
          next,
          entry-insert object hash store d device (object_key oid) o full,
          object_key-same (object.object_id o) oid fits here,
        )
        (or_else_if (latest objects device oid) _ o
          (entry object hash store device (object_key oid)))

  -- After a bulk insertion into an empty store of objects whose instances fit 22 bits, an identifier
  -- whose instance fits leads to the last object inserted for that device with that type's code and
  -- that instance, and to nothing if there was none, whatever the hash is.
  pub bulk_insert-latest :
      (objects : List (ℕ × O)) (device : ℕ) (oid : ObjectId)
      → All (λ (d : ℕ × O). IsInstance (object.object_id d.1)) objects
      → IsInstance oid
      → find object hash (bulk_insert object hash new objects) device oid
        ≡ latest objects device oid
  unfolding new lookup
  bulk_insert-latest objects device oid small here =
      find-entry object hash (bulk_insert object hash new objects) device oid
      ∙ ap (λ (s : Store O). entry object hash s device (object_key oid))
          (bulk_insert-each object hash (replicate num_shards []) objects
            (length-replicate {A = Shard O} num_shards []))
      ∙ entry-each objects (replicate num_shards []) device oid
          (length-replicate {A = Shard O} num_shards []) small here
      ∙ rw (shard_at-replicate {O = O} num_shards (hash device (object_key oid) % num_shards))
          (or_else-none (latest objects device oid))
