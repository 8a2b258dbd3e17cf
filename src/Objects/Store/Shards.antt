-- ===== src/Objects/Store/Shards.antt =====
-- What the store holds, whatever the hash is.
use bacnet_sim.Prelude.{
  ℕ, zero, suc, ◌≡◌, refl, sym, ap, ◌∙◌, List, [], ◌∷◌, arith, length, replicate,
}
use bacnet_sim.Prelude.Maps.{insert as insert_entry}
use bacnet_sim.Objects.Interface.{BacnetObject}
use bacnet_sim.Objects.Store.{
  num_shards, pair_key, Shard, Store, modify, push, Item, insert_items, insert_buckets, shard_key,
  insert, bucketed, bulk_insert,
}

module _ {ℓ} {A : Type ℓ} where
  pub length-modify : (xs : List A) (i : ℕ) (f : A → A) → length (modify xs i f) ≡ length xs
  unfolding modify
  length-modify [] i f = refl
  length-modify (x ∷ xs) zero f = refl
  length-modify (x ∷ xs) (suc i) f = ap suc (length-modify xs i f)

module _ {O : Type 0} where
  insert_items-push :
      (items : List (Item O)) (item : Item O) (shard : Shard O)
      → insert_items (push item items) shard ≡ insert_entry (insert_items items shard) item.0 item.1
  unfolding insert_items push
  insert_items-push [] item shard = refl
  insert_items-push ((k, o) ∷ items) item shard =
      insert_items-push items item (insert_entry shard k o)

  -- An item pushed to a bucket is the last one inserted into its shard.
  insert_buckets-modify :
      (store : Store O) (buckets : List (List (Item O))) (i : ℕ) (item : Item O)
      → length store ≡ length buckets
      → insert_buckets store (modify buckets i (push item))
        ≡ modify (insert_buckets store buckets) i (λ shard. insert_entry shard item.0 item.1)
  unfolding insert_buckets modify
  insert_buckets-modify [] [] i item h = refl
  insert_buckets-modify [] (b ∷ buckets) i item h = absurd (omega arith)
  insert_buckets-modify (s ∷ store) [] i item h = absurd (omega arith)
  insert_buckets-modify (s ∷ store) (b ∷ buckets) zero item h = rw (insert_items-push b item s) refl
  insert_buckets-modify (s ∷ store) (b ∷ buckets) (suc i) item h =
      rw (insert_buckets-modify store buckets i item (omega arith)) refl

  insert_buckets-empty : (store : Store O) (n : ℕ) → insert_buckets store (replicate n []) ≡ store
  unfolding insert_buckets insert_items
  insert_buckets-empty [] n = refl
  insert_buckets-empty (s ∷ store) zero = refl
  insert_buckets-empty (s ∷ store) (suc n) = rw (insert_buckets-empty store n) refl

pub length-replicate : {A : Type 0} (n : ℕ) (a : A) → length (replicate n a) ≡ n
length-replicate zero a = refl
length-replicate (suc n) a = ap suc (length-replicate n a)

module _ {O : Type 0} (object : BacnetObject O) (hash : ℕ → ℕ → ℕ) where
  -- One insertion after the other.
  abbrev pub insert_each : Store O → List (ℕ × O) → Store O
  insert_each store [] = store
  insert_each store ((device, o) ∷ objects) =
      insert_each (insert object hash store device o) objects

  insert_buckets-bucketed :
      (objects : List (ℕ × O)) (store : Store O) (buckets : List (List (Item O)))
      → length store ≡ length buckets
      → insert_buckets store (bucketed object hash buckets objects)
        ≡ insert_each (insert_buckets store buckets) objects
  unfolding bucketed insert
  insert_buckets-bucketed [] store buckets h = refl
  insert_buckets-bucketed ((device, o) ∷ objects) store buckets h =
      let (i, k) = shard_key hash device (object.object_id o) in
      insert_buckets-bucketed objects store (modify buckets i (push (k, o)))
        (h ∙ sym (length-modify buckets i (push (k, o))))
      ∙ ap (λ (s : Store O). insert_each s objects) (insert_buckets-modify store buckets i (k, o) h)

  -- Whatever the hash is, a bulk insertion into a store of 256 shards leaves the same shards, entry
  -- by entry, as inserting the objects one after the other.
  pub bulk_insert-each :
      (store : Store O) (objects : List (ℕ × O))
      → length store ≡ num_shards
      → bulk_insert object hash store objects ≡ insert_each store objects
  unfolding bulk_insert
  bulk_insert-each store objects h =
      insert_buckets-bucketed objects store (replicate num_shards [])
        (h ∙ sym (length-replicate {A = List (Item O)} num_shards []))
      ∙ ap (λ (s : Store O). insert_each s objects) (insert_buckets-empty store num_shards)
