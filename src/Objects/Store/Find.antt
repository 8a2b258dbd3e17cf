-- ===== src/Objects/Store/Find.antt =====
-- What is found in the store of store.rs under an identifier, after an object is put in it.
use bacnet_sim.Prelude.{
  ℕ, zero, suc, ◌%◌, ◌<◌, ◌≡◌, inl, inr, ◌⊎◌, refl, sym, ap, ◌∙◌, false, ◌&&◌, Option, none, some,
  [], ◌∷◌, arith, if◌then◌else◌, ◌==◌, ==_iff, Bool-cases, Option-cases, length, Outcome, ok, err,
  panic, or_panic, replicate,
}
use bacnet_sim.Prelude.Maps.{lookup, insert as insert_entry, lookup-insert}
use bacnet_sim.Types.Error.{BacnetError}
use bacnet_sim.Types.Value.{ObjectId}
use bacnet_sim.Objects.Interface.{BacnetObject}
use bacnet_sim.Objects.Store.{
  num_shards, pair_key, pair_iff, Shard, Store, object_key, modify, shard_at, ObjectRef, shard_key,
  present, get, held, put_back, insert,
}
use bacnet_sim.Objects.Store.Shards.{length-modify}

module _ {O : Type 0} where
  shard_at-modify :
      (store : Store O) (i j : ℕ) (f : Shard O → Shard O)
      → i < length store
      → shard_at (modify store i f) j ≡ (if i == j then f (shard_at store i) else shard_at store j)
  unfolding shard_at modify
  shard_at-modify [] i j f h = absurd (omega arith)
  shard_at-modify (s ∷ store) zero zero f h = refl
  shard_at-modify (s ∷ store) zero (suc j) f h = ground arith
  shard_at-modify (s ∷ store) (suc i) zero f h = ground arith
  shard_at-modify (s ∷ store) (suc i) (suc j) f h =
      shard_at-modify store i j f (omega arith) ∙ ground arith

  pub shard_at-replicate : (n i : ℕ) → shard_at {O = O} (replicate n []) i ≡ []
  unfolding shard_at
  shard_at-replicate zero i = refl
  shard_at-replicate (suc n) zero = refl
  shard_at-replicate (suc n) (suc i) = shard_at-replicate n i

-- The object behind a reference.
abbrev pub behind {ℓ} : {O : Type ℓ} {E : Type 0} → Outcome E O → Option O
behind (ok o) = some o
behind (err e) = none
behind panic = none

module _ {O : Type 0} (object : BacnetObject O) (hash : ℕ → ℕ → ℕ) where
  abbrev pub dereferenced : Store O → Option ObjectRef → Option O
  dereferenced store none = none
  dereferenced store (some ref) = behind (held store ref)

  -- What `get` and the guard of the reference that it returns lead to.
  abbrev pub find : Store O → ℕ → ObjectId → Option O
  find store device oid = dereferenced store (get hash store device oid)

  abbrev pub entry : Store O → ℕ → ℕ → Option O
  entry store device key = lookup (shard_at store (hash device key % num_shards)) (device, key)

  unlike :
      (device other k key : ℕ)
      → ((hash device k % num_shards) == (hash other key % num_shards)) ≡ false
      → ((device == other) && (k == key)) ≡ false
  unlike device other k key e = elim (Bool-cases ((device == other) && (k == key))) [
    | inl t ↦ absurd (
        let equal = (pair_iff (device, k) (other, key)).0 t in
        let again = ap (λ (p : ℕ × ℕ). hash p.0 p.1 % num_shards) equal in
        let same_index =
          (==_iff (hash device k % num_shards) (hash other key % num_shards)).1 again in
        cc)
    | inr t ↦ t
  ]

  pub find-entry :
      (store : Store O) (device : ℕ) (oid : ObjectId)
      → find store device oid ≡ entry store device (object_key oid)
  unfolding get held shard_key
  find-entry store device oid =
      let i = hash device (object_key oid) % num_shards in
      let found = entry store device (object_key oid) in
      elim (Option-cases found) [
        | inl e ↦
            ap (λ (o : Option O). dereferenced store (present i (device, object_key oid) o)) e
            ∙ sym e
        | inr (o, e) ↦
            ap (λ (o : Option O). dereferenced store (present i (device, object_key oid) o)) e
            ∙ ap (λ (o : Option O). behind (or_panic {E = BacnetError} o)) e
            ∙ sym e
      ]

  -- An object put under its device and its key.
  entry-put :
      (store : Store O) (device k other key : ℕ) (o : O)
      → length store ≡ num_shards
      → entry
          (modify store (hash device k % num_shards) λ shard. insert_entry shard (device, k) o)
          other
          key
        ≡ (if (device == other) && (k == key) then some o else entry store other key)
  entry-put store device k other key o full =
      let i = hash device k % num_shards in
      let j = hash other key % num_shards in
      let bound : i < length store = omega arith in
      rw (shard_at-modify store i j (λ shard. insert_entry shard (device, k) o) bound)
        (elim (Bool-cases (i == j)) [
          | inl e ↦
              rw (e, lookup-insert (shard_at store i) (device, k) (other, key) o)
                (let together : i ≡ j = (==_iff i j).0 e in rw together refl)
          | inr e ↦
              let apart : ((device == other) && (k == key)) ≡ false = unlike device other k key e in
              rw (e, apart) refl
        ])

  pub entry-insert :
      (store : Store O) (device other key : ℕ) (o : O)
      → length store ≡ num_shards
      → entry (insert object hash store device o) other key ≡ (
          if (device == other) && (object_key (object.object_id o) == key)
          then some o
          else entry store other key)
  unfolding insert shard_key
  entry-insert store device other key o full =
      entry-put store device (object_key (object.object_id o)) other key o full

  -- The reference to an identifier's object.
  abbrev pub reference : ℕ → ObjectId → ObjectRef
  reference device oid = record {
    shard = hash device (object_key oid) % num_shards;
    key = (device, object_key oid);
  }

  pub find-cases :
      (store : Store O) (device : ℕ) (oid : ObjectId)
      → ((get hash store device oid ≡ none) × (find store device oid ≡ none))
        ⊎ ((o : O) × (get hash store device oid ≡ some (reference device oid))
            × (held store (reference device oid) ≡ ok o)
            × (find store device oid ≡ some o))
  unfolding get held shard_key
  find-cases store device oid =
      let found = entry store device (object_key oid) in
      let i = hash device (object_key oid) % num_shards in
      elim (Option-cases found) [
        | inl e ↦ inl (ap (present i (device, object_key oid)) e, find-entry store device oid ∙ e)
        | inr (o, e) ↦ inr (
          o,
          ap (present i (device, object_key oid)) e,
          ap or_panic e,
          find-entry store device oid ∙ e,
        )
      ]

  pub find-put_back :
      (store : Store O) (device : ℕ) (oid : ObjectId) (o : O) (other : ℕ) (id : ObjectId)
      → length store ≡ num_shards
      → find (put_back store (reference device oid) o) other id ≡ (
          if (device == other) && (object_key oid == object_key id)
          then some o
          else find store other id)
  unfolding put_back
  find-put_back store device oid o other id full =
      find-entry (put_back store (reference device oid) o) other id
      ∙ entry-put store device (object_key oid) other (object_key id) o full
      ∙ rw (find-entry store other id) refl

  pub length-put_back :
      (store : Store O) (ref : ObjectRef) (o : O) → length (put_back store ref o) ≡ length store
  unfolding put_back
  length-put_back store ref o = length-modify store _ _
