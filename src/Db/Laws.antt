-- ===== src/Db/Laws.antt =====
-- What the callers of the database rely on, from the laws of Berkeley DB.
use libevent_paxos.Base.{
  ℕ, ◌≡◌, ◌≢◌, refl, ap, ◌∙◌, ◌<◌, ◌%◌, ◌^◌, length, take, take-length, List, arith,
}
use libevent_paxos.Db.{
  Bdb, Db, no_db, no_bdb, open_db, store_record, retrieve_record, dbt_bytes, found_bytes,
}

-- A value below 4 GiB is stored whole.
pub dbt_bytes_short : (v : List ℕ) → length v < 2 ^ 32 → dbt_bytes v ≡ v
dbt_bytes_short v short =
    let whole : length v % 2 ^ 32 ≡ length v = omega arith in
    ap (λ n. take n v) whole ∙ take-length v

module _ (bdb : Bdb) where
  -- A stored record is retrieved, as far as the 32-bit size of a value goes.
  pub retrieve-store :
      (db : Db bdb.Store) (k : ℕ) (v : List ℕ)
      → (store_record bdb db k v).0 ≡ 0
      → retrieve_record bdb (store_record bdb db k v).1 k ≡ (0, found_bytes (dbt_bytes v))
  unfolding store_record retrieve_record
  retrieve-store no_db k v h = absurd (omega arith)
  retrieve-store no_bdb k v h = absurd (omega arith)
  retrieve-store (open_db s) k v h = rw (bdb.get-put s k (dbt_bytes v) h) refl

  -- The other records stay as they are, also when the store fails.
  pub retrieve-store_ne :
      (db : Db bdb.Store) (k j : ℕ) (v : List ℕ)
      → k ≢ j
      → retrieve_record bdb (store_record bdb db k v).1 j ≡ retrieve_record bdb db j
  unfolding store_record retrieve_record
  retrieve-store_ne no_db k j v h = refl
  retrieve-store_ne no_bdb k j v h = refl
  retrieve-store_ne (open_db s) k j v h = rw (bdb.get-put_ne s k j (dbt_bytes v) h) refl

  -- A store that fails changes nothing.
  pub store_failed :
      (db : Db bdb.Store) (k : ℕ) (v : List ℕ)
      → (store_record bdb db k v).0 ≢ 0
      → (store_record bdb db k v).1 ≡ db
  unfolding store_record
  store_failed no_db k v h = refl
  store_failed no_bdb k v h = refl
  store_failed (open_db s) k v h = ap open_db (bdb.put_failed s k (dbt_bytes v) h)
