-- ===== src/Db.antt =====
-- src/db/db-interface.c: records by number over a Berkeley DB handle.
-- The Berkeley DB calls (`put`, `get`, `del`) are the parameter `Bdb`, with what its manual says of
-- them. Keys are the eight bytes of a record number, and stand here as that number.
pub mod Laws
use libevent_paxos.Base.{
  ℕ, ◌≡◌, ◌≢◌, ◌==◌, Bool, true, false, if◌then◌else◌, take, length, ◌%◌, ◌^◌, Option, none, some,
  List, [], ◌∷◌,
}

-- A Berkeley DB database: its contents, and its calls with their return codes (0 is success).
-- `get` hands back the code and the bytes of the `DBT`.
pub record Bdb : Type 1 where
  pub Store : Type 0
  pub put : Store → ℕ → List ℕ → ℕ × Store
  pub get : Store → ℕ → ℕ × List ℕ
  pub del : Store → ℕ → ℕ × Store
  -- A put that succeeds is seen by `get`, at its key alone; one that fails changes nothing.
  pub get-put : (s : Store) (k : ℕ) (v : List ℕ) → (put s k v).0 ≡ 0 → get (put s k v).1 k ≡ (0, v)
  pub get-put_ne : (s : Store) (k j : ℕ) (v : List ℕ) → k ≢ j → get (put s k v).1 j ≡ get s j
  pub put_failed : (s : Store) (k : ℕ) (v : List ℕ) → (put s k v).0 ≢ 0 → (put s k v).1 ≡ s
  -- A delete removes its key alone, or fails and changes nothing.
  pub get-del : (s : Store) (k : ℕ) → (del s k).0 ≡ 0 → (get (del s k).1 k).0 ≢ 0
  pub get-del_ne : (s : Store) (k j : ℕ) → k ≢ j → get (del s k).1 j ≡ get s j
  pub del_failed : (s : Store) (k : ℕ) → (del s k).0 ≢ 0 → (del s k).1 ≡ s

-- The bytes that a `DBT` stands for, whose `size` is a `u_int32_t`.
abbrev pub dbt_bytes : List ℕ → List ℕ
dbt_bytes value = take (length value % 2 ^ 32) value

-- What is found of them: a record of size 0 leaves the caller's pointer alone.
abbrev pub found_bytes : List ℕ → Option (List ℕ)
found_bytes [] = none
found_bytes (b ∷ bs) = some (b ∷ bs)

-- `db*`: NULL, a `struct db_t` whose `bdb_ptr` is NULL, or an open database.
pub data Db (S : Type 0) : Type 0 where
  no_db : Db S
  no_bdb : Db S
  open_db : S → Db S

module _ (bdb : Bdb) where
  abbrev stored : ℕ × bdb.Store → ℕ × Db bdb.Store
  stored (ret, s) = (ret, open_db s)

  unfoldable pub store_record : Db bdb.Store → ℕ → List ℕ → ℕ × Db bdb.Store
  store_record no_db key value = (1, no_db)
  store_record no_bdb key value = (1, no_bdb)
  store_record (open_db s) key value = stored (bdb.put s key (dbt_bytes value))

  abbrev fetched : ℕ × List ℕ → ℕ × Option (List ℕ)
  fetched (ret, value) = if ret == 0 then (0, found_bytes value) else (ret, none)

  -- The return code, and the buffer assigned to `*data`, if one is assigned.
  unfoldable pub retrieve_record : Db bdb.Store → ℕ → ℕ × Option (List ℕ)
  retrieve_record no_db key = (1, none)
  retrieve_record no_bdb key = (1, none)
  retrieve_record (open_db s) key = fetched (bdb.get s key)

  unfoldable pub delete_record : Db bdb.Store → ℕ → ℕ × Db bdb.Store
  delete_record no_db key = (1, no_db)
  delete_record no_bdb key = (1, no_bdb)
  delete_record (open_db s) key = stored (bdb.del s key)

  unfoldable pub close_db : Db bdb.Store → Db bdb.Store
  close_db db = no_db
