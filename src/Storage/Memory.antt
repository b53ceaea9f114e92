-- ===== src/Storage/Memory.antt =====
-- `MemDatabase`: crates/storage/src/mem_db.rs. Tables and keys are numbers, and a value stands for
-- its encoding.
use telcoin_network.Base.{
  ℕ, ◌≡◌, Bool, true, false, if◌then◌else◌, ◌==◌, ◌&&◌, ◌||◌, Option, none, some, Option-cases, [],
  arith, is_empty, inl, inr,
}
use telcoin_network.Base.Map.{
  Map, lookup, insert, remove, contains_key, lookup-insert, lookup-remove,
}

-- `StoreType`: the tables that have been opened.
abbrev pub StoreType {ℓ} : Type ℓ → Type ℓ
StoreType V = Map (Map V)

module _ {ℓ} {V : Type ℓ} where
  -- `MemDatabase::open_table`
  unfoldable pub open_table : ℕ → StoreType V → StoreType V
  open_table table store = insert table [] store

  -- The function `get`, that the database and its transactions share.
  unfoldable pub get : ℕ → ℕ → StoreType V → Option V
  get table key store = elim (lookup table store) [ none ↦ none | some rows ↦ lookup key rows ]

  -- `insert`, of the database and of a transaction: nothing happens without the table.
  unfoldable pub insert_row : ℕ → ℕ → V → StoreType V → StoreType V
  insert_row table key value store = elim (lookup table store) [
    | none ↦ store
    | some rows ↦ insert table (insert key value rows) store
  ]

  -- `remove`
  unfoldable pub remove_row : ℕ → ℕ → StoreType V → StoreType V
  remove_row table key store = elim (lookup table store) [
    | none ↦ store
    | some rows ↦ insert table (remove key rows) store
  ]

  -- `clear_table`
  unfoldable pub clear_table : ℕ → StoreType V → StoreType V
  clear_table table store = elim (lookup table store) [
    | none ↦ store
    | some rows ↦ insert table [] store
  ]

  -- `is_empty`: false without the table.
  unfoldable pub is_empty_table : ℕ → StoreType V → Bool
  is_empty_table table store = elim (lookup table store) [
    | none ↦ false
    | some rows ↦ is_empty rows
  ]

  -- The table has been opened.
  abbrev pub is_open : ℕ → StoreType V → Bool
  is_open table store = contains_key table store

  pub get-open :
      (opened table key : ℕ) (store : StoreType V)
      → get table key (open_table opened store)
        ≡ (if opened == table then none else get table key store)
  unfolding get open_table lookup
  get-open opened table key store = ground (arith, lookup-insert opened table [] store)

  pub get-insert :
      (at row table key : ℕ) (value : V) (store : StoreType V)
      → is_open at store ≡ true
      → get table key (insert_row at row value store)
        ≡ (if (at == table) && (row == key) then some value else get table key store)
  unfolding get insert_row
  get-insert at row table key value store opened = elim (Option-cases (lookup at store)) [
    | inl e ↦ ground arith
    | inr (rows, e) ↦ ground (
      arith,
      lookup-insert at table (insert row value rows) store,
      lookup-insert row key value rows,
    )
  ]

  pub get-remove :
      (at row table key : ℕ) (store : StoreType V)
      → is_open at store ≡ true
      → get table key (remove_row at row store)
        ≡ (if (at == table) && (row == key) then none else get table key store)
  unfolding get remove_row
  get-remove at row table key store opened = elim (Option-cases (lookup at store)) [
    | inl e ↦ ground arith
    | inr (rows, e) ↦
        ground (arith, lookup-insert at table (remove row rows) store, lookup-remove row key rows)
  ]

  pub get-clear :
      (at table key : ℕ) (store : StoreType V)
      → is_open at store ≡ true
      → get table key (clear_table at store) ≡ (if at == table then none else get table key store)
  unfolding get clear_table lookup
  get-clear at table key store opened = elim (Option-cases (lookup at store)) [
    | inl e ↦ ground arith
    | inr (rows, e) ↦ ground (arith, lookup-insert at table [] store)
  ]

  pub is_open-open :
      (opened table : ℕ) (store : StoreType V)
      → is_open table (open_table opened store) ≡ (opened == table) || is_open table store
  unfolding open_table
  is_open-open opened table store = ground (arith, lookup-insert opened table [] store)

  pub is_open-insert :
      (at row table : ℕ) (value : V) (store : StoreType V)
      → is_open table (insert_row at row value store) ≡ is_open table store
  unfolding insert_row
  is_open-insert at row table value store = elim (Option-cases (lookup at store)) [
    | inl e ↦ ground arith
    | inr (rows, e) ↦ ground (arith, lookup-insert at table (insert row value rows) store)
  ]

  pub is_open-remove :
      (at row table : ℕ) (store : StoreType V)
      → is_open table (remove_row at row store) ≡ is_open table store
  unfolding remove_row
  is_open-remove at row table store = elim (Option-cases (lookup at store)) [
    | inl e ↦ ground arith
    | inr (rows, e) ↦ ground (arith, lookup-insert at table (remove row rows) store)
  ]

  pub is_open-clear :
      (at table : ℕ) (store : StoreType V)
      → is_open table (clear_table at store) ≡ is_open table store
  unfolding clear_table
  is_open-clear at table store = elim (Option-cases (lookup at store)) [
    | inl e ↦ ground arith
    | inr (rows, e) ↦ ground (arith, lookup-insert at table [] store)
  ]
