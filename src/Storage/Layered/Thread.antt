-- ===== src/Storage/Layered/Thread.antt =====
-- The background thread: `db_run` of crates/storage/src/layered_db.rs.
use telcoin_network.Base.{
  ℕ, ◌+◌, ◌≤◌, ◌≡◌, ◌&&◌, ◌==◌, if◌then◌else◌, refl, sym, subst, Bool, true, false, Bool-cases,
  Option, none, some, List, [], ◌∷◌, ◌++◌, All, arith, inl, inr, leb,
}
use telcoin_network.Base.Map.{lookup, IsSorted}
use telcoin_network.Storage.Layered.{
  Backend, DbMessage, start_txn, commit_open, insert_message, remove_message, clear_message,
  shutdown, DbThread, handle, begin_or_log, write_through, or_keep, db_run,
}

-- What a message makes of the rows.
abbrev pub after : {V : Type 0} → DbMessage V → (ℕ → ℕ → Option V) → ℕ → ℕ → Option V
after start_txn rows table key = rows table key
after commit_open rows table key = rows table key
after (insert_message at row value) rows table key =
    if (at == table) && (row == key) then some value else rows table key
after (remove_message at row) rows table key =
    if (at == table) && (row == key) then none else rows table key
after (clear_message at) rows table key = if at == table then none else rows table key
after shutdown rows table key = rows table key

-- A result that has the rows.
abbrev pub Gives : {V S : Type 0} → (ℕ → ℕ → S → Option V) → Option S → (ℕ → ℕ → Option V) → Type 0
Gives {S} read result rows =
    (new : S) × (result ≡ some new) × ((table key : ℕ) → read table key new ≡ rows table key)

-- The persistent database does not fail, a write changes the rows that it names, a transaction
-- starts with the rows of the database, and a commit gives the database those of the transaction.
pub record IsReliable {V : Type 0} (b : Backend V) : Type 0 where
  pub iter-sorted : (table : ℕ) (db : b.Db) → IsSorted (b.iter table db)
  pub iter-rows :
      (table key : ℕ) (db : b.Db) → lookup key (b.iter table db) ≡ b.get_row table key db
  pub db-insert :
      (at row : ℕ) (value : V) (db : b.Db)
      → Gives b.get_row
          (b.insert_db at row value db)
          (after (insert_message at row value) (λ t k. b.get_row t k db))
  pub db-remove :
      (at row : ℕ) (db : b.Db)
      → Gives b.get_row
          (b.remove_db at row db)
          (after (remove_message at row) (λ t k. b.get_row t k db))
  pub db-clear :
      (at : ℕ) (db : b.Db)
      → Gives b.get_row (b.clear_db at db) (after (clear_message at) (λ t k. b.get_row t k db))
  pub txn-begin : (db : b.Db) → Gives b.get_txn (b.begin db) (λ t k. b.get_row t k db)
  pub txn-insert :
      (at row : ℕ) (value : V) (x : b.Txn)
      → Gives b.get_txn
          (b.insert_txn at row value x)
          (after (insert_message at row value) (λ t k. b.get_txn t k x))
  pub txn-remove :
      (at row : ℕ) (x : b.Txn)
      → Gives b.get_txn
          (b.remove_txn at row x)
          (after (remove_message at row) (λ t k. b.get_txn t k x))
  pub txn-clear :
      (at : ℕ) (x : b.Txn)
      → Gives b.get_txn (b.clear_txn at x) (after (clear_message at) (λ t k. b.get_txn t k x))
  pub txn-commit :
      (x : b.Txn) (db : b.Db) → Gives b.get_row (b.commit_txn x db) (λ t k. b.get_txn t k x)

module _ {V : Type 0} (b : Backend V) where
  -- The rows as the thread sees them: those of the open transaction, or of the database.
  abbrev pub seen : DbThread b → ℕ → ℕ → Option V
  seen s table key = elim s.txn [
    | none ↦ b.get_row table key s.db
    | some (x, count) ↦ b.get_txn table key x
  ]

  -- The transactions that the open one stands for.
  abbrev pub Counts : Option (b.Txn × ℕ) → ℕ → Type 0
  Counts none n = n ≡ 0
  Counts (some (x, count)) n = (count ≡ n) × (1 ≤ n)

  abbrev pub CountAfter : DbMessage V → ℕ → ℕ → Type 0
  CountAfter start_txn n m = m ≡ n + 1
  CountAfter commit_open n m = n ≡ m + 1
  CountAfter _ n m = m ≡ n

  write_through-seen :
      (on_txn : b.Txn → Option b.Txn) (on_db : b.Db → Option b.Db) (m : DbMessage V)
      → ((x : b.Txn) → Gives b.get_txn (on_txn x) (after m (λ t k. b.get_txn t k x)))
      → ((db : b.Db) → Gives b.get_row (on_db db) (after m (λ t k. b.get_row t k db)))
      → (db : b.Db) (txn : Option (b.Txn × ℕ)) (table key : ℕ)
      → seen (write_through b on_txn on_db (record { db = db; txn = txn })) table key
        ≡ after m (seen (record { db = db; txn = txn })) table key
  unfolding write_through or_keep
  write_through-seen on_txn on_db m h g db none table key =
      let (new, e, r) = g db in rw e (r table key)
  write_through-seen on_txn on_db m h g db (some (x, count)) table key =
      let (new, e, r) = h x in rw e (r table key)

  write_through-Counts :
      (on_txn : b.Txn → Option b.Txn) (on_db : b.Db → Option b.Db) (db : b.Db)
      (txn : Option (b.Txn × ℕ)) (n : ℕ)
      → Counts txn n
      → Counts (write_through b on_txn on_db (record { db = db; txn = txn })).txn n
  unfolding write_through
  write_through-Counts on_txn on_db db none n h = h
  write_through-Counts on_txn on_db db (some (x, count)) n h = h

  -- A message changes the rows that the thread sees as it says.
  pub handle-seen :
      IsReliable b
      → (db : b.Db) (txn : Option (b.Txn × ℕ)) (m : DbMessage V) (table key : ℕ)
      → seen (handle b (record { db = db; txn = txn }) m) table key
        ≡ after m (seen (record { db = db; txn = txn })) table key
  unfolding handle begin_or_log or_keep
  handle-seen ok db none start_txn table key =
      let (new, e, r) = ok.txn-begin db in rw (seen, e) (r table key)
  handle-seen ok db (some (x, count)) start_txn table key = refl
  handle-seen ok db none commit_open table key = refl
  handle-seen ok db (some (x, count)) commit_open table key = elim (Bool-cases (leb count 1)) [
    | inl e ↦ let (new, done, r) = ok.txn-commit x db in rw (e, done) (r table key)
    | inr e ↦ rw e refl
  ]
  handle-seen ok db txn (insert_message at row value) table key =
      write_through-seen _ _ (insert_message at row value) (ok.txn-insert at row value)
        (ok.db-insert at row value) db txn table key
  handle-seen ok db txn (remove_message at row) table key =
      write_through-seen _ _ (remove_message at row) (ok.txn-remove at row) (ok.db-remove at row) db
        txn table key
  handle-seen ok db txn (clear_message at) table key =
      write_through-seen _ _ (clear_message at) (ok.txn-clear at) (ok.db-clear at) db txn table key
  handle-seen ok db txn shutdown table key = refl

  pub handle-Counts :
      IsReliable b
      → (db : b.Db) (txn : Option (b.Txn × ℕ)) (m : DbMessage V) (n n' : ℕ) → CountAfter m n n'
      → Counts txn n
      → Counts (handle b (record { db = db; txn = txn }) m).txn n'
  unfolding handle begin_or_log or_keep
  handle-Counts ok db none start_txn n n' c h =
      let (new, e, r) = ok.txn-begin db in rw (Counts, e) (omega (arith, c, h), omega (arith, c, h))
  handle-Counts ok db (some (x, count)) start_txn n n' c h =
      (omega (arith, c, h.0), omega (arith, c, h.0))
  handle-Counts ok db none commit_open n n' c h = absurd (omega (arith, c, h))
  handle-Counts ok db (some (x, count)) commit_open n n' c h = ground arith
  handle-Counts ok db txn (insert_message at row value) n n' c h =
      subst (Counts _) (sym c)
        (write_through-Counts (b.insert_txn at row value) (b.insert_db at row value) db txn n h)
  handle-Counts ok db txn (remove_message at row) n n' c h =
      subst (Counts _) (sym c)
        (write_through-Counts (b.remove_txn at row) (b.remove_db at row) db txn n h)
  handle-Counts ok db txn (clear_message at) n n' c h =
      subst (Counts _) (sym c) (write_through-Counts (b.clear_txn at) (b.clear_db at) db txn n h)
  handle-Counts ok db txn shutdown n n' c h = subst (Counts _) (sym c) h

pub after-ap :
    {V : Type 0} (m : DbMessage V) (f g : ℕ → ℕ → Option V) (table key : ℕ)
    → f table key ≡ g table key
    → after m f table key ≡ after m g table key
after-ap start_txn f g table key e = e
after-ap commit_open f g table key e = e
after-ap (insert_message at row value) f g table key e = rw e refl
after-ap (remove_message at row) f g table key e = rw e refl
after-ap (clear_message at) f g table key e = rw e refl
after-ap shutdown f g table key e = e

-- Not a shutdown.
abbrev pub is_lasting : {V : Type 0} → DbMessage V → Bool
is_lasting shutdown = false
is_lasting _ = true

abbrev pub Lasting : {V : Type 0} → DbMessage V → Type 0
Lasting m = is_lasting m ≡ true

module _ {V : Type 0} (b : Backend V) where
  db_run-one : (s : DbThread b) (m : DbMessage V) → db_run b s (m ∷ []) ≡ handle b s m
  unfolding db_run handle
  db_run-one s start_txn = refl
  db_run-one s commit_open = refl
  db_run-one s (insert_message at row value) = refl
  db_run-one s (remove_message at row) = refl
  db_run-one s (clear_message at) = refl
  db_run-one s shutdown = refl

  pub db_run-next :
      (s : DbThread b) (m : DbMessage V) (rest : List (DbMessage V))
      → Lasting m
      → db_run b s (m ∷ rest) ≡ db_run b (handle b s m) rest
  unfolding db_run
  db_run-next s start_txn rest h = refl
  db_run-next s commit_open rest h = refl
  db_run-next s (insert_message at row value) rest h = refl
  db_run-next s (remove_message at row) rest h = refl
  db_run-next s (clear_message at) rest h = refl
  db_run-next s shutdown rest h = cc

  pub db_run-append :
      (s : DbThread b) (sent : List (DbMessage V)) (m : DbMessage V)
      → All Lasting sent
      → db_run b s (sent ++ (m ∷ [])) ≡ handle b (db_run b s sent) m
  unfolding db_run
  db_run-append s [] m h = db_run-one s m
  db_run-append s (x ∷ sent) m h =
      rw (db_run-next s x (sent ++ (m ∷ [])) h.0, db_run-next s x sent h.0)
        (db_run-append (handle b s x) sent m h.1)
