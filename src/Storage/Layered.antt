-- ===== src/Storage/Layered.antt =====
-- `LayeredDatabase`: crates/storage/src/layered_db.rs. The persistent database below it is an
-- interface; logs and compaction, which changes no row, are left out.
pub mod Thread
pub mod Refinement
pub mod Durable
use telcoin_network.Base.{
  ℕ, ◌-◌, ◌+◌, leb, if◌then◌else◌, Bool, true, false, Option, none, some, List, [], ◌∷◌, ◌++◌,
  Result, ok, err,
}
use telcoin_network.Base.Map.{Map, insert}
use telcoin_network.Storage.Memory.{StoreType, open_table, insert_row, remove_row, clear_table, get}

-- The trait `Database` as the background thread uses it; an error is `none`. A transaction takes
-- part in the database only when it is committed.
pub record Backend (V : Type 0) : Type 1 where
  pub Db : Type 0
  pub Txn : Type 0
  pub get_row : ℕ → ℕ → Db → Option V
  pub iter : ℕ → Db → Map V
  pub insert_db : ℕ → ℕ → V → Db → Option Db
  pub remove_db : ℕ → ℕ → Db → Option Db
  pub clear_db : ℕ → Db → Option Db
  pub begin : Db → Option Txn
  pub get_txn : ℕ → ℕ → Txn → Option V
  pub insert_txn : ℕ → ℕ → V → Txn → Option Txn
  pub remove_txn : ℕ → ℕ → Txn → Option Txn
  pub clear_txn : ℕ → Txn → Option Txn
  pub commit_txn : Txn → Db → Option Db

-- `enum DBMessage`
pub data DbMessage (V : Type 0) : Type 0 where
  start_txn : DbMessage V
  commit_open : DbMessage V
  insert_message : ℕ → ℕ → V → DbMessage V
  remove_message : ℕ → ℕ → DbMessage V
  clear_message : ℕ → DbMessage V
  shutdown : DbMessage V

unfoldable pub or_keep {ℓ} : {A : Type ℓ} → A → Option A → A
or_keep old none = old
or_keep old (some new) = new

-- The loop of `LayeredDatabase::open_table`
unfoldable pub insert_each : {V : Type 0} → ℕ → Map V → StoreType V → StoreType V
unfolding insert_row
insert_each table [] store = store
insert_each table ((key, value) ∷ rest) store =
    insert_each table rest (insert_row table key value store)

module _ {V : Type 0} (backend : Backend V) where
  -- The variables of `db_run`.
  pub record DbThread : Type 0 where
    pub db : backend.Db
    pub txn : Option (backend.Txn × ℕ)

  unfoldable pub begin_or_log : DbThread → DbThread
  begin_or_log s = elim (backend.begin s.db) [
    | none ↦ s
    | some new_txn ↦ record s { txn = some (new_txn, 1) }
  ]

  -- A write goes to the open transaction, or else to the database.
  unfoldable pub write_through :
      (backend.Txn → Option backend.Txn) → (backend.Db → Option backend.Db) → DbThread → DbThread
  unfolding or_keep
  write_through on_txn on_db s = elim s.txn [
    | some (current, count) ↦ record s { txn = some (or_keep current (on_txn current), count) }
    | none ↦ record s { db = or_keep s.db (on_db s.db) }
  ]

  -- One message of `db_run`.
  unfoldable pub handle : DbThread → DbMessage V → DbThread
  unfolding begin_or_log write_through or_keep
  handle s start_txn = elim s.txn [
    | some (current, count) ↦ record s { txn = some (current, count + 1) }
    | none ↦ begin_or_log s
  ]
  handle s commit_open = elim s.txn [
    | none ↦ s
    | some (current, count) ↦
        if leb count 1
        then record { db = or_keep s.db (backend.commit_txn current s.db); txn = none }
        else record s { txn = some (current, count - 1) }
  ]
  handle s (insert_message table key value) =
      write_through (backend.insert_txn table key value) (backend.insert_db table key value) s
  handle s (remove_message table key) =
      write_through (backend.remove_txn table key) (backend.remove_db table key) s
  handle s (clear_message table) =
      write_through (backend.clear_txn table) (backend.clear_db table) s
  handle s shutdown = s

  -- `db_run` on the messages sent: the thread ends at a shutdown.
  unfoldable pub db_run : DbThread → List (DbMessage V) → DbThread
  db_run s [] = s
  db_run s (shutdown ∷ rest) = s
  db_run s (message ∷ rest) = db_run (handle s message) rest

  -- The database with its channel; `alive` while the thread runs.
  pub record LayeredDatabase : Type 0 where
    pub mem_db : StoreType V
    pub sent : List (DbMessage V)
    pub thread : DbThread
    pub alive : Bool

  -- `LayeredDatabase::open`
  unfoldable pub open_db : backend.Db → LayeredDatabase
  open_db db = record {
    mem_db = [];
    sent = [];
    thread = record { db = db; txn = none };
    alive = true;
  }

  -- `LayeredDatabase::open_table`
  unfoldable pub open_layered : ℕ → LayeredDatabase → LayeredDatabase
  unfolding open_table insert_each
  open_layered table s = record s {
    mem_db = insert_each table (backend.iter table s.thread.db) (open_table table s.mem_db);
  }

  -- `self.tx.send`, which fails once the thread is gone.
  unfoldable pub send :
      DbMessage V → LayeredDatabase → LayeredDatabase × Result (Unit {0}) (Unit {0})
  send message s =
      if s.alive then (record s { sent = s.sent ++ (message ∷ []) }, ok tt) else (s, err tt)

  -- `write_txn`
  unfoldable pub write_txn : LayeredDatabase → LayeredDatabase × Result (Unit {0}) (Unit {0})
  unfolding send
  write_txn s = send start_txn s

  -- `commit` of a transaction
  unfoldable pub commit : LayeredDatabase → LayeredDatabase × Result (Unit {0}) (Unit {0})
  unfolding send
  commit s = send commit_open s

  -- `insert`, `remove` and `clear_table`, of the database and of a transaction.
  unfoldable pub insert_layered :
      ℕ → ℕ → V → LayeredDatabase → LayeredDatabase × Result (Unit {0}) (Unit {0})
  unfolding send insert_row
  insert_layered table key value s =
      send (insert_message table key value)
        (record s { mem_db = insert_row table key value s.mem_db })

  unfoldable pub remove_layered :
      ℕ → ℕ → LayeredDatabase → LayeredDatabase × Result (Unit {0}) (Unit {0})
  unfolding send remove_row
  remove_layered table key s =
      send (remove_message table key) (record s { mem_db = remove_row table key s.mem_db })

  unfoldable pub clear_layered :
      ℕ → LayeredDatabase → LayeredDatabase × Result (Unit {0}) (Unit {0})
  unfolding send clear_table
  clear_layered table s =
      send (clear_message table) (record s { mem_db = clear_table table s.mem_db })

  -- `get`, of the database and of its transactions.
  unfoldable pub get_layered : ℕ → ℕ → LayeredDatabase → Option V
  unfolding get
  get_layered table key s = get table key s.mem_db

  -- The background thread receives a message.
  unfoldable pub receive : LayeredDatabase → LayeredDatabase
  unfolding handle
  receive s = elim s.sent [
    | [] ↦ s
    | message ∷ rest ↦ record s { sent = rest; thread = handle s.thread message }
  ]

  -- The last handle is dropped: a shutdown is sent, and the thread is waited for.
  unfoldable pub drop_last : LayeredDatabase → LayeredDatabase
  unfolding send db_run
  drop_last s =
      let stopping = (send shutdown s).0 in
      record stopping { sent = []; thread = db_run stopping.thread stopping.sent; alive = false }
