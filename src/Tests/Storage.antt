-- ===== src/Tests/Storage.antt =====
-- Tests of the layered database, over a persistent database in memory.
use telcoin_network.Base.{
  ℕ, zero, suc, ◌+◌, ◌<◌, take, ◌≡◌, refl, ◌==◌, not, if◌then◌else◌, true, Option, some, List, [],
  ◌∷◌, Bool-cases, arith, inl, inr,
}
use telcoin_network.Base.Map.{
  Map, lookup, insert, retain, lookup_or, IsSorted, lookup-insert, lookup-retain, insert-IsSorted,
  retain-IsSorted,
}
use telcoin_network.Storage.Memory.{get, open_table, insert_row, is_open}
use telcoin_network.Storage.Layered.{
  Backend, DbMessage, start_txn, insert_message, remove_message, clear_message, commit_open,
  LayeredDatabase, handle, begin_or_log, write_through, or_keep, db_run, send, write_txn, commit,
  insert_layered, get_layered, open_db, open_layered, insert_each, receive, drop_last,
}
use telcoin_network.Storage.Layered.Thread.{after, IsReliable, seen}
use telcoin_network.Storage.Layered.Refinement.{
  Serves, opens, opens_table, begins, commits, inserts, receives,
}
use telcoin_network.Storage.Layered.Durable.{
  get_layered-seen, drop_last-persists, db_run-holds_back, commits_in, starts_in,
}

abbrev rows_of : ℕ → Map (Map ℕ) → Map ℕ
rows_of table m = lookup_or table [] m

-- Tables with increasing keys.
abbrev Disk : Type 0
Disk = (m : Map (Map ℕ)) × ((table : ℕ) → IsSorted (rows_of table m))

abbrev read_disk : ℕ → ℕ → Disk → Option ℕ
read_disk table key d = lookup key (rows_of table d.0)

rows_of-insert :
    (at table : ℕ) (rows : Map ℕ) (m : Map (Map ℕ))
    → rows_of table (insert at rows m) ≡ (if at == table then rows else rows_of table m)
rows_of-insert at table rows m = ground (arith, lookup-insert at table rows m)

-- A table is replaced.
abbrev put : ℕ → (rows : Map ℕ) → IsSorted rows → Disk → Disk
put at rows sorted d = (
  insert at rows d.0,
  λ table. elim (Bool-cases (at == table)) [
    | inl e ↦ rw (rows_of-insert at table rows d.0, e) sorted
    | inr e ↦ rw (rows_of-insert at table rows d.0, e) (d.1 table)
  ],
)

abbrev insert_disk : ℕ → ℕ → ℕ → Disk → Disk
insert_disk at row value d =
    put at (insert row value (rows_of at d.0)) (insert-IsSorted row value _ (d.1 at)) d

abbrev remove_disk : ℕ → ℕ → Disk → Disk
remove_disk at row d =
    put at (retain (λ k. not (row == k)) (rows_of at d.0)) (retain-IsSorted _ _ (d.1 at)) d

abbrev clear_disk : ℕ → Disk → Disk
clear_disk at d = put at [] tt d

abbrev on_disk : Backend ℕ
on_disk = record {
  Db = Disk;
  Txn = Disk;
  get_row = read_disk;
  iter = λ table d. rows_of table d.0;
  insert_db = λ at row value d. some (insert_disk at row value d);
  remove_db = λ at row d. some (remove_disk at row d);
  clear_db = λ at d. some (clear_disk at d);
  begin = λ d. some d;
  get_txn = read_disk;
  insert_txn = λ at row value d. some (insert_disk at row value d);
  remove_txn = λ at row d. some (remove_disk at row d);
  clear_txn = λ at d. some (clear_disk at d);
  commit_txn = λ x d. some x;
}

read-insert :
    (at row value : ℕ) (d : Disk) (table key : ℕ)
    → read_disk table key (insert_disk at row value d)
      ≡ after (insert_message at row value) (λ t k. read_disk t k d) table key
read-insert at row value d table key = ground (
  arith,
  rows_of-insert at table (insert row value (rows_of at d.0)) d.0,
  lookup-insert row key value (rows_of at d.0),
)

read-remove :
    (at row : ℕ) (d : Disk) (table key : ℕ)
    → read_disk table key (remove_disk at row d)
      ≡ after (remove_message at row) (λ t k. read_disk t k d) table key
read-remove at row d table key = ground (
  arith,
  rows_of-insert at table (retain (λ k. not (row == k)) (rows_of at d.0)) d.0,
  lookup-retain (λ k. not (row == k)) key (rows_of at d.0),
)

read-clear :
    (at : ℕ) (d : Disk) (table key : ℕ)
    → read_disk table key (clear_disk at d)
      ≡ after (clear_message at) (λ t k. read_disk t k d) table key
unfolding lookup
read-clear at d table key = ground (arith, rows_of-insert at table [] d.0)

on_disk-IsReliable : IsReliable on_disk
on_disk-IsReliable = record {
  iter-sorted = λ table d. d.1 table;
  iter-rows = λ table key d. refl;
  db-insert = λ at row value d. (insert_disk at row value d, refl, read-insert at row value d);
  db-remove = λ at row d. (remove_disk at row d, refl, read-remove at row d);
  db-clear = λ at d. (clear_disk at d, refl, read-clear at d);
  txn-begin = λ d. (d, refl, λ t k. refl);
  txn-insert = λ at row value d. (insert_disk at row value d, refl, read-insert at row value d);
  txn-remove = λ at row d. (remove_disk at row d, refl, read-remove at row d);
  txn-clear = λ at d. (clear_disk at d, refl, read-clear at d);
  txn-commit = λ x d. (x, refl, λ t k. refl);
}

empty-IsSorted : (table : ℕ) → IsSorted (rows_of table [])
unfolding lookup
empty-IsSorted table = tt

-- The disk holds a row of table 1; a transaction writes another one.
abbrev disk : Disk
disk = insert_disk 1 5 50 ([], empty-IsSorted)

abbrev opened : LayeredDatabase on_disk
opened = open_layered on_disk 1 (open_db on_disk disk)

abbrev begun : LayeredDatabase on_disk
begun = receive on_disk (write_txn on_disk opened).0

abbrev wrote : LayeredDatabase on_disk
wrote = (insert_layered on_disk 1 6 60 begun).0

abbrev committed : LayeredDatabase on_disk
committed = (commit on_disk wrote).0

opened-Serves : Serves on_disk opened 0
unfolding open_db
opened-Serves = opens_table 1 (opens disk) refl

opened-is_open : is_open 1 begun.mem_db ≡ true
unfolding lookup insert open_db open_layered open_table insert_each insert_row write_txn send
    receive handle begin_or_log or_keep write_through
opened-is_open = refl

wrote-Serves : Serves on_disk wrote 1
wrote-Serves = inserts 1 6 60 (receives (begins opened-Serves)) opened-is_open

wrote-is_open : is_open 1 wrote.mem_db ≡ true
unfolding lookup insert open_db open_layered open_table insert_each insert_row write_txn send
    receive handle begin_or_log or_keep write_through insert_layered
wrote-is_open = refl

get_layered-seen_example :
    get_layered on_disk 1 6 wrote ≡ seen on_disk (db_run on_disk wrote.thread wrote.sent) 1 6
get_layered-seen_example =
    get_layered-seen on_disk on_disk-IsReliable wrote-Serves 1 6 wrote-is_open

committed-is_open : is_open 1 committed.mem_db ≡ true
unfolding lookup insert open_db open_layered open_table insert_each insert_row write_txn send
    receive handle begin_or_log or_keep write_through insert_layered commit
committed-is_open = refl

drop_last-persists_example :
    read_disk 1 6 (drop_last on_disk committed).thread.db ≡ get_layered on_disk 1 6 committed
drop_last-persists_example =
    drop_last-persists on_disk on_disk-IsReliable (commits wrote-Serves) 1 6 committed-is_open

-- The row that was written is read at once.
wrote-read : get_layered on_disk 1 6 wrote ≡ some 60
unfolding lookup insert open_db open_layered open_table insert_each insert_row write_txn send
    receive handle begin_or_log or_keep write_through insert_layered get_layered get
wrote-read = refl

-- A transaction was dropped; a later one begins, writes and commits: the row is not persisted.
abbrev later_commit : List (DbMessage ℕ)
later_commit = start_txn ∷ insert_message 1 6 60 ∷ commit_open ∷ []

later_commit-stays :
    (n : ℕ) → commits_in (take later_commit n) < 1 + starts_in (take later_commit n)
later_commit-stays zero = omega arith
later_commit-stays (suc zero) = omega arith
later_commit-stays (suc (suc zero)) = omega arith
later_commit-stays (suc (suc (suc zero))) = omega arith
later_commit-stays (suc (suc (suc (suc n)))) = omega arith

db_run-holds_back_example :
    (db_run on_disk (record { db = disk; txn = some (disk, 1) }) later_commit).db ≡ disk
db_run-holds_back_example = db_run-holds_back on_disk disk later_commit disk 1 later_commit-stays
