-- ===== src/Storage/Layered/Durable.antt =====
-- What a reader sees and what is persisted: crates/storage/src/layered_db.rs.
use telcoin_network.Base.{
  ℕ, suc, take, ◌+◌, ◌-◌, ◌<◌, ◌≡◌, refl, sym, ◌∙◌, true, Bool-cases, some, List, [], ◌∷◌, arith,
  inl, inr, leb,
}
use telcoin_network.Storage.Memory.{is_open}
use telcoin_network.Storage.Layered.{
  Backend, DbMessage, start_txn, commit_open, insert_message, remove_message, clear_message,
  shutdown, LayeredDatabase, handle, write_through, or_keep, db_run, send, get_layered, drop_last,
}
use telcoin_network.Storage.Layered.Thread.{IsReliable, seen, db_run-append}
use telcoin_network.Storage.Layered.Refinement.{Serves, Serves-Agrees, seen_closed}

-- The transactions that the messages begin, and those that they commit.
abbrev pub starts_in : {V : Type 0} → List (DbMessage V) → ℕ
starts_in [] = 0
starts_in (start_txn ∷ rest) = starts_in rest + 1
starts_in (_ ∷ rest) = starts_in rest

abbrev pub commits_in : {V : Type 0} → List (DbMessage V) → ℕ
commits_in [] = 0
commits_in (commit_open ∷ rest) = commits_in rest + 1
commits_in (_ ∷ rest) = commits_in rest

module _ {V : Type 0} (b : Backend V) where
  -- In every state that a node reaches, with any order of operations and of messages received, a read
  -- of an open table gives at once what the thread would hold, in its transaction or in the
  -- persistent database, once it had handled all messages. The persistent database is reliable, the
  -- tables are opened before anything is written, each operation names an open table, and an
  -- operation changes the memory and sends its message in one step.
  pub get_layered-seen :
      {s : LayeredDatabase b} {n : ℕ}
      → IsReliable b
      → Serves b s n
      → (table key : ℕ) → is_open table s.mem_db ≡ true
      → get_layered b table key s ≡ seen b (db_run b s.thread s.sent) table key
  unfolding get_layered
  get_layered-seen reliable r table key opened =
      sym ((Serves-Agrees b reliable r).rows table key opened)

  -- If every transaction was committed when the last handle is dropped, in a state that a node
  -- reaches, then the persistent database ends with the rows that a read of an open table gave
  -- before. Conditions as for a read.
  pub drop_last-persists :
      {s : LayeredDatabase b}
      → IsReliable b
      → Serves b s 0
      → (table key : ℕ) → is_open table s.mem_db ≡ true
      → b.get_row table key (drop_last b s).thread.db ≡ get_layered b table key s
  unfolding drop_last get_layered send handle
  drop_last-persists {s} reliable r table key opened =
      let h = Serves-Agrees b reliable r in
      let now = db_run b s.thread s.sent in
      rw (h.is_alive, db_run-append b s.thread s.sent shutdown h.lasting)
        (sym (seen_closed b now now.txn refl h.counts table key) ∙ h.rows table key opened)

  -- Let a transaction be open, with its count, and let at no time as many commits have arrived as it
  -- counts and as were begun since. Then the persistent database does not change, whatever else
  -- arrives. So a transaction that is dropped without a commit, count 1, keeps what is written after
  -- it from being persisted, within later transactions or without, as long as each of these commits
  -- once at most and only after it has begun.
  pub db_run-holds_back :
      (db : b.Db) (messages : List (DbMessage V)) (x : b.Txn) (count : ℕ)
      → ((n : ℕ) → commits_in (take messages n) < count + starts_in (take messages n))
      → (db_run b (record { db = db; txn = some (x, count) }) messages).db ≡ db
  unfolding db_run handle write_through or_keep
  db_run-holds_back db [] x count h = refl
  db_run-holds_back db (start_txn ∷ rest) x count h =
      db_run-holds_back db rest x (count + 1) (λ n. omega (arith, h (suc n)))
  db_run-holds_back db (commit_open ∷ rest) x count h = elim (Bool-cases (leb count 1)) [
    | inl e ↦ absurd (ground (arith, h 1))
    | inr e ↦
        rw (db_run, handle, e)
          (db_run-holds_back db rest x (count - 1) (λ n. omega (arith, h 1, h (suc n))))
  ]
  db_run-holds_back db (insert_message at row value ∷ rest) x count h =
      db_run-holds_back db rest (or_keep x (b.insert_txn at row value x)) count (λ n. h (suc n))
  db_run-holds_back db (remove_message at row ∷ rest) x count h =
      db_run-holds_back db rest (or_keep x (b.remove_txn at row x)) count (λ n. h (suc n))
  db_run-holds_back db (clear_message at ∷ rest) x count h =
      db_run-holds_back db rest (or_keep x (b.clear_txn at x)) count (λ n. h (suc n))
  db_run-holds_back db (shutdown ∷ rest) x count h = refl
