-- ===== src/Storage/Layered/Refinement.antt =====
-- The layered database against its persistent database: crates/storage/src/layered_db.rs.
use telcoin_network.Base.{
  ℕ, suc, ◌+◌, ◌<◌, ◌≡◌, ◌==◌, ==_refl, if◌then◌else◌, refl, sym, ◌∙◌, subst, Bool, true, Option,
  none, some, List, [], ◌∷◌, All, All-append, arith,
}
use telcoin_network.Base.Map.{Map, lookup, SortedFrom}
use telcoin_network.Storage.Memory.{
  StoreType, get, open_table, insert_row, remove_row, clear_table, is_open, get-open, get-insert,
  get-remove, get-clear, is_open-open, is_open-insert, is_open-remove, is_open-clear,
}
use telcoin_network.Storage.Layered.{
  Backend, DbMessage, start_txn, commit_open, insert_message, remove_message, clear_message,
  DbThread, LayeredDatabase, db_run, send, write_txn, commit, insert_layered, remove_layered,
  clear_layered, open_db, open_layered, insert_each, receive,
}
use telcoin_network.Storage.Layered.Thread.{
  after, after-ap, IsReliable, seen, Counts, CountAfter, handle-seen, handle-Counts, Lasting,
  db_run-next, db_run-append,
}

module _ {V : Type 0} where
  insert_each-is_open :
      (at : ℕ) (rows : Map V) (store : StoreType V) (table : ℕ)
      → is_open table (insert_each at rows store) ≡ is_open table store
  unfolding insert_each
  insert_each-is_open at [] store table = refl
  insert_each-is_open at ((row, value) ∷ rows) store table =
      insert_each-is_open at rows (insert_row at row value store) table
      ∙ is_open-insert at row table value store

  lookup_below :
      (lo key : ℕ) (rows : Map V) → SortedFrom lo rows → key < lo → lookup key rows ≡ none
  unfolding lookup
  lookup_below lo key [] i h = refl
  lookup_below lo key ((row, value) ∷ rows) i h =
      ground (arith, lookup_below (suc row) key rows i.1)

  insert_each-get :
      (at lo : ℕ) (rows : Map V) (store : StoreType V) (table key : ℕ)
      → is_open at store ≡ true
      → SortedFrom lo rows
      → get table key (insert_each at rows store) ≡ (
          if at == table
          then (elim (lookup key rows) [ none ↦ get table key store | some v ↦ some v ])
          else get table key store)
  unfolding insert_each lookup
  insert_each-get at lo [] store table key o i = ground arith
  insert_each-get at lo ((row, value) ∷ rows) store table key o i = ground (
    arith,
    insert_each-get at (suc row) rows (insert_row at row value store) table key,
    is_open-insert at row at value store,
    get-insert at row table key value store o,
    lookup_below (suc row) row rows i.1,
  )

module _ {V : Type 0} (b : Backend V) where
  -- The state agrees with its memory, where `n` transactions are open.
  pub record Agrees (s : LayeredDatabase b) (n : ℕ) : Type 0 where
    pub lasting : All Lasting s.sent
    pub is_alive : s.alive ≡ true
    pub counts : Counts b (db_run b s.thread s.sent).txn n
    pub rows :
        (table key : ℕ)
        → is_open table s.mem_db ≡ true
        → seen b (db_run b s.thread s.sent) table key ≡ get table key s.mem_db

  -- A message that says what happened to the memory keeps the agreement.
  send-Agrees :
      IsReliable b
      → (s : LayeredDatabase b) (store : StoreType V) (m : DbMessage V) (n n' : ℕ) → Lasting m
      → CountAfter b m n n'
      → ((table : ℕ) → is_open table store ≡ is_open table s.mem_db)
      → ((table key : ℕ)
          → is_open table s.mem_db ≡ true
          → get table key store ≡ after m (λ t k. get t k s.mem_db) table key)
      → Agrees s n
      → Agrees (send b m (record s { mem_db = store })).0 n'
  unfolding send
  send-Agrees ok s store m n n' l c o g h =
      let now = db_run b s.thread s.sent in
      rw h.is_alive (record {
        lasting = All-append Lasting s.sent (m ∷ []) h.lasting (l, tt);
        is_alive = refl;
        counts =
            rw (db_run-append b s.thread s.sent m h.lasting)
              (handle-Counts b ok now.db now.txn m n n' c h.counts);
        rows = λ table key e. rw (db_run-append b s.thread s.sent m h.lasting) (
            handle-seen b ok now.db now.txn m table key
            ∙ after-ap m (seen b now) (λ t k. get t k s.mem_db) table key
                (h.rows table key (sym (o table) ∙ e))
            ∙ sym (g table key (sym (o table) ∙ e)));
      })

  receive-Agrees :
      (store : StoreType V) (sent : List (DbMessage V)) (thread : DbThread b) (alive : Bool) (n : ℕ)
      → Agrees (record { mem_db = store; sent = sent; thread = thread; alive = alive }) n
      → Agrees
          (receive b (record { mem_db = store; sent = sent; thread = thread; alive = alive }))
          n
  unfolding receive
  receive-Agrees store [] thread alive n h = h
  receive-Agrees store (m ∷ rest) thread alive n h =
      let same = db_run-next b thread m rest h.lasting.0 in
      record {
        lasting = h.lasting.1;
        is_alive = h.is_alive;
        counts = subst (λ t. Counts b t.txn n) same h.counts;
        rows = λ table key o.
            subst (λ t. seen b t table key ≡ get table key store) same (h.rows table key o);
      }

  -- The states that a node reaches with `n` transactions open: the tables are opened before anything
  -- is written, operations name open tables, each is one step, and the thread receives at any time.
  pub data Serves : LayeredDatabase b → ℕ → Type 0 where
    opens : (db : b.Db) → Serves (open_db b db) 0
    opens_table :
        (table : ℕ) {s : LayeredDatabase b}
        → Serves s 0
        → s.sent ≡ []
        → Serves (open_layered b table s) 0
    begins : {s : LayeredDatabase b} {n : ℕ} → Serves s n → Serves (write_txn b s).0 (n + 1)
    commits : {s : LayeredDatabase b} {n : ℕ} → Serves s (n + 1) → Serves (commit b s).0 n
    inserts :
        (table key : ℕ) (value : V) {s : LayeredDatabase b} {n : ℕ}
        → Serves s n
        → is_open table s.mem_db ≡ true
        → Serves (insert_layered b table key value s).0 n
    removes :
        (table key : ℕ) {s : LayeredDatabase b} {n : ℕ}
        → Serves s n
        → is_open table s.mem_db ≡ true
        → Serves (remove_layered b table key s).0 n
    clears :
        (table : ℕ) {s : LayeredDatabase b} {n : ℕ}
        → Serves s n
        → is_open table s.mem_db ≡ true
        → Serves (clear_layered b table s).0 n
    receives : {s : LayeredDatabase b} {n : ℕ} → Serves s n → Serves (receive b s) n

  pub seen_closed :
      (thread : DbThread b) (txn : Option (b.Txn × ℕ))
      → thread.txn ≡ txn
      → Counts b txn 0
      → (table key : ℕ) → seen b thread table key ≡ b.get_row table key thread.db
  seen_closed thread none e c table key = rw e refl
  seen_closed thread (some (x, count)) e c table key = absurd (omega (arith, c.1))

  seen_idle :
      (thread : DbThread b) (sent : List (DbMessage V))
      → sent ≡ []
      → Counts b (db_run b thread sent).txn 0
      → (table key : ℕ) → seen b (db_run b thread sent) table key ≡ b.get_row table key thread.db
  unfolding db_run
  seen_idle thread [] e c table key = seen_closed thread thread.txn refl c table key
  seen_idle thread (m ∷ rest) e c table key = cc

  open_layered-Agrees :
      IsReliable b
      → (at : ℕ) (s : LayeredDatabase b) → s.sent ≡ []
      → Agrees s 0
      → Agrees (open_layered b at s) 0
  unfolding open_layered
  open_layered-Agrees ok at s e h = record {
    lasting = h.lasting;
    is_alive = h.is_alive;
    counts = h.counts;
    rows = λ table key o. ground (
      arith,
      seen_idle s.thread s.sent e h.counts table key,
      ok.iter-rows at key s.thread.db,
      insert_each-get at 0 (b.iter at s.thread.db) (open_table at s.mem_db) table key
          (rw (is_open-open at at s.mem_db, ==_refl at) refl) (ok.iter-sorted at s.thread.db),
      insert_each-is_open at (b.iter at s.thread.db) (open_table at s.mem_db) table,
      is_open-open at table s.mem_db,
      get-open at table key s.mem_db,
      h.rows table key,
    );
  }

  pub Serves-Agrees : {s : LayeredDatabase b} {n : ℕ} → IsReliable b → Serves s n → Agrees s n
  unfolding open_db write_txn commit insert_layered remove_layered clear_layered db_run lookup
  Serves-Agrees ok (opens db) = record {
    lasting = tt;
    is_alive = refl;
    counts = refl;
    rows = λ table key o. cc;
  }
  Serves-Agrees ok (opens_table at r e) = open_layered-Agrees ok at _ e (Serves-Agrees ok r)
  Serves-Agrees ok (begins {s} {n} r) =
      send-Agrees ok s s.mem_db start_txn n (n + 1) refl refl (λ t. refl) (λ t k o. refl)
        (Serves-Agrees ok r)
  Serves-Agrees ok (commits {s} {n} r) =
      send-Agrees ok s s.mem_db commit_open (n + 1) n refl refl (λ t. refl) (λ t k o. refl)
        (Serves-Agrees ok r)
  Serves-Agrees ok (inserts at row value {s} {n} r i) =
      send-Agrees ok s (insert_row at row value s.mem_db) (insert_message at row value) n n refl
        refl (λ t. is_open-insert at row t value s.mem_db)
        (λ t k o. get-insert at row t k value s.mem_db i) (Serves-Agrees ok r)
  Serves-Agrees ok (removes at row {s} {n} r i) =
      send-Agrees ok s (remove_row at row s.mem_db) (remove_message at row) n n refl refl
        (λ t. is_open-remove at row t s.mem_db) (λ t k o. get-remove at row t k s.mem_db i)
        (Serves-Agrees ok r)
  Serves-Agrees ok (clears at {s} {n} r i) =
      send-Agrees ok s (clear_table at s.mem_db) (clear_message at) n n refl refl
        (λ t. is_open-clear at t s.mem_db) (λ t k o. get-clear at t k s.mem_db i)
        (Serves-Agrees ok r)
  Serves-Agrees ok (receives {s} {n} r) =
      receive-Agrees s.mem_db s.sent s.thread s.alive n (Serves-Agrees ok r)
