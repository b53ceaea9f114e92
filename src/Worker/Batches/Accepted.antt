-- ===== src/Worker/Batches/Accepted.antt =====
-- The batches that are accepted: crates/execution/batch-validator/src/validator.rs.
use telcoin_network.Base.{
  ℕ, ◌+◌, ◌%◌, ◌^◌, ◌≤◌, ◌<◌, ◌≡◌, ◌↔◌, ◌==◌, leb, true, false, inl, inr, some, Option-cases, List,
  [], ◌∷◌, map, length, ok, ok-injective, >>=-eq-ok, ◌>>=◌, ensure, add_u64, arith, refl, sym, ◌∙◌,
  All,
}
use telcoin_network.Worker.Batches.{
  BatchValidationError, Batch, Chain, invalid_digest, header_transaction_bytes_exceeds_max,
  header_max_gas_exceeds_gas_limit, reduce_from, reduce_sizes, parent_time,
  validate_against_parent_timestamp, validate_batch_size_bytes, decode_transactions,
  validate_batch_gas, validate_batch,
}

abbrev pub sum : List ℕ → ℕ
sum [] = 0
sum (x ∷ xs) = x + sum xs

abbrev pub IsU64 : ℕ → Type 0
IsU64 x = x < 2 ^ 64

reduce_from-sum :
    (total : ℕ) (xs : List ℕ) → IsU64 total → reduce_from total xs ≡ (total + sum xs) % 2 ^ 64
unfolding reduce_from
reduce_from-sum total [] h = omega (arith, h)
reduce_from-sum total (x ∷ xs) h = reduce_from-sum (add_u64 total x) xs (omega arith) ∙ omega arith

-- The numbers are reduced to at most the bound: there is one, and the sum that wraps around at 2^64
-- is at most the bound.
abbrev pub Fits : ℕ → List ℕ → Type 0
Fits bound xs = (1 ≤ length xs) × (sum xs % 2 ^ 64 ≤ bound)

ensured :
    (xs : List ℕ) (bound : ℕ) (e : ℕ → BatchValidationError)
    → All IsU64 xs
    → ((reduce_sizes xs >>= λ total. ensure (leb total bound) (e total)) ≡ ok tt) ↔ Fits bound xs
unfolding reduce_sizes
ensured [] bound e h = ground arith
ensured (x ∷ xs) bound e h = ground (arith, reduce_from-sum x xs h.0)

module _ (chain : Chain) where
  -- Each transaction is recovered, with the gas limits.
  abbrev pub Recovers : List (List ℕ) → List ℕ → Type 0
  Recovers [] limits = limits ≡ []
  Recovers (tx ∷ rest) limits =
      (gas : ℕ) × (later : List ℕ) × (chain.recover_gas tx ≡ some gas)
      × (limits ≡ gas ∷ later)
      × Recovers rest later

  decode-Recovers :
      (txs : List (List ℕ)) (digest : ℕ) {limits : List ℕ}
      → decode_transactions chain txs digest ≡ ok limits
      → Recovers txs limits
  unfolding decode_transactions
  decode-Recovers [] digest h = sym (ok-injective h)
  decode-Recovers (tx ∷ rest) digest {limits} h = elim (Option-cases (chain.recover_gas tx)) [
    | inl e ↦ absurd (cc (rw (decode_transactions, e) at h))
    | inr (gas, e) ↦
        let (later, decoded, last) =
          >>=-eq-ok (decode_transactions chain rest digest) _ (rw (decode_transactions, e) at h) in
        (gas, later, e, sym (ok-injective last), decode-Recovers rest digest decoded)
  ]

  decode_of_Recovers :
      (txs : List (List ℕ)) (digest : ℕ) (limits : List ℕ)
      → Recovers txs limits
      → decode_transactions chain txs digest ≡ ok limits
  unfolding decode_transactions
  decode_of_Recovers [] digest limits h = rw h refl
  decode_of_Recovers (tx ∷ rest) digest limits (gas, later, e, same, others) =
      rw (decode_transactions, e, decode_of_Recovers rest digest later others, same) refl

  limits-IsU64 :
      (txs : List (List ℕ)) (limits : List ℕ)
      → ((tx : List ℕ) (gas : ℕ) → chain.recover_gas tx ≡ some gas → IsU64 gas)
      → Recovers txs limits
      → All IsU64 limits
  limits-IsU64 [] limits u h = rw h tt
  limits-IsU64 (tx ∷ rest) limits u (gas, later, e, same, others) =
      rw same (u tx gas e, limits-IsU64 rest later u others)

  -- A batch is accepted exactly if its digest is its own, its time is after that of its parent, it
  -- has a transaction, all transactions are recovered, and its bytes and its gas limits fit, both as
  -- sums that wrap around at 2^64. The lengths and the gas limits of the transactions are u64 numbers.
  pub validate_batch_iff :
      (b : Batch) (digest : ℕ)
      → All IsU64 (map length b.transactions)
      → ((tx : List ℕ) (gas : ℕ) → chain.recover_gas tx ≡ some gas → IsU64 gas)
      → (validate_batch chain b digest ≡ ok tt) ↔ (
          (digest ≡ chain.seal b)
          × (parent_time chain b < b.timestamp)
          × Fits 1000000 (map length b.transactions)
          × ((limits : List ℕ) × Recovers b.transactions limits × Fits 30000000 limits))
  unfolding validate_batch validate_against_parent_timestamp validate_batch_size_bytes
      validate_batch_gas
  validate_batch_iff b digest lengths gas = (
    λ h.
        let (_, own, h1) = >>=-eq-ok (ensure (digest == chain.seal b) invalid_digest) _ h in
        let (_, time, h2) =
          >>=-eq-ok (validate_against_parent_timestamp chain b.timestamp (parent_time chain b)) _
            h1 in
        let (_, size, h3) =
          >>=-eq-ok (validate_batch_size_bytes chain b.transactions b.timestamp) _ h2 in
        let (limits, decoded, last) =
          >>=-eq-ok (decode_transactions chain b.transactions digest) _ h3 in
        let recovered = decode-Recovers b.transactions digest decoded in
        (
          ground arith,
          ground arith,
          (ensured (map length b.transactions) 1000000 header_transaction_bytes_exceeds_max
                lengths).0
              size,
          (
            limits,
            recovered,
            (ensured limits 30000000 (λ total. header_max_gas_exceeds_gas_limit total 30000000)
                  (limits-IsU64 b.transactions limits gas recovered)).0
                last,
          ),
        ),
    λ (own, time, size, (limits, recovered, fits)).
        let e1 : (digest == chain.seal b) ≡ true = ground arith in
        let e2 : leb b.timestamp (parent_time chain b) ≡ false = ground arith in
        let e3 : validate_batch_size_bytes chain b.transactions b.timestamp ≡ ok tt =
          (ensured (map length b.transactions) 1000000 header_transaction_bytes_exceeds_max
              lengths).1
            size in
        let e4 = decode_of_Recovers b.transactions digest limits recovered in
        let e5 : validate_batch_gas chain limits b.timestamp ≡ ok tt =
          (ensured limits 30000000 (λ total. header_max_gas_exceeds_gas_limit total 30000000)
              (limits-IsU64 b.transactions limits gas recovered)).1
            fits in
        rw (validate_batch, e1, validate_against_parent_timestamp, e2, e3, e4) e5,
  )
