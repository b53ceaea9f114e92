-- ===== src/Storage/Certificates/Written.antt =====
-- What is read back from the certificate store:
-- crates/storage/src/stores/certificate_store.rs.
use mathlib.Core.List.Memᴰ
use mathlib.Core.Option.{some_inj}
use telcoin_network.Base.{
  ℕ, ◌+◌, ◌-◌, ◌≤◌, ◌<◌, ◌≡◌, ◌↔◌, ltb, if◌then◌else◌, refl, sym, ap, ◌∙◌, true, Bool-cases, some,
  Option-cases, List, [], ◌∷◌, Memᴰ, arith, inl, inr, ok,
}
use telcoin_network.Base.Map.{lookup, lookup-insert}
use telcoin_network.Base.Pairs.{lookup_pair, entries, lookup-insert_pair, mem-entries_iff}
use telcoin_network.Types.Crypto.{Crypto}
use telcoin_network.Types.Certificate.{Certificate, round, origin, digest}
use telcoin_network.Storage.Certificates.{
  CertificateTables, rounds_to_keep, gc_rounds, read, read_by_index, save_cert, write,
  certificates_from, skip_below, after_round,
}
use telcoin_network.Storage.Certificates.Index.{
  kept, IsIndexed, HasNoCollision, by_round-gc, by_origin-gc, read-gc, gc_rounds-IsIndexed,
  save_cert-IsIndexed,
}

mem-skip_below :
    (bound : ℕ) (x : ℕ × ℕ × ℕ) (xs : List (ℕ × ℕ × ℕ))
    → bound ≤ x.0
    → Memᴰ x (skip_below bound xs) ↔ Memᴰ x xs
unfolding skip_below
mem-skip_below bound x [] h = (λ m. m, λ m. m)
mem-skip_below bound x (y ∷ ys) h = elim (Bool-cases (ltb y.0 bound)) [
  | inl below ↦
      let later = mem-skip_below bound x ys h in
      rw below (
        λ m. Memᴰ.tail (later.0 m),
        λ m. elim (Memᴰ.cases_cons m) [
          | inl same ↦ absurd (ground (arith, below, ap (λ row. row.0) same))
          | inr at ↦ later.1 at
        ],
      )
  | inr above ↦ rw above (λ m. m, λ m. m)
]

mem_of-skip_below :
    (bound : ℕ) (x : ℕ × ℕ × ℕ) (xs : List (ℕ × ℕ × ℕ)) → Memᴰ x (skip_below bound xs) → Memᴰ x xs
unfolding skip_below
mem_of-skip_below bound x [] m = m
mem_of-skip_below bound x (y ∷ ys) m = elim (Bool-cases (ltb y.0 bound)) [
  | inl below ↦ Memᴰ.tail (mem_of-skip_below bound x ys (rw (skip_below, below) at m))
  | inr above ↦ rw (skip_below, above) at m
]

-- The rows that `after_round` reads.
abbrev pub start : ℕ → List (ℕ × ℕ × ℕ) → List (ℕ × ℕ × ℕ)
start r rows = if ltb 0 r then skip_below (r - 1) rows else rows

mem_of-start :
    (r : ℕ) (rows : List (ℕ × ℕ × ℕ)) (x : ℕ × ℕ × ℕ) → Memᴰ x (start r rows) → Memᴰ x rows
mem_of-start r rows x m = elim (Bool-cases (ltb 0 r)) [
  | inl e ↦ mem_of-skip_below (r - 1) x rows (rw e at m)
  | inr e ↦ rw e at m
]

mem-start :
    (r : ℕ) (rows : List (ℕ × ℕ × ℕ)) (x : ℕ × ℕ × ℕ)
    → r ≤ x.0
    → Memᴰ x rows
    → Memᴰ x (start r rows)
mem-start r rows x above m = elim (Bool-cases (ltb 0 r)) [
  | inl e ↦ rw e ((mem-skip_below (r - 1) x rows (omega (arith, above))).1 m)
  | inr e ↦ rw e m
]

module _ ⦃crypto : Crypto⦄ where
  -- Writing a certificate keeps the two indexes equal, and each of their rows names a stored
  -- certificate of its round, origin and digest, if a stored certificate with the same digest is of
  -- the same round and origin.
  pub write-IsIndexed :
      (c : Certificate) (s : CertificateTables)
      → HasNoCollision c s
      → IsIndexed s
      → IsIndexed (write c s)
  unfolding write
  write-IsIndexed c s fresh h =
      gc_rounds-IsIndexed (round c) (save_cert (digest c) c s) (save_cert-IsIndexed c s fresh h)

  saved_row :
      (c : Certificate) (s : CertificateTables)
      → lookup_pair (round c) (origin c) (save_cert (digest c) c s).by_round ≡ some (digest c)
  unfolding save_cert
  saved_row c s =
      ground
        (arith, lookup-insert_pair (round c) (origin c) (digest c) s.by_round (round c) (origin c))

  saved_read :
      (c : Certificate) (s : CertificateTables)
      → lookup (digest c) (save_cert (digest c) c s).certificates ≡ some c
  unfolding save_cert
  saved_read c s = ground (arith, lookup-insert (digest c) (digest c) c s.certificates)

  -- A certificate that was written is read back by its digest and by its origin and round, and no row
  -- is left whose round is more than the rounds to keep below it. The store is indexed, and a stored
  -- certificate with the same digest is of the same round and origin.
  pub read-write :
      (c : Certificate) (s : CertificateTables)
      → HasNoCollision c s
      → IsIndexed s
      → (read (digest c) (write c s) ≡ some c)
        × (read_by_index (origin c) (round c) (write c s) ≡ some c)
        × ((r o d : ℕ)
            → lookup_pair r o (write c s).by_round ≡ some d
            → round c ≤ r + rounds_to_keep)
  unfolding write read read_by_index
  read-write c s fresh h =
      let saved = save_cert (digest c) c s in
      let now = save_cert-IsIndexed c s fresh h in
      let keeps : kept (round c) (round c) ≡ true = ground arith in
      let found = saved_row c s in
      let readable : lookup (digest c) (gc_rounds (round c) saved).certificates ≡ some c =
        read-gc (round c) saved (round c) (origin c) (digest c) now found keeps ∙ saved_read c s in
      let indexed : lookup_pair (origin c) (round c) (gc_rounds (round c) saved).by_origin
          ≡ some (digest c) =
        by_origin-gc (round c) saved (round c) (origin c) now ∙ rw (keeps, found) refl in
      (
        readable,
        rw (write, read_by_index, read, indexed, readable) refl,
        λ r o d e. ground (arith, by_round-gc (round c) saved r o now.ordered, e),
      )

  -- A row of the list, from the round on, names the certificate.
  abbrev pub Names : ℕ → List (ℕ × ℕ × ℕ) → CertificateTables → Certificate → Type 0
  Names lo xs s c = (x : ℕ × ℕ × ℕ) × Memᴰ x xs × (lo ≤ x.0) × (lookup x.2 s.certificates ≡ some c)

  Names-later :
      (lo : ℕ) (x : ℕ × ℕ × ℕ) (xs : List (ℕ × ℕ × ℕ)) (s : CertificateTables) (c : Certificate)
      → x.0 < lo
      → Names lo (x ∷ xs) s c
      → Names lo xs s c
  Names-later lo x xs s c h (y, m, above, e) = elim (Memᴰ.cases_cons m) [
    | inl same ↦ absurd (ground (arith, above, h, ap (λ row. row.0) same))
    | inr later ↦ (y, later, above, e)
  ]

  certificates_from-ok :
      (lo : ℕ) (xs : List (ℕ × ℕ × ℕ)) (s : CertificateTables)
      → ((x : ℕ × ℕ × ℕ) → Memᴰ x xs → (c : Certificate) × (lookup x.2 s.certificates ≡ some c))
      → (cs : List Certificate) × (certificates_from lo xs s ≡ ok cs)
        × ((c : Certificate) → Memᴰ c cs ↔ Names lo xs s c)
  unfolding certificates_from
  certificates_from-ok lo [] s h =
      ([], refl, λ c. (λ m. absurd (Memᴰ.not-nil m), λ e. absurd (Memᴰ.not-nil e.1)))
  certificates_from-ok lo ((r, o, d) ∷ xs) s h =
      let (cs, done, members) = certificates_from-ok lo xs s (λ x m. h x (Memᴰ.tail m)) in
      let (found, e) = h (r, o, d) (Memᴰ.head refl) in
      elim (Bool-cases (ltb r lo)) [
        | inl below ↦ (
          cs,
          rw (below, done) refl,
          λ c. (
            λ m. let (x, at, above, named) = (members c).0 m in (x, Memᴰ.tail at, above, named),
            λ n. (members c).1 (Names-later lo (r, o, d) xs s c (ground arith) n),
          ),
        )
        | inr from_here ↦ (
          found ∷ cs,
          rw (from_here, e, done) refl,
          λ c. (
            λ m. elim (Memᴰ.cases_cons m) [
              | inl same ↦ ((r, o, d), Memᴰ.head refl, ground arith, rw same e)
              | inr at ↦
                  let (x, later, above, named) = (members c).0 at in
                  (x, Memᴰ.tail later, above, named)
            ],
            λ (x, m, above, named). elim (Memᴰ.cases_cons m) [
              | inl same ↦ Memᴰ.head (
                  some_inj.0
                    (sym named ∙ ap (λ (row : ℕ × ℕ × ℕ). lookup row.2 s.certificates) same ∙ e))
              | inr later ↦ Memᴰ.tail ((members c).1 (x, later, above, named))
            ],
          ),
        )
      ]

  row_named :
      (s : CertificateTables) (r o d : ℕ) (c : Certificate)
      → IsIndexed s
      → lookup_pair r o s.by_round ≡ some d
      → lookup d s.certificates ≡ some c
      → (round c ≡ r) × (origin c ≡ o)
  row_named s r o d c h e named =
      let (c', in_store, is_round, is_origin, is_digest) = h.stored r o d e in
      let same : c ≡ c' = some_inj.0 (sym named ∙ in_store) in
      (ap round same ∙ is_round, ap origin same ∙ is_origin)

  by_index :
      (s : CertificateTables) (c : Certificate)
      → IsIndexed s
      → (read_by_index (origin c) (round c) s ≡ some c) ↔ (
          (d : ℕ) × (lookup_pair (round c) (origin c) s.by_round ≡ some d)
          × (lookup d s.certificates ≡ some c))
  unfolding read_by_index read
  by_index s c h = (
    λ e. elim (Option-cases (lookup_pair (origin c) (round c) s.by_origin)) [
      | inl missing ↦ absurd (cc (rw (read_by_index, missing) at e))
      | inr (d, found) ↦
          (d, sym (h.mirrored (round c) (origin c)) ∙ found, rw (read_by_index, read, found) at e)
    ],
    λ (d, found, named). rw (read_by_index, read, h.mirrored (round c) (origin c), found) named,
  )

  -- In an indexed store the certificates from a round on are found without an error, and they are
  -- exactly the certificates of that round or a later one that the index by origin and round names.
  pub after_round_iff :
      (r : ℕ) (s : CertificateTables)
      → IsIndexed s
      → (cs : List Certificate) × (after_round r s ≡ ok cs)
        × ((c : Certificate)
            → Memᴰ c cs ↔ ((r ≤ round c) × (read_by_index (origin c) (round c) s ≡ some c)))
  unfolding after_round
  after_round_iff r s h =
      let rows = entries s.by_round in
      let row = λ (x : ℕ × ℕ × ℕ). mem-entries_iff x.0 x.1 x.2 s.by_round h.ordered in
      let (cs, e, members) = certificates_from-ok r (start r rows) s (λ x m.
        let (c, in_store, _, _, _) = h.stored x.0 x.1 x.2 ((row x).0 (mem_of-start r rows x m)) in
        (c, in_store)) in
      (
        cs,
        e,
        λ c. (
          λ m.
              let (x, at, above, named) = (members c).0 m in
              let found = (row x).0 (mem_of-start r rows x at) in
              let (is_round, is_origin) = row_named s x.0 x.1 x.2 c h found named in
              (
                omega (arith, above, is_round),
                (by_index s c h).1 (x.2, rw (is_round, is_origin) found, named),
              ),
          λ (above, e).
              let (d, found, named) = (by_index s c h).0 e in
              let x : ℕ × ℕ × ℕ = (round c, origin c, d) in
              (members c).1 (x, mem-start r rows x above ((row x).1 found), above, named),
        ),
      )
