-- ===== src/Storage/Certificates.antt =====
-- `CertificateStore`: crates/storage/src/stores/certificate_store.rs. The operations of the database
-- succeed; the notifications of subscribers and the fail points are left out.
pub mod Removal
pub mod Index
pub mod Written
pub mod Kept
use mathlib.Core.List.{reverse}
use telcoin_network.Base.{
  ℕ, ◌-◌, max, ◌==◌, ltb, leb, if◌then◌else◌, Bool, true, false, Option, none, some, List, [], ◌∷◌,
  map, Result, ok, err, add_u32, is_empty, not, ◌&&◌, ◌||◌, ◌++◌,
}
use telcoin_network.Base.Map.{Map, lookup, insert, remove, contains_key, lookup_or}
use telcoin_network.Base.Pairs.{PairMap, lookup_pair, insert_pair, remove_pair, entries, take_below}
use telcoin_network.Types.Crypto.{Crypto}
use telcoin_network.Types.Certificate.{Certificate, round, origin, digest}

-- The tables `Certificates`, `CertificateDigestByRound` and `CertificateDigestByOrigin`.
pub record CertificateTables : Type 0 where
  pub certificates : Map Certificate
  pub by_round : PairMap ℕ
  pub by_origin : PairMap ℕ

-- `Round::MAX`
abbrev pub max_round : ℕ
max_round = 4294967295

abbrev pub rounds_to_keep : ℕ
rounds_to_keep = 64

-- The report of `after_round` and of `last_two_rounds_certs`: no certificate has the digest.
pub data StoreError : Type 0 where
  invariant_violation : ℕ → StoreError

-- The removal of one row in `gc_rounds`.
unfoldable pub remove_row_of : ℕ × ℕ × ℕ → CertificateTables → CertificateTables
unfolding remove remove_pair
remove_row_of (round, origin, digest) s = record {
  certificates = remove digest s.certificates;
  by_round = remove_pair round origin s.by_round;
  by_origin = remove_pair origin round s.by_origin;
}

unfoldable pub remove_rows : List (ℕ × ℕ × ℕ) → CertificateTables → CertificateTables
unfolding remove_row_of
remove_rows [] s = s
remove_rows (row ∷ rest) s = remove_rows rest (remove_row_of row s)

unfoldable pub gc_rounds : ℕ → CertificateTables → CertificateTables
unfolding remove_rows entries take_below
gc_rounds target_round s =
    if leb target_round rounds_to_keep
    then s
    else remove_rows (take_below (target_round - rounds_to_keep) (entries s.by_round)) s

-- `read`
unfoldable pub read : ℕ → CertificateTables → Option Certificate
unfolding lookup
read id s = lookup id s.certificates

unfoldable pub read_by_index : ℕ → ℕ → CertificateTables → Option Certificate
unfolding read lookup_pair
read_by_index origin round s = elim (lookup_pair origin round s.by_origin) [
  | some d ↦ read d s
  | none ↦ none
]

unfoldable pub contains_certificate : ℕ → CertificateTables → Bool
contains_certificate id s = contains_key id s.certificates

unfoldable pub multi_contains : List ℕ → CertificateTables → List Bool
unfolding contains_certificate
multi_contains digests s = map (λ d. contains_certificate d s) digests

unfoldable pub read_all : List ℕ → CertificateTables → List (Option Certificate)
unfolding read
read_all ids s = map (λ d. read d s) ids

-- The rows of `skip_to`, for a key with the smallest origin, whose round is not below the bound.
unfoldable pub certificates_from :
    ℕ → List (ℕ × ℕ × ℕ) → CertificateTables → Result StoreError (List Certificate)
certificates_from round [] s = ok []
certificates_from round ((r, o, d) ∷ rest) s =
    let later = certificates_from round rest s in
    if ltb r round then later else elim (lookup d s.certificates) [
      | none ↦ err (invariant_violation d)
      | some cert ↦ elim later [ ok certs ↦ ok (cert ∷ certs) | err e ↦ err e ]
    ]

-- The rows from a first number on.
unfoldable pub skip_below : ℕ → List (ℕ × ℕ × ℕ) → List (ℕ × ℕ × ℕ)
skip_below bound [] = []
skip_below bound (row ∷ rest) =
    let later = skip_below bound rest in if ltb row.0 bound then later else row ∷ rest

unfoldable pub after_round : ℕ → CertificateTables → Result StoreError (List Certificate)
unfolding certificates_from skip_below entries
after_round round s =
    certificates_from round
      (if ltb 0 round then skip_below (round - 1) (entries s.by_round) else entries s.by_round) s

-- The grouping of `origins_after_round`
unfoldable pub group_origins : ℕ → List (ℕ × ℕ × ℕ) → Map (List ℕ) → Map (List ℕ)
unfolding insert
group_origins round [] result = result
group_origins round ((r, o, d) ∷ rest) result =
    group_origins round rest
      (if ltb r round then result else insert r (lookup_or r [] result ++ (o ∷ [])) result)

unfoldable pub origins_after_round : ℕ → CertificateTables → Map (List ℕ)
unfolding group_origins skip_below entries
origins_after_round round s =
    group_origins round
      (if ltb 0 round then skip_below (round - 1) (entries s.by_round) else entries s.by_round) []

-- The loop of `last_two_rounds_certs`, over the rows in reverse, with its variables.
unfoldable pub take_two_rounds :
    List (ℕ × ℕ × ℕ)
    → ℕ
    → List Certificate
    → CertificateTables
    → Result StoreError (List Certificate)
take_two_rounds [] round certificates s = ok certificates
take_two_rounds ((r, o, d) ∷ rest) round certificates s = elim (lookup d s.certificates) [
  | none ↦
      if not (round == 0) && ltb r (round - 1) then ok certificates else err (invariant_violation d)
  | some c ↦
      let later =
        take_two_rounds rest (if round == 0 then r else round) (certificates ++ (c ∷ [])) s in
      if not (round == 0) && ltb r (round - 1) then ok certificates else later
]

unfoldable pub last_two_rounds_certs : CertificateTables → Result StoreError (List Certificate)
unfolding take_two_rounds entries
last_two_rounds_certs s = take_two_rounds (reverse (entries s.by_round)) 0 [] s

-- `record_prior_to`: the last row before the key, with the one found so far.
unfoldable pub record_prior_to : ℕ → ℕ → List (ℕ × ℕ × ℕ) → Option (ℕ × ℕ × ℕ) → Option (ℕ × ℕ × ℕ)
record_prior_to i j [] last = last
record_prior_to i j ((r, o, d) ∷ rest) last =
    let later = record_prior_to i j rest (some (r, o, d)) in
    if ltb i r || (i == r) && leb j o then last else later

-- The row of the origin with the highest round, as `last_round` and `last_round_number` find it.
unfoldable pub last_of_origin : ℕ → CertificateTables → Option (ℕ × ℕ × ℕ)
unfolding record_prior_to entries
last_of_origin origin s = elim (record_prior_to origin max_round (entries s.by_origin) none) [
  | none ↦ none
  | some row ↦ if row.0 == origin then some row else none
]

unfoldable pub last_round_number : ℕ → CertificateTables → Option ℕ
unfolding last_of_origin
last_round_number origin s = elim (last_of_origin origin s) [ none ↦ none | some row ↦ some row.1 ]

unfoldable pub last_round : ℕ → CertificateTables → Option Certificate
unfolding last_of_origin read
last_round origin s = elim (last_of_origin origin s) [ none ↦ none | some row ↦ read row.2 s ]

-- The first row that is not before the key.
unfoldable pub first_from : ℕ → ℕ → List (ℕ × ℕ × ℕ) → Option (ℕ × ℕ × ℕ)
first_from i j [] = none
first_from i j ((r, o, d) ∷ rest) =
    let later = first_from i j rest in
    if ltb r i || (r == i) && ltb o j then later else some (r, o, d)

unfoldable pub next_round_number : ℕ → ℕ → CertificateTables → Option ℕ
unfolding first_from entries
next_round_number from after s = elim (first_from from (add_u32 after 1) (entries s.by_origin)) [
  | none ↦ none
  | some (o, r, d) ↦ if o == from then some r else none
]

-- `clear`
unfoldable pub clear : CertificateTables → CertificateTables
clear s = record { certificates = []; by_round = []; by_origin = [] }

-- `delete`, and whether its transaction was committed.
unfoldable pub delete : ℕ → CertificateTables → CertificateTables × Bool
unfolding read remove remove_pair
delete id s = elim (read id s) [
  | none ↦ (s, false)
  | some cert ↦ (
    record {
      certificates = remove id s.certificates;
      by_round = remove_pair (round cert) (origin cert) s.by_round;
      by_origin = s.by_origin;
    },
    true,
  )
]

-- `delete_all`, over a database whose reads see the open transaction.
unfoldable pub delete_all : List ℕ → CertificateTables → CertificateTables × Bool
unfolding delete
delete_all [] s = (s, true)
delete_all (id ∷ rest) s =
    let (next, found) = delete id s in
    elim found [ true ↦ delete_all rest next | false ↦ (next, false) ]

-- `last_record`: the last row of a table.
unfoldable pub last_row : List (ℕ × ℕ × ℕ) → Option (ℕ × ℕ × ℕ)
last_row [] = none
last_row (row ∷ rest) = elim (last_row rest) [ none ↦ some row | some later ↦ some later ]

unfoldable pub highest_round_number : CertificateTables → ℕ
unfolding last_row entries
highest_round_number s = elim (last_row (entries s.by_round)) [ none ↦ 0 | some row ↦ row.0 ]

module _ ⦃crypto : Crypto⦄ where
  unfoldable pub save_cert : ℕ → Certificate → CertificateTables → CertificateTables
  unfolding insert insert_pair
  save_cert digest certificate s = record {
    certificates = insert digest certificate s.certificates;
    by_round = insert_pair (round certificate) (origin certificate) digest s.by_round;
    by_origin = insert_pair (origin certificate) (round certificate) digest s.by_origin;
  }

  unfoldable pub write : Certificate → CertificateTables → CertificateTables
  unfolding save_cert gc_rounds
  write certificate s = gc_rounds (round certificate) (save_cert (digest certificate) certificate s)

  -- The loop of `write_all`, with the highest round so far.
  unfoldable pub save_all : List Certificate → ℕ → CertificateTables → CertificateTables × ℕ
  unfolding save_cert
  save_all [] highest s = (s, highest)
  save_all (c ∷ rest) highest s = save_all rest (max highest (round c)) (save_cert (digest c) c s)

  unfoldable pub write_all : List Certificate → CertificateTables → CertificateTables
  unfolding save_all gc_rounds
  write_all certificates s =
      let (saved, highest) = save_all certificates 0 s in gc_rounds highest saved
