-- ===== src/Backend/LedgerWrites/RoundTrip.antt =====
-- Transactions that are written for accounts and tokens are read back page after page
-- (src/backend/CassandraBackend.cpp).
use clio_migrator.Prelude.{
  ℕ, suc, ◌≤◌, ◌≡◌, refl, ap, subst, ◌∙◌, List, [], ◌∷◌, ◌++◌, Bool, true, false, none, ◌==◌, arith,
  All, keep, if◌then◌else◌, if_cases, length, map, count, Bool-cases, inl, inr,
}
use clio_migrator.Types.{TransactionAndMetadata, TransactionsCursor, LedgerRange}
use clio_migrator.Database.{row, Cassandra}
use clio_migrator.Nft.Data.{NftTransactionsData}
use clio_migrator.Backend.Paging.{
  TxRow, TxTables, fetch_account_transactions, fetch_nft_transactions,
}
use clio_migrator.Backend.Paging.Order.{InOrder, ReadAfter}
use clio_migrator.Backend.Serves.{Serves}
use clio_migrator.Backend.Paging.Client.{Known, read_all, HasRows}
use clio_migrator.Backend.Paging.Complete.{pages_complete}
use clio_migrator.Backend.LedgerWrites.{
  Insert, insert_diff, insert_object, insert_successor, insert_ledger_header, insert_ledger_hash,
  insert_account_tx, insert_nft_tx, insert_ledger_transaction, insert_transaction,
  AccountTransactionsData, account_rows, position, write_account_transactions, nft_position,
  write_nft_transactions,
}

abbrev pub tx_row : TransactionsCursor → ℕ → TxRow
tx_row at hash = record { hash = hash; seq_idx = at }

-- The rows of an account in account_tx, and those of a token in nf_token_transactions.
abbrev pub row_if : Bool → TxRow → List TxRow → List TxRow
row_if b r rows = if b then r ∷ rows else rows

abbrev pub account_tx_rows : ℕ → List Insert → List TxRow
account_tx_rows a [] = []
account_tx_rows a (insert_account_tx b at hash ∷ is) =
    row_if (a == b) (tx_row at hash) (account_tx_rows a is)
account_tx_rows a (insert_nft_tx b at hash ∷ is) = account_tx_rows a is
account_tx_rows a (insert_diff s k ∷ is) = account_tx_rows a is
account_tx_rows a (insert_object k s b ∷ is) = account_tx_rows a is
account_tx_rows a (insert_successor k s n ∷ is) = account_tx_rows a is
account_tx_rows a (insert_ledger_header s h ∷ is) = account_tx_rows a is
account_tx_rows a (insert_ledger_hash h s ∷ is) = account_tx_rows a is
account_tx_rows a (insert_ledger_transaction s h ∷ is) = account_tx_rows a is
account_tx_rows a (insert_transaction h s d t m ∷ is) = account_tx_rows a is

abbrev pub nft_tx_rows : ℕ → List Insert → List TxRow
nft_tx_rows a [] = []
nft_tx_rows a (insert_nft_tx b at hash ∷ is) = row_if (a == b) (tx_row at hash) (nft_tx_rows a is)
nft_tx_rows a (insert_account_tx b at hash ∷ is) = nft_tx_rows a is
nft_tx_rows a (insert_diff s k ∷ is) = nft_tx_rows a is
nft_tx_rows a (insert_object k s b ∷ is) = nft_tx_rows a is
nft_tx_rows a (insert_successor k s n ∷ is) = nft_tx_rows a is
nft_tx_rows a (insert_ledger_header s h ∷ is) = nft_tx_rows a is
nft_tx_rows a (insert_ledger_hash h s ∷ is) = nft_tx_rows a is
nft_tx_rows a (insert_ledger_transaction s h ∷ is) = nft_tx_rows a is
nft_tx_rows a (insert_transaction h s d t m ∷ is) = nft_tx_rows a is

abbrev pub affects : ℕ → AccountTransactionsData → Bool
affects a d = if count a d.accounts == 0 then false else true

abbrev pub links_to : ℕ → NftTransactionsData → Bool
links_to t d = t == d.token_id

abbrev pub account_row : AccountTransactionsData → TxRow
account_row d = tx_row (position d) d.tx_hash

abbrev pub nft_row : NftTransactionsData → TxRow
nft_row d = tx_row (nft_position d) d.tx_hash

account_rows_none :
    (a : ℕ) (at : TransactionsCursor) (hash : ℕ) (accounts : List ℕ) (is : List Insert)
    → count a accounts ≡ 0
    → account_tx_rows a (account_rows at hash accounts ++ is) ≡ account_tx_rows a is
account_rows_none a at hash [] is h = refl
account_rows_none a at hash (b ∷ accounts) is h =
    if_cases (λ x. x ≡ account_tx_rows a is) (a == b) (λ e. absurd (ground (arith, e)))
      (λ e. account_rows_none a at hash accounts is (ground (arith, e)))

-- An account that a record names once gets one row of it.
account_rows_once :
    (a : ℕ) (at : TransactionsCursor) (hash : ℕ) (accounts : List ℕ) (is : List Insert)
    → count a accounts ≡ 1
    → account_tx_rows a (account_rows at hash accounts ++ is)
      ≡ tx_row at hash ∷ account_tx_rows a is
account_rows_once a at hash [] is h = absurd (omega (arith, h))
account_rows_once a at hash (b ∷ accounts) is h =
    if_cases (λ x. x ≡ tx_row at hash ∷ account_tx_rows a is) (a == b)
      (λ e. ap (◌∷◌ (tx_row at hash)) (account_rows_none a at hash accounts is (ground (arith, e))))
      (λ e. account_rows_once a at hash accounts is (ground (arith, e)))

-- The set of accounts has each of them once at most.
abbrev pub NamedOnce : ℕ → AccountTransactionsData → Type 0
NamedOnce a d = count a d.accounts ≤ 1

written_account_rows :
    (a : ℕ) (ds : List AccountTransactionsData)
    → All (NamedOnce a) ds
    → account_tx_rows a (write_account_transactions ds) ≡ map account_row (keep (affects a) ds)
unfolding write_account_transactions
written_account_rows a [] h = refl
written_account_rows a (d ∷ ds) h =
    let ih = written_account_rows a ds h.1 in
    elim (Bool-cases (count a d.accounts == 0)) [
      | inl e ↦ rw e (
          account_rows_none a (position d) d.tx_hash d.accounts (write_account_transactions ds)
            (ground (arith, e))
          ∙ ih)
      | inr e ↦ rw e (
          account_rows_once a (position d) d.tx_hash d.accounts (write_account_transactions ds)
            (ground (arith, e, h.0))
          ∙ ap (◌∷◌ (account_row d)) ih)
    ]

written_nft_rows :
    (t : ℕ) (ds : List NftTransactionsData)
    → nft_tx_rows t (write_nft_transactions ds) ≡ map nft_row (keep (links_to t) ds)
unfolding write_nft_transactions
written_nft_rows t [] = refl
written_nft_rows t (d ∷ ds) = elim (Bool-cases (t == d.token_id)) [
  | inl e ↦ rw e (ap (◌∷◌ (nft_row d)) (written_nft_rows t ds))
  | inr e ↦ rw e (written_nft_rows t ds)
]

module _ {A : Type 0} (f : A → TxRow) (p : A → Bool) where
  All-keep :
      (r : TxRow) (xs : List A)
      → All (ReadAfter true r) (map f xs)
      → All (ReadAfter true r) (map f (keep p xs))
  All-keep r [] h = tt
  All-keep r (x ∷ xs) h =
      if_cases (λ l. All (ReadAfter true r) (map f l)) (p x) (λ e. (h.0, All-keep r xs h.1))
        (λ e. All-keep r xs h.1)

  keep-InOrder : (xs : List A) → InOrder true (map f xs) → InOrder true (map f (keep p xs))
  keep-InOrder [] h = tt
  keep-InOrder (x ∷ xs) h =
      if_cases (λ l. InOrder true (map f l)) (p x)
        (λ e. (h.0, All-keep (f x) xs h.1, keep-InOrder xs h.2)) (λ e. keep-InOrder xs h.2)

-- What is written for the transactions of ledgers is read back: an account's pages, followed
-- forwards from the start with any limit above 0, return exactly the transactions that affect
-- it, each once and in the order written, and a token's pages those that have a link to it; if the
-- records come in ascending order, name an account once each, the tables give what was written,
-- reads succeed and a ledger range is known.
pub written_is_read :
    (rng : LedgerRange) (db : Cassandra) (tables : TxTables) (tx_of : ℕ → TransactionAndMetadata)
    → ((t hash : ℕ) → db.select_transaction_async t hash ≡ row (tx_of hash))
    → (account token_id l : ℕ) (ds : List AccountTransactionsData) (ts : List NftTransactionsData)
    → All (NamedOnce account) ds
    → InOrder true (map account_row ds)
    → InOrder true (map nft_row ts)
    → HasRows tables.select_account_tx_forward true account
        (account_tx_rows account (write_account_transactions ds))
    → HasRows tables.select_nft_tx_forward true token_id
        (nft_tx_rows token_id (write_nft_transactions ts))
    → Serves
        (Known rng)
        (read_all
          (suc (length (map account_row (keep (affects account) ds))))
          (fetch_account_transactions db tables account (suc l) true)
          none)
        (map (λ r. tx_of r.hash) (map account_row (keep (affects account) ds)))
      × Serves
          (Known rng)
          (read_all
            (suc (length (map nft_row (keep (links_to token_id) ts))))
            (fetch_nft_transactions db tables token_id (suc l) true)
            none)
          (map (λ r. tx_of r.hash) (map nft_row (keep (links_to token_id) ts)))
written_is_read rng db tables tx_of answers account token_id l ds ts once o o' h h' =
    pages_complete rng db tables tx_of answers account token_id l true
      (map account_row (keep (affects account) ds)) (map nft_row (keep (links_to token_id) ts))
      (subst (HasRows tables.select_account_tx_forward true account)
        (written_account_rows account ds once) h)
      (subst (HasRows tables.select_nft_tx_forward true token_id) (written_nft_rows token_id ts) h')
      (keep-InOrder account_row (affects account) ds o)
      (keep-InOrder nft_row (links_to token_id) ts o')
