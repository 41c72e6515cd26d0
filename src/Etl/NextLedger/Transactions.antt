-- ===== src/Etl/NextLedger/Transactions.antt =====
-- The transactions of the next ledger, and all its writes (insertTransactions and buildNextLedger of
-- src/etl/ReportingETL.cpp up to `finishWrites`, which is that of the backend). The header has been
-- deserialized. `std::sort` is an argument of the code here: the comparison that it is given is not
-- an order, so what it does is not determined.
use clio_migrator.Prelude.{
  ℕ, ◌≡◌, refl, ap, ◌∙◌, List, [], ◌∷◌, ◌++◌, Bool, true, false, ◌&&◌, Option, none, some, ltb,
  ◌==◌, arith, All, All-weaken,
}
use clio_migrator.Types.{Blob}
use clio_migrator.Outcome.{Outcome, returns}
use clio_migrator.Outcome
use clio_migrator.Ripple.{Ripple}
use clio_migrator.Nft.Data.{NftsData, NftTransactionsData, NftData}
use clio_migrator.Nft.FromTx.{get_nft_data_from_tx}
use clio_migrator.Nft.Algorithms.{unique, unique_from}
use clio_migrator.Backend.Writes.{rows}
use clio_migrator.Backend.LedgerWrites.{
  Insert, AccountTransactionsData, write_ledger, write_transaction, write_account_transactions,
  write_nft_transactions,
}
use clio_migrator.Etl.NextLedger.{RawLedger, N, ◌>>=◌, ◌>>◌, pure, lift, send, write_objects}

pub record RawTransaction : Type 0 where
  pub transaction_blob : Blob
  pub metadata_blob : Blob

pub record FormattedTransactionsData : Type 0 where
  pub account_tx_data : List AccountTransactionsData
  pub nf_token_tx_data : List NftTransactionsData
  pub nf_tokens_data : List NftsData

-- What the header says.
pub record LedgerInfo : Type 0 where
  pub seq : ℕ
  pub hash : ℕ
  pub close_time : ℕ

abbrev pub none_formatted : FormattedTransactionsData
none_formatted = record { account_tx_data = []; nf_token_tx_data = []; nf_tokens_data = [] }

-- `a > b` of optionals
abbrev pub is_above : Option ℕ → Option ℕ → Bool
is_above none b = false
is_above (some a) none = true
is_above (some a) (some b) = ltb b a

-- The comparison that the records of tokens are sorted by.
abbrev pub is_later : NftsData → NftsData → Bool
is_later a b = ltb b.token_id a.token_id && is_above a.transaction_index b.transaction_index

abbrev pub is_same_token : NftsData → NftsData → Bool
is_same_token a b = a.token_id == b.token_id

-- `std::sort`: the elements in another order, by a comparison.
abbrev pub StdSort : Type 0
StdSort = (NftsData → NftsData → Bool) → List NftsData → List NftsData

unfoldable pub remove_repeats : StdSort → List NftsData → List NftsData
remove_repeats std_sort ds = unique is_same_token (std_sort is_later ds)

abbrev pub nft_list : Option NftsData → List NftsData
nft_list none = []
nft_list (some nft) = nft ∷ []

module _ (r : Ripple) where
  open r use {
    TxMeta, StObject, parse_st_tx, parse_tx_meta, get_transaction_id, get_lgr_seq, get_index,
    get_affected_accounts,
  }

  abbrev pub account_data : TxMeta → ℕ → AccountTransactionsData
  account_data meta hash = record {
    accounts = get_affected_accounts meta;
    ledger_sequence = get_lgr_seq meta;
    transaction_index = get_index meta;
    tx_hash = hash;
  }

  abbrev pub formatted : TxMeta → ℕ → NftData → FormattedTransactionsData
  formatted meta hash (links, nft) = record {
    account_tx_data = account_data meta hash ∷ [];
    nf_token_tx_data = links;
    nf_tokens_data = nft_list nft;
  }

  -- One round of the loop: the records of a transaction, and its rows.
  unfoldable pub format_transaction :
      LedgerInfo → RawTransaction → Outcome (FormattedTransactionsData × List Insert)
  format_transaction info tx = Outcome.◌>>=◌ (parse_st_tx tx.transaction_blob) (λ sttx.
      Outcome.◌>>=◌ (parse_tx_meta (get_transaction_id sttx) info.seq tx.metadata_blob) (λ meta.
        Outcome.◌>>=◌ (get_nft_data_from_tx r meta sttx) (λ d. returns (
          formatted meta (get_transaction_id sttx) d,
          write_transaction (get_transaction_id sttx) info.seq info.close_time tx.transaction_blob
              tx.metadata_blob,
        ))))

  abbrev pub both :
      FormattedTransactionsData → FormattedTransactionsData → FormattedTransactionsData
  both a b = record {
    account_tx_data = a.account_tx_data ++ b.account_tx_data;
    nf_token_tx_data = a.nf_token_tx_data ++ b.nf_token_tx_data;
    nf_tokens_data = a.nf_tokens_data ++ b.nf_tokens_data;
  }

  unfoldable pub transaction_loop :
      LedgerInfo → List RawTransaction → FormattedTransactionsData → N FormattedTransactionsData
  unfolding format_transaction
  transaction_loop info [] result = pure result
  transaction_loop info (tx ∷ txs) result = do
    (data', rows') ← lift (format_transaction info tx)
    send rows'
    transaction_loop info txs (both result data')

  unfoldable pub insert_transactions :
      StdSort → LedgerInfo → List RawTransaction → N FormattedTransactionsData
  unfolding transaction_loop remove_repeats
  insert_transactions std_sort info txs = do
    result ← transaction_loop info txs none_formatted
    pure (record result { nf_tokens_data = remove_repeats std_sort result.nf_tokens_data })

  abbrev pub send_nfts : List NftsData → N (Unit {0})
  send_nfts ds n = (returns tt, record n { nfts = n.nfts ++ rows r ds })

  unfoldable pub build_next_ledger :
      StdSort → LedgerInfo → Blob → RawLedger → List RawTransaction → N (Unit {0})
  unfolding insert_transactions
  build_next_ledger std_sort info header raw txs = do
    send (write_ledger info.seq info.hash header).0
    write_objects r info.seq raw
    result ← insert_transactions std_sort info txs
    send (write_account_transactions result.account_tx_data)
    send_nfts result.nf_tokens_data
    send (write_nft_transactions result.nf_token_tx_data)

-- No later element comes before an earlier one in the order.
abbrev pub InOrder : (NftsData → NftsData → Bool) → List NftsData → Type 0
InOrder less [] = Unit {0}
InOrder less (x ∷ xs) = All (λ (y : NftsData). less y x ≡ false) xs × InOrder less xs

abbrev pub OfToken : ℕ → NftsData → Type 0
OfToken t d = d.token_id ≡ t

never_later : (t : ℕ) (a b : NftsData) → OfToken t a → OfToken t b → is_later a b ≡ false
never_later t a b p q = ground (arith, p, q)

All-never_later :
    (t : ℕ) (a : NftsData) (ds : List NftsData)
    → OfToken t a
    → All (OfToken t) ds
    → All (λ (y : NftsData). is_later y a ≡ false) ds
All-never_later t a ds p h = All-weaken (OfToken t) _ ds (λ y q. never_later t y a q p) h

OfToken-InOrder : (t : ℕ) (ds : List NftsData) → All (OfToken t) ds → InOrder is_later ds
OfToken-InOrder t [] h = tt
OfToken-InOrder t (d ∷ ds) (p, h) = (All-never_later t d ds p h, OfToken-InOrder t ds h)

unique-OfToken :
    (t : ℕ) (d : NftsData) (ds : List NftsData)
    → OfToken t d
    → All (OfToken t) ds
    → unique_from is_same_token d ds ≡ d ∷ []
unfolding unique_from
unique-OfToken t d [] p h = refl
unique-OfToken t d (e ∷ ds) p (q, h) =
    let same : (d.token_id == e.token_id) ≡ true = ground (arith, p, q) in
    rw same (unique-OfToken t d ds p h)

-- Where all records of a ledger are of one token: the record that std::sort puts first is kept
-- alone, whichever it is, and in whatever order it puts them, none is less than one before it by the
-- comparison that it was given.
pub any_kept :
    (std_sort : StdSort) (t : ℕ) (ds : List NftsData) (d : NftsData) (rest : List NftsData)
    → std_sort is_later ds ≡ d ∷ rest
    → All (OfToken t) (d ∷ rest)
    → (remove_repeats std_sort ds ≡ d ∷ []) × InOrder is_later (d ∷ rest)
unfolding remove_repeats unique
any_kept std_sort t ds d rest e (p, q) =
    (ap (unique is_same_token) e ∙ unique-OfToken t d rest p q, OfToken-InOrder t (d ∷ rest) (p, q))
