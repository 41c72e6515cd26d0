-- ===== src/Backend/LedgerWrites/Tests.antt =====
-- Two transactions of two accounts, one of which is linked to a token.
use clio_migrator.Prelude.{ℕ, refl, List, [], ◌∷◌, true, none, keep, take, arith}
use clio_migrator.Types.{TransactionAndMetadata}
use clio_migrator.Outcome.{returns}
use clio_migrator.Nft.Data.{NftTransactionsData}
use clio_migrator.Migrator.Sample.{server, tx, range}
use clio_migrator.Backend.Paging.{TxTables, fetch_account_transactions, fetch_nft_transactions}
use clio_migrator.Backend.Paging.Order.{passes}
use clio_migrator.Backend.Serves.{Serves}
use clio_migrator.Backend.Paging.Client.{Known, read_all}
use clio_migrator.Backend.LedgerWrites.{
  AccountTransactionsData, write_account_transactions, write_nft_transactions,
}
use clio_migrator.Backend.LedgerWrites.RoundTrip.{account_tx_rows, nft_tx_rows, written_is_read}

abbrev records : List AccountTransactionsData
records =
    record { accounts = 8 ∷ 9 ∷ []; ledger_sequence = 5; transaction_index = 0; tx_hash = 1 }
    ∷ record { accounts = 9 ∷ []; ledger_sequence = 5; transaction_index = 1; tx_hash = 2 }
    ∷ record { accounts = 8 ∷ []; ledger_sequence = 7; transaction_index = 0; tx_hash = 3 }
    ∷ []

abbrev token_links : List NftTransactionsData
token_links = record { token_id = 70; ledger_sequence = 5; transaction_index = 1; tx_hash = 2 } ∷ []

abbrev tables : TxTables
tables = record {
  select_account_tx_forward = λ t key c limit. returns (
      take limit (keep (passes true c) (account_tx_rows key (write_account_transactions records))));
  select_account_tx = λ t key c limit. returns [];
  select_nft_tx_forward = λ t key c limit.
      returns
        (take limit (keep (passes true c) (nft_tx_rows key (write_nft_transactions token_links))));
  select_nft_tx = λ t key c limit. returns [];
}

abbrev same_tx : ℕ → TransactionAndMetadata
same_tx hash = tx

written_is_read_example :
    Serves
      (Known range)
      (read_all 3 (fetch_account_transactions server tables 8 1 true) none)
      (tx ∷ tx ∷ [])
    × Serves
        (Known range)
        (read_all 2 (fetch_nft_transactions server tables 70 1 true) none)
        (tx ∷ [])
written_is_read_example =
    written_is_read range server tables same_tx (λ t hash. refl) 8 70 0 records token_links
      (omega arith, (omega arith, (omega arith, tt)))
      (
        (omega arith, omega arith),
        (refl, (refl, tt)),
        ((omega arith, omega arith), (refl, tt), ((omega arith, omega arith), tt, tt)),
      )
      ((omega arith, omega arith), tt, tt) (λ t c limit. refl) (λ t c limit. refl)
