-- ===== src/Backend/Paging/Tests.antt =====
-- Three rows of an account, read in pages of two.
use clio_migrator.Prelude.{ℕ, refl, List, [], ◌∷◌, true, false, none, keep, take, arith}
use clio_migrator.Types.{TransactionAndMetadata}
use clio_migrator.Outcome.{returns}
use clio_migrator.Migrator.Sample.{server, tx, range}
use clio_migrator.Backend.Paging.{
  TxRow, TxTables, fetch_account_transactions, fetch_nft_transactions,
}
use clio_migrator.Backend.Paging.Order.{passes, InOrder}
use clio_migrator.Backend.Serves.{Serves}
use clio_migrator.Backend.Paging.Client.{Known, read_all}
use clio_migrator.Backend.Paging.Complete.{pages_complete}

abbrev row_at : ℕ → ℕ → ℕ → TxRow
row_at hash seq idx = record {
  hash = hash;
  seq_idx = record { ledger_sequence = seq; transaction_index = idx };
}

abbrev ascending : List TxRow
ascending = row_at 1 5 0 ∷ row_at 2 5 1 ∷ row_at 3 7 0 ∷ []

abbrev descending : List TxRow
descending = row_at 3 7 0 ∷ row_at 2 5 1 ∷ row_at 1 5 0 ∷ []

abbrev tables : TxTables
tables = record {
  select_account_tx_forward =
      λ t key c limit. returns (take limit (keep (passes true c) ascending));
  select_account_tx = λ t key c limit. returns (take limit (keep (passes false c) descending));
  select_nft_tx_forward = λ t key c limit. returns (take limit (keep (passes true c) []));
  select_nft_tx = λ t key c limit. returns (take limit (keep (passes false c) descending));
}

abbrev same_tx : ℕ → TransactionAndMetadata
same_tx hash = tx

descending-InOrder : InOrder false descending
descending-InOrder = (
  (omega arith, omega arith),
  (refl, (refl, tt)),
  ((omega arith, omega arith), (refl, tt), ((omega arith, omega arith), tt, tt)),
)

pages_complete_example :
    Serves
      (Known range)
      (read_all 4 (fetch_account_transactions server tables 8 2 false) none)
      (tx ∷ tx ∷ tx ∷ [])
    × Serves
        (Known range)
        (read_all 4 (fetch_nft_transactions server tables 9 2 false) none)
        (tx ∷ tx ∷ tx ∷ [])
pages_complete_example =
    pages_complete range server tables same_tx (λ t hash. refl) 8 9 1 false descending descending
      (λ t c limit. refl) (λ t c limit. refl) descending-InOrder descending-InOrder
