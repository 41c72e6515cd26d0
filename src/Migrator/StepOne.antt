-- ===== src/Migrator/StepOne.antt =====
-- The first step: the tokens minted by the transactions of nf_token_transactions
-- (doMigrationStepOne of src/main/main.cpp).
pub mod Minted
pub mod Pages
pub mod Complete
pub mod Total
pub mod Cache
use clio_migrator.Prelude.{
  ℕ, zero, suc, List, [], ◌∷◌, ◌++◌, Bool, true, false, Option, none, some, ltb, if◌then◌else◌,
}
use clio_migrator.Types.{TransactionAndMetadata, LedgerRange}
use clio_migrator.Outcome.{
  Outcome, returns, throws, value, traverse, no_transaction_hash, out_of_fuel,
}
use clio_migrator.Outcome
use clio_migrator.Ripple.{Ripple, TxType, nftoken_mint}
use clio_migrator.Nft.Data.{NftsData}
use clio_migrator.Nft.FromTx.{get_nft_data_from_tx}
use clio_migrator.Database.{Cassandra, World, M, ◌>>=◌, pure, lift, go_on}
use clio_migrator.Migrator.Retry.{do_try_get_tx_page_result, do_try_fetch_transactions}
use clio_migrator.Migrator.Batch.{flush, maybe_do_nft_write}

-- `cass_value_get_bytes` on the column of a row
abbrev pub hash_of_row : Option ℕ → Outcome ℕ
hash_of_row none = throws no_transaction_hash
hash_of_row (some hash) = returns hash

abbrev pub is_mint : TxType → Bool
is_mint nftoken_mint = true
is_mint _ = false

module _ (r : Ripple) where
  open r use {StObject, parse_st_tx, parse_tx_meta, get_txn_type, get_transaction_id}

  -- The record of a mint, appended to those so far.
  unfoldable pub mint_data : TransactionAndMetadata → StObject → Outcome (List NftsData)
  mint_data tx sttx =
      Outcome.◌>>=◌ (parse_tx_meta (get_transaction_id sttx) tx.ledger_sequence tx.metadata)
        (λ meta.
          Outcome.◌>>=◌ (get_nft_data_from_tx r meta sttx)
            (λ d. Outcome.◌>>=◌ (value d.1) (λ nft. returns (nft ∷ []))))

  -- One round of the loop over the transactions of a page.
  unfoldable pub tx_data : ℕ → TransactionAndMetadata → Outcome (List NftsData)
  unfolding mint_data
  tx_data max_sequence tx =
      if ltb max_sequence tx.ledger_sequence
      then returns []
      else Outcome.◌>>=◌ (parse_st_tx tx.transaction)
          (λ sttx. if is_mint (get_txn_type sttx) then mint_data tx sttx else returns [])

  unfoldable pub txs_data : ℕ → List TransactionAndMetadata → Outcome (List NftsData)
  unfolding tx_data
  txs_data max_sequence [] = returns []
  txs_data max_sequence (tx ∷ txs) =
      Outcome.◌>>=◌ (tx_data max_sequence tx)
        (λ ds. Outcome.◌>>=◌ (txs_data max_sequence txs) (λ es. returns (ds ++ es)))

  module _ (db : Cassandra) where
    -- The loop over the pages from a paging state on, with the records still to be written.
    unfoldable pub step_one_loop : ℕ → ℕ → Option ℕ → List NftsData → M (List NftsData)
    unfolding txs_data
    step_one_loop zero max_sequence paging to_write = lift (throws out_of_fuel)
    step_one_loop (suc fuel) max_sequence paging to_write = do
      page ← do_try_get_tx_page_result db paging 0
      tx_hashes ← lift (traverse hash_of_row page.hashes)
      txs ← do_try_fetch_transactions db tx_hashes 0
      ds ← lift (txs_data max_sequence txs)
      rest ← maybe_do_nft_write r (to_write ++ ds)
      go_on (λ state. step_one_loop fuel max_sequence (some state) rest) (pure rest) page.next

    unfoldable pub do_migration_step_one : ℕ → LedgerRange → M (Unit {0})
    unfolding step_one_loop
    do_migration_step_one fuel ledger_range = do
      to_write ← step_one_loop fuel ledger_range.max_sequence none []
      flush r to_write
