-- ===== src/Migrator/Tests.antt =====
-- The migration of src/main/main.cpp on small inputs.
use clio_migrator.Prelude.{
  length, ◌<◌, ℕ, ◌≡◌, refl, inl, inr, List, [], ◌∷◌, ◌++◌, some, map, arith,
}
use clio_migrator.Outcome.{returns, database_timeout, returns≢throws}
use clio_migrator.Database.{World, M, ask_outcome, waited}
use clio_migrator.Nft.Sample.{sample}
use clio_migrator.Nft.Data.{NftsData, minted_data, has_token}
use clio_migrator.Nft.Sample.{mint_meta}
use clio_migrator.Nft.Algorithms.{sort, insert_sorted, set_difference}
use clio_migrator.Nft.FromTx.{get_nft_data_from_tx}
use clio_migrator.Nft.FromObj.{get_nft_data_from_obj}
use clio_migrator.Backend.Page.{fetch_ledger_page}
use clio_migrator.Cache.{get, get_successor}
use clio_migrator.Cache.Sorted.{find, upper_bound}
use clio_migrator.Backend.Writes.{rows}
use clio_migrator.Backend.Reads.{
  range_of_rows, hard_fetch_ledger_range, hard_fetch_ledger_range_no_throw, fetch_successor_key,
  fetch_ledger_objects, fetch_transactions,
}
use clio_migrator.Migrator.Batch.{maybe_do_nft_write, batch_keeps, nft_write_batch_size}
use clio_migrator.Nft.Mint.{get_nftoken_mint_data}
use clio_migrator.Backend.Reads.Range.{range_returns}
use clio_migrator.Migrator.Sample.{tx, server, start, range}
use clio_migrator.Migrator.Retry.{
  retry, after_wait, retry_result, do_try_fetch_ledger_page, do_try_get_tx_page_result,
  do_try_fetch_transactions,
}
use clio_migrator.Migrator.Log.{inserts}
use clio_migrator.Migrator.StepOne.{txs_data, do_migration_step_one}
use clio_migrator.Migrator.StepOne.Minted.{Minted, txs_data_iff}
use clio_migrator.Migrator.StepOne.Pages.{concat}
use clio_migrator.Migrator.StepOne.Complete.{step_one_writes}
use clio_migrator.Migrator.StepOne.Total.{step_one_returns}
use clio_migrator.Migrator.Migration.{do_migration}
use clio_migrator.Migrator.Migration.Total.{migration_total}
use clio_migrator.Migrator.LedgerSample.{
  keys, a_page, ledger_server, holds, start-HasEmptyCache, records, recorded,
}

program : Unit {0}
unfolding txs_data do_migration retry hard_fetch_ledger_range get_nft_data_from_tx
    get_nft_data_from_obj set_difference sort insert_sorted has_token fetch_ledger_page get
    get_successor find upper_bound do_try_fetch_ledger_page get_nftoken_mint_data
    fetch_successor_key fetch_ledger_objects maybe_do_nft_write hard_fetch_ledger_range_no_throw
    do_try_get_tx_page_result do_try_fetch_transactions fetch_transactions
program = tt

abbrev pages : List (List ℕ)
pages = (1 ∷ 2 ∷ []) ∷ (3 ∷ []) ∷ []

abbrev token : NftsData
token = minted_data sample 701 1500 (4 ∷ []) mint_meta

abbrev minted : List NftsData
minted = token ∷ token ∷ token ∷ []

all_minted : txs_data sample 7 (map (λ h. tx) (concat pages)) ≡ returns minted
unfolding program
all_minted = refl

are_minted : Minted sample 7 (map (λ h. tx) (concat pages)) minted
are_minted = (txs_data_iff sample 7 (map (λ h. tx) (concat pages)) minted).0 all_minted

step_one_returns_run : (do_migration_step_one sample server 2 range start).0 ≡ returns tt
step_one_returns_run =
    step_one_returns sample server (λ h. tx) 2 range pages minted start
      ((λ t. refl), ((λ t. refl), ((λ t. refl), tt))) (9, (λ t. refl), (λ t. refl)) (omega arith)
      all_minted

step_one_writes_example :
    (ds : List NftsData) × Minted sample 7 (map (λ h. tx) (concat pages)) ds
    × (inserts (do_migration_step_one sample server 2 range start).1.log
        ≡ inserts start.log ++ rows sample ds)
step_one_writes_example =
    step_one_writes sample server (λ h. tx) 2 range pages start
      (9, (λ t. inr refl), (λ t. inr refl))
      ((λ t. inr refl), ((λ t. inr refl), ((λ t. inr refl), tt))) step_one_returns_run

-- The first attempt times out, the second gives the rows.
abbrev read : M (List ℕ)
read = ask_outcome server.select_ledger_range

abbrev after_timeout : World
after_timeout = record start { now = 1 }

retry_result_example :
    retry 5 read start ≡ (returns (7 ∷ 5 ∷ []), record after_timeout { now = 2; log = waited ∷ [] })
retry_result_example =
    retry_result read 5 1 start (after_wait after_timeout)
      (record after_timeout { now = 2; log = waited ∷ [] }) (returns (7 ∷ 5 ∷ [])) (omega arith)
      (after_timeout, refl, refl) refl (inl (returns≢throws (7 ∷ 5 ∷ []) database_timeout))

range_returns_example :
    hard_fetch_ledger_range_no_throw server 3 start
    ≡ (returns (range_of_rows (7 ∷ 5 ∷ [])), record start { now = 2 })
range_returns_example = range_returns server 1 3 start (7 ∷ 5 ∷ []) (refl, refl) (omega arith)

batch_keeps_example :
    (rest : List NftsData) × ((maybe_do_nft_write sample minted start).0 ≡ returns rest)
    × (inserts (maybe_do_nft_write sample minted start).1.log ++ rows sample rest
        ≡ inserts start.log ++ rows sample minted)
    × (length rest < nft_write_batch_size)
batch_keeps_example = batch_keeps sample minted start

range_found : range_of_rows (7 ∷ 5 ∷ []) ≡ some range
unfolding range_of_rows
range_found = refl

migration_total_example :
    ((do_migration sample ledger_server 3 start).0 ≡ returns tt)
    × (inserts (do_migration sample ledger_server 3 start).1.log
        ≡ (inserts start.log ++ rows sample minted) ++ rows sample records)
migration_total_example =
    migration_total sample ledger_server 3 1 (7 ∷ 5 ∷ []) range (λ h. tx) pages keys a_page minted
      records start (refl, refl) range_found ((λ t. refl), ((λ t. refl), ((λ t. refl), tt)))
      (9, (λ t. refl), (λ t. refl)) (holds 5) start-HasEmptyCache are_minted recorded (omega arith)
      (omega arith) (omega arith)
