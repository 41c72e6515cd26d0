-- ===== src/Migrator/Migration/Total.antt =====
-- The whole migration over a database that holds its tables and its ledger (doMigration of
-- src/main/main.cpp).
use clio_migrator.Prelude.{
  All, All-weaken, ℕ, ◌<◌, ◌≤◌, ◌+◌, ◌≡◌, sym, ap, ◌∙◌, inr, List, [], ◌∷◌, ◌++◌, Option, none,
  some, map, length, append-nil,
}
use clio_migrator.Types.{Blob, TransactionAndMetadata, LedgerRange}
use clio_migrator.Outcome.{returns, returns-injective}
use clio_migrator.Ripple.{Ripple}
use clio_migrator.Nft.Data.{NftsData}
use clio_migrator.Database.{Cassandra, World, and_then, ◌>>◌}
use clio_migrator.Backend.Reads.{range_of_rows}
use clio_migrator.Backend.Reads.Range.{AnswersAfter, range_returns}
use clio_migrator.Backend.Writes.{rows}
use clio_migrator.Backend.Ledger.{HoldsLedger, HasEmptyCache, objects_of}
use clio_migrator.Migrator.Log.{inserts, inserts-append}
use clio_migrator.Migrator.StepOne.{do_migration_step_one}
use clio_migrator.Migrator.StepOne.Minted.{Minted, txs_data_iff}
use clio_migrator.Migrator.StepOne.Pages.{concat, HasPages}
use clio_migrator.Migrator.StepOne.Complete.{step_one_writes}
use clio_migrator.Migrator.StepOne.Total.{AnswersTransaction, AnswersPages, step_one_returns}
use clio_migrator.Migrator.StepOne.Cache.{step_one_cache}
use clio_migrator.Migrator.StepTwo.{objects_data, do_migration_step_two}
use clio_migrator.Migrator.StepTwo.Total.{step_two_total}
use clio_migrator.Migrator.Migration.{
  do_migration_step_three, migrate_range, migrate_if, do_migration,
}

step_three-inserts :
    (db : Cassandra) (w : World) → inserts (do_migration_step_three db w).1.log ≡ inserts w.log
unfolding do_migration_step_three inserts
step_three-inserts db w =
    inserts-append (w.log ++ _ ∷ []) _ ∙ append-nil _ ∙ inserts-append w.log _ ∙ append-nil _

HasPages-answered :
    (db : Cassandra) (paging : Option ℕ) (ps : List (List ℕ))
    → AnswersPages db paging ps
    → HasPages db paging ps
HasPages-answered db paging [] h = h
HasPages-answered db paging (p ∷ []) h = λ t. inr (h t)
HasPages-answered db paging (p ∷ q ∷ ps) (state, serves, h) =
    (state, (λ t. inr (serves t)), HasPages-answered db (some state) (q ∷ ps) h)

module _ (r : Ripple) (db : Cassandra) (fuel : ℕ) (ts ds : List NftsData) where
  -- What is left to do after the range has been read.
  steps_total :
      (range : LedgerRange) (tx_of : ℕ → TransactionAndMetadata) (ps : List (List ℕ)) (ks : List ℕ)
      (blob : ℕ → Blob) (w : World)
      → All (AnswersTransaction db tx_of) (concat ps)
      → AnswersPages db none ps
      → HoldsLedger db range.min_sequence ks blob
      → HasEmptyCache w
      → Minted r range.max_sequence (map tx_of (concat ps)) ts
      → objects_data r range.min_sequence (objects_of blob ks) ≡ returns ds
      → length ps ≤ fuel
      → length ks < fuel
      → ((migrate_range r db fuel range w).0 ≡ returns tt)
        × (inserts (migrate_range r db fuel range w).1.log
            ≡ (inserts w.log ++ rows r ts) ++ rows r ds)
  unfolding migrate_range
  steps_total range tx_of ps ks blob w answers pages holds cache p q l k =
      let read = txs_data_iff r range.max_sequence (map tx_of (concat ps)) in
      let e = step_one_returns r db tx_of fuel range ps ts w answers pages l ((read ts).1 p) in
      let (ts', p', i) =
        step_one_writes r db tx_of fuel range ps w (HasPages-answered db none ps pages)
          (All-weaken _ _ (concat ps) (λ hash a t. inr (a t)) answers) e in
      let same = step_one_cache db r fuel range w in
      let v = (do_migration_step_one r db fuel range w).1 in
      let (f, j) =
        step_two_total r db fuel range ks blob ds v holds q
          (record {
            no_entries = ap (λ c. c.entries) same ∙ cache.no_entries;
            not_full = ap (λ c. c.full) same ∙ cache.not_full;
          })
          k in
      let u = (do_migration_step_two r db fuel range v).1 in
      let run : (do_migration_step_one r db fuel range
              >> (do_migration_step_two r db fuel range >> do_migration_step_three db))
            w
          ≡ do_migration_step_three db u =
        ap
          (λ o.
            and_then (o, v)
              (λ _. do_migration_step_two r db fuel range >> do_migration_step_three db))
          e
        ∙ ap (λ o. and_then (o, u) (λ _. do_migration_step_three db)) f in
      (
        ap (λ x. x.0) run,
        ap (λ x. inserts x.1.log) run
            ∙ step_three-inserts db u
            ∙ j
            ∙ ap (λ l. l ++ rows r ds)
                (i
                  ∙ ap (λ x. inserts w.log ++ rows r x)
                      (returns-injective ts' ts (sym ((read ts').1 p') ∙ (read ts).1 p))),
      )

-- If the database answers every read of the migration, but for some timeouts before it gives the
-- ledger range, and the transactions and the objects of the initial ledger can be read, then the
-- migration of a program with an empty cache returns. It has inserted exactly the rows of the tokens
-- minted up to the last ledger in all the pages of nf_token_transactions, in order, then those of the tokens in all the
-- objects of the initial ledger, in the order of their keys. It is enough to have more fuel than
-- timeouts and keys of the ledger, and as much as pages.
pub migration_total :
    (r : Ripple) (db : Cassandra) (fuel timeouts : ℕ) (found : List ℕ) (range : LedgerRange)
    (tx_of : ℕ → TransactionAndMetadata) (ps : List (List ℕ)) (ks : List ℕ) (blob : ℕ → Blob)
    (ts ds : List NftsData) (w : World)
    → AnswersAfter db w.now timeouts found
    → range_of_rows found ≡ some range
    → All (AnswersTransaction db tx_of) (concat ps)
    → AnswersPages db none ps
    → HoldsLedger db range.min_sequence ks blob
    → HasEmptyCache w
    → Minted r range.max_sequence (map tx_of (concat ps)) ts
    → objects_data r range.min_sequence (objects_of blob ks) ≡ returns ds
    → timeouts < fuel
    → length ps ≤ fuel
    → length ks < fuel
    → ((do_migration r db fuel w).0 ≡ returns tt)
      × (inserts (do_migration r db fuel w).1.log ≡ (inserts w.log ++ rows r ts) ++ rows r ds)
unfolding do_migration migrate_if
migration_total r db fuel timeouts found range tx_of ps ks blob ts ds w waits has answers pages
      holds cache p q few l k =
    let v = record w { now = w.now + (timeouts + 1) } in
    let (e, i) =
      steps_total r db fuel ts ds range tx_of ps ks blob v answers pages holds
        (record { no_entries = cache.no_entries; not_full = cache.not_full }) p q l k in
    let run : do_migration r db fuel w ≡ migrate_range r db fuel range v =
      ap (λ x. and_then x (migrate_if r db fuel)) (range_returns db timeouts fuel w found waits few)
      ∙ ap (λ o. migrate_if r db fuel o v) has in
    (ap (λ x. x.0) run ∙ e, ap (λ x. inserts x.1.log) run ∙ i)
