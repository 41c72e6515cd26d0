-- ===== src/Migrator/StepOne/Cache.antt =====
-- The first step leaves the cache of the backend alone (doMigrationStepOne of src/main/main.cpp): it
-- reads transactions, which are not cached.
use clio_migrator.Prelude.{
  ℕ, zero, suc, ◌≡◌, refl, ◌∙◌, List, [], ◌∷◌, ◌++◌, Option, none, some, ltb, if_cases, length,
}
use clio_migrator.Types.{LedgerRange}
use clio_migrator.Outcome.{Outcome, returns, throws, database_timeout, traverse, too_many_retries}
use clio_migrator.Ripple.{Ripple}
use clio_migrator.Nft.Data.{NftsData}
use clio_migrator.Database.{
  Cassandra, TxPage, World, M, ◌>>=◌, and_then, pure, lift, ask, on_timeout, traverse_m, go_on,
}
use clio_migrator.Backend.Reads.{fetch_transactions, collect, no_transaction}
use clio_migrator.Backend.Writes.{write_nfts}
use clio_migrator.Migrator.Retry.{
  retry, max_retries, after_wait, page_or, get_tx_page, do_try_get_tx_page_result,
  do_try_fetch_transactions,
}
use clio_migrator.Migrator.Batch.{do_nft_write, maybe_do_nft_write, nft_write_batch_size, flush}
use clio_migrator.Migrator.StepOne.{hash_of_row, txs_data, step_one_loop, do_migration_step_one}

abbrev pub KeepsCache : {A : Type 0} → M A → Type 0
KeepsCache m = (w : World) → (m w).1.cache ≡ w.cache

pub KeepsCache-bind :
    {A B : Type 0} (m : M A) (f : A → M B)
    → KeepsCache m
    → ((a : A) → KeepsCache (f a))
    → KeepsCache (m >>= f)
KeepsCache-bind {A} m f hm hf w = go (m w) ∙ hm w
  where
    go : (x : Outcome A × World) → (and_then x f).1.cache ≡ x.1.cache
    go (returns a, v) = hf a v
    go (throws e, v) = refl

KeepsCache-traverse :
    {A B : Type 0} (f : A → M B) (xs : List A)
    → ((x : A) → KeepsCache (f x))
    → KeepsCache (traverse_m f xs)
KeepsCache-traverse f [] h = λ w. refl
KeepsCache-traverse f (x ∷ xs) h =
    KeepsCache-bind (f x) (λ y. traverse_m f xs >>= λ ys. pure (y ∷ ys)) (h x)
      λ y.
        KeepsCache-bind (traverse_m f xs) (λ ys. pure (y ∷ ys)) (KeepsCache-traverse f xs h)
          λ ys w. refl

on_timeout_cache :
    {A : Type 0} (handler : M A) (x : Outcome A × World)
    → KeepsCache handler
    → (on_timeout handler x).1.cache ≡ x.1.cache
on_timeout_cache handler (returns a, v) h = refl
on_timeout_cache handler (throws database_timeout, v) h = h v
on_timeout_cache handler (throws e, v) h = refl

KeepsCache-retry : {A : Type 0} (left : ℕ) (op : M A) → KeepsCache op → KeepsCache (retry left op)
unfolding retry
KeepsCache-retry zero op h = h
KeepsCache-retry (suc left) op h = λ w.
    on_timeout_cache (λ u. retry left op (after_wait u)) (op w)
      (λ u. KeepsCache-retry left op h (after_wait u))
    ∙ h w

KeepsCache-page_or :
    (again : M TxPage) (o : Option TxPage) → KeepsCache again → KeepsCache (page_or again o)
unfolding page_or
KeepsCache-page_or again none h = h
KeepsCache-page_or again (some p) h = λ w. refl

KeepsCache-go_on :
    {A : Type 0} (again : ℕ → M A) (a : A) (next : Option ℕ)
    → ((state : ℕ) → KeepsCache (again state))
    → KeepsCache (go_on again (pure a) next)
KeepsCache-go_on again a none h = λ w. refl
KeepsCache-go_on again a (some state) h = h state

module _ (r : Ripple) where
  pub written_cache : (ds : List NftsData) → KeepsCache (do_nft_write r ds)
  unfolding do_nft_write write_nfts
  written_cache [] = λ w. refl
  written_cache (d ∷ ds) = λ w. refl

  pub batch_cache : (ds : List NftsData) → KeepsCache (maybe_do_nft_write r ds)
  unfolding maybe_do_nft_write
  batch_cache ds =
      if_cases {A = M (List NftsData)} KeepsCache (ltb (length ds) nft_write_batch_size)
        (λ e w. refl) (λ e. written_cache ds)

module _ (db : Cassandra) where
  KeepsCache-page : (left : ℕ) (paging : Option ℕ) → KeepsCache (get_tx_page db left paging)
  unfolding get_tx_page
  KeepsCache-page zero paging =
      KeepsCache-bind (ask (λ t. db.execute_tx_page t paging))
        (page_or (lift (throws too_many_retries))) (λ w. refl)
        λ o. KeepsCache-page_or (lift (throws too_many_retries)) o (λ w. refl)
  KeepsCache-page (suc left) paging =
      let again = λ (w : World). get_tx_page db left paging (after_wait w) in
      KeepsCache-bind (ask (λ t. db.execute_tx_page t paging)) (page_or again) (λ w. refl)
        λ o. KeepsCache-page_or again o (λ w. KeepsCache-page left paging (after_wait w))

  KeepsCache-fetch : (hashes : List ℕ) → KeepsCache (fetch_transactions db hashes)
  unfolding fetch_transactions
  KeepsCache-fetch [] = λ w. refl
  KeepsCache-fetch (h ∷ hs) =
      KeepsCache-bind (traverse_m (λ hash. ask (λ t. db.select_transaction_async t hash)) (h ∷ hs))
        (λ answers. lift (collect no_transaction answers))
        (KeepsCache-traverse (λ hash. ask (λ t. db.select_transaction_async t hash)) (h ∷ hs)
          (λ hash w. refl))
        λ answers w. refl

  module _ (r : Ripple) where
    KeepsCache-loop :
        (fuel max : ℕ) (paging : Option ℕ) (to_write : List NftsData)
        → KeepsCache (step_one_loop r db fuel max paging to_write)
    unfolding step_one_loop do_try_get_tx_page_result do_try_fetch_transactions
    KeepsCache-loop zero max paging to_write = λ w. refl
    KeepsCache-loop (suc fuel) max paging to_write =
        KeepsCache-bind (get_tx_page db max_retries paging) _ (KeepsCache-page max_retries paging)
          λ page.
            KeepsCache-bind (lift (traverse hash_of_row page.hashes)) _ (λ w. refl)
              λ hashes.
                KeepsCache-bind (retry max_retries (fetch_transactions db hashes)) _
                  (KeepsCache-retry max_retries (fetch_transactions db hashes)
                    (KeepsCache-fetch hashes))
                  λ txs.
                    KeepsCache-bind (lift (txs_data r max txs)) _ (λ w. refl)
                      λ ds.
                        KeepsCache-bind (maybe_do_nft_write r (to_write ++ ds)) _
                          (batch_cache r (to_write ++ ds))
                          λ rest.
                            KeepsCache-go_on
                              (λ state. step_one_loop r db fuel max (some state) rest) rest
                              page.next λ state. KeepsCache-loop fuel max (some state) rest

    pub step_one_cache :
        (fuel : ℕ) (range : LedgerRange) → KeepsCache (do_migration_step_one r db fuel range)
    unfolding do_migration_step_one
    step_one_cache fuel range =
        KeepsCache-bind (step_one_loop r db fuel range.max_sequence none []) (flush r)
          (KeepsCache-loop fuel range.max_sequence none [])
          λ rest.
            KeepsCache-bind (do_nft_write r rest) (λ _. pure tt) (written_cache r rest)
              (λ u w. refl)
