-- ===== src/Migrator/Retry.antt =====
-- Reads that are tried again after a timeout (doTryFetchTransactions, doTryFetchLedgerPage and
-- doTryGetTxPageResult of src/main/main.cpp, and their like in src/main/verify.cpp). `left` is
-- MAX_RETRIES less the attempts made, at least 0: the test `attempts >= MAX_RETRIES` is `left` = 0.
use clio_migrator.Prelude.{
  ℕ, zero, suc, ◌-◌, ◌≤◌, ◌≡◌, ◌≢◌, ◌⊎◌, inl, inr, refl, List, [], ◌∷◌, ◌++◌, Option, none, some,
  false, arith,
}
use clio_migrator.Types.{TransactionAndMetadata, LedgerPage}
use clio_migrator.Outcome.{Outcome, returns, throws, database_timeout, too_many_retries}
use clio_migrator.Database.{
  Cassandra, TxPage, World, M, waited, ◌>>=◌, ◌>>◌, pure, lift, ask, emit, catch_timeout,
  on_timeout,
}
use clio_migrator.Backend.Reads.{fetch_transactions}
use clio_migrator.Backend.Page.{fetch_ledger_page}

abbrev pub max_retries : ℕ
max_retries = 5

abbrev pub wait : M (Unit {0})
wait = emit (waited ∷ [])

-- The body that the functions share: on a timeout, wait and try again, `left` times at most; the
-- last timeout is passed on.
unfoldable pub retry : {A : Type 0} → ℕ → M A → M A
retry zero op = op
retry (suc left) op = let again = (do wait; retry left op) in catch_timeout op again

-- A result, or what is done about a null pointer.
unfoldable pub page_or : M TxPage → Option TxPage → M TxPage
page_or again none = again
page_or again (some page) = pure page

module _ (db : Cassandra) where
  open db use {execute_tx_page}

  unfoldable pub do_try_fetch_transactions : List ℕ → ℕ → M (List TransactionAndMetadata)
  unfolding retry
  do_try_fetch_transactions hashes attempts =
      retry (max_retries - attempts) (fetch_transactions db hashes)

  unfoldable pub do_try_fetch_ledger_page : Option ℕ → ℕ → ℕ → M LedgerPage
  unfolding retry
  do_try_fetch_ledger_page cursor sequence attempts =
      retry (max_retries - attempts) (fetch_ledger_page db cursor sequence 10000 false)

  unfoldable pub get_tx_page : ℕ → Option ℕ → M TxPage
  unfolding page_or
  get_tx_page zero paging = do
    result ← ask (λ t. execute_tx_page t paging)
    page_or (lift (throws too_many_retries)) result
  get_tx_page (suc left) paging =
      let again = (do wait; get_tx_page left paging) in
      do result ← ask (λ t. execute_tx_page t paging); page_or again result

  unfoldable pub do_try_get_tx_page_result : Option ℕ → ℕ → M TxPage
  unfolding get_tx_page
  do_try_get_tx_page_result paging attempts = get_tx_page (max_retries - attempts) paging

abbrev pub after_wait : World → World
after_wait w = record w { log = w.log ++ waited ∷ [] }

-- From `w`, the call times out `k` times in a row, with a wait after each, which leads to `v`.
abbrev pub TimesOut : {A : Type 0} → M A → ℕ → World → World → Type 0
TimesOut op zero w v = w ≡ v
TimesOut op (suc k) w v =
    (u : World) × (op w ≡ (throws database_timeout, u)) × TimesOut op k (after_wait u) v

on_timeout_other :
    {A : Type 0} (handler : M A) (o : Outcome A) (w : World)
    → o ≢ throws database_timeout
    → on_timeout handler (o, w) ≡ (o, w)
on_timeout_other handler (returns a) w h = refl
on_timeout_other handler (throws database_timeout) w h = absurd (h refl)
on_timeout_other handler (throws e) w h = refl

-- A call that is tried again comes back with what the first attempt that does not time out comes
-- back with, an error included, if at most `left` attempts time out before it; if one more does,
-- it comes back with the timeout. Each timeout but that last one is followed by a wait.
pub retry_result :
    {A : Type 0} (op : M A) (left k : ℕ) (w v v' : World) (o : Outcome A)
    → k ≤ left
    → TimesOut op k w v
    → op v ≡ (o, v')
    → (o ≢ throws database_timeout) ⊎ (k ≡ left)
    → retry left op w ≡ (o, v')
unfolding retry
retry_result op zero zero w v v' o h f e c = rw f e
retry_result op zero (suc k) w v v' o h f e c = absurd (omega arith)
retry_result op (suc left) zero w v v' o h f e (inl n) = rw (f, e) (on_timeout_other _ o v' n)
retry_result op (suc left) zero w v v' o h f e (inr q) = absurd (omega arith)
retry_result op (suc left) (suc k) w v v' o h (u, t, f) e (inl n) =
    rw t (retry_result op left k (after_wait u) v v' o (omega arith) f e (inl n))
retry_result op (suc left) (suc k) w v v' o h (u, t, f) e (inr q) =
    rw t (retry_result op left k (after_wait u) v v' o (omega arith) f e (inr (omega arith)))
