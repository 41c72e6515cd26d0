-- ===== src/Migrator/StepOne/Pages.antt =====
-- The table of the NFT transactions, and what the first step reads from it (doMigrationStepOne of
-- src/main/main.cpp).
use clio_migrator.Prelude.{
  ℕ, zero, suc, ◌-◌, ◌≡◌, ◌⊎◌, refl, sym, ◌∙◌, inl, inr, List, [], ◌∷◌, ◌++◌, false, Bool-cases,
  Option, none, some, map, arith, All, All-weaken,
}
use clio_migrator.Types.{TransactionAndMetadata}
use clio_migrator.Outcome.{
  returns, throws, database_timeout, returns-injective, returns≢throws, traverse, too_many_retries,
}
use clio_migrator.Database.{Cassandra, Answer, failed, no_row, row, TxPage, M, ◌>>◌, lift}
use clio_migrator.Backend.Reads.{fetch_transactions, collect, has_failed, row_or, no_transaction}
use clio_migrator.Migrator.Retry.{
  get_tx_page, do_try_get_tx_page_result, do_try_fetch_transactions, page_or, wait, max_retries,
}
use clio_migrator.Migrator.Log.{
  Reads, Reads-bind, Reads-pure, Reads-lift, Reads-ask, Reads-traverse, Reads-retry, Reads-wait,
  Pairs,
}
use clio_migrator.Migrator.StepOne.{hash_of_row}

-- From a paging state the table answers, whenever it answers at all, with this page.
abbrev pub Serves : Cassandra → Option ℕ → List ℕ → Option ℕ → Type 0
Serves db paging hashes next =
    (t : ℕ)
    → (db.execute_tx_page t paging ≡ none)
      ⊎ (db.execute_tx_page t paging ≡ some (record { hashes = map some hashes; next = next }))

-- From a paging state on, nf_token_transactions consists of these pages.
abbrev pub HasPages : Cassandra → Option ℕ → List (List ℕ) → Type 0
HasPages db paging [] = ⊥
HasPages db paging (p ∷ []) = Serves db paging p none
HasPages db paging (p ∷ q ∷ ps) =
    (state : ℕ) × Serves db paging p (some state) × HasPages db (some state) (q ∷ ps)

-- The row of a transaction, whenever the read of it does not fail.
abbrev pub HasTransaction : Cassandra → (ℕ → TransactionAndMetadata) → ℕ → Type 0
HasTransaction db tx_of hash =
    (t : ℕ)
    → (db.select_transaction_async t hash ≡ failed)
      ⊎ (db.select_transaction_async t hash ≡ row (tx_of hash))

abbrev pub concat : List (List ℕ) → List ℕ
concat [] = []
concat (p ∷ ps) = p ++ concat ps

module _ (db : Cassandra) (tx_of : ℕ → TransactionAndMetadata) where
  IsAnswer : ℕ → Answer TransactionAndMetadata → Type 0
  IsAnswer hash a = (a ≡ failed) ⊎ (a ≡ row (tx_of hash))

  collect-map :
      (hashes : List ℕ) (answers : List (Answer TransactionAndMetadata))
      → Pairs IsAnswer hashes answers
      → has_failed answers ≡ false
      → map (row_or no_transaction) answers ≡ map tx_of hashes
  unfolding IsAnswer
  collect-map [] [] p h = refl
  collect-map [] (a ∷ as') p h = elim p [ ]
  collect-map (k ∷ ks) [] p h = elim p [ ]
  collect-map (k ∷ ks) (failed ∷ as') p h = cc
  collect-map (k ∷ ks) (no_row ∷ as') (inl e, p) h = absurd (ground arith)
  collect-map (k ∷ ks) (no_row ∷ as') (inr e, p) h = absurd (ground arith)
  collect-map (k ∷ ks) (row a ∷ as') (inl e, p) h = absurd (ground arith)
  collect-map (k ∷ ks) (row a ∷ as') (inr e, p) h = ground (arith, collect-map ks as' p h)

  collect_transactions :
      (hashes : List ℕ) (answers : List (Answer TransactionAndMetadata))
      (txs : List TransactionAndMetadata)
      → Pairs IsAnswer hashes answers
      → collect no_transaction answers ≡ returns txs
      → txs ≡ map tx_of hashes
  unfolding collect
  collect_transactions hashes answers txs p h = elim (Bool-cases (has_failed answers)) [
    | inl e ↦ absurd (returns≢throws txs database_timeout (sym (rw e at h)))
    | inr e ↦ sym (returns-injective _ _ (rw e at h)) ∙ collect-map hashes answers p e
  ]

  Reads-fetch_transactions :
      (hashes : List ℕ)
      → All (HasTransaction db tx_of) hashes
      → Reads (λ txs. txs ≡ map tx_of hashes) (fetch_transactions db hashes)
  unfolding fetch_transactions IsAnswer
  Reads-fetch_transactions [] stable = Reads-pure _ [] refl
  Reads-fetch_transactions (h ∷ hs) stable =
      Reads-bind (Pairs IsAnswer (h ∷ hs)) _ _ _
        (Reads-traverse IsAnswer _ (h ∷ hs)
          (All-weaken _ _ (h ∷ hs) (λ k s. Reads-ask (IsAnswer k) _ s) stable))
        (λ answers p. Reads-lift _ _ (λ txs e. collect_transactions (h ∷ hs) answers txs p e))

  pub Reads-do_try_fetch_transactions :
      (hashes : List ℕ) (attempts : ℕ)
      → All (HasTransaction db tx_of) hashes
      → Reads (λ txs. txs ≡ map tx_of hashes) (do_try_fetch_transactions db hashes attempts)
  unfolding do_try_fetch_transactions
  Reads-do_try_fetch_transactions hashes attempts stable =
      Reads-retry _ (max_retries - attempts) _ (Reads-fetch_transactions hashes stable)

module _ (db : Cassandra) (paging : Option ℕ) (hashes : List ℕ) (next : Option ℕ)
    (serves : Serves db paging hashes next) where
  IsPage : TxPage → Type 0
  IsPage page = page ≡ record { hashes = map some hashes; next = next }

  IsReply : Option TxPage → Type 0
  IsReply o = (o ≡ none) ⊎ (o ≡ some (record { hashes = map some hashes; next = next }))

  Reads-page_or :
      (again : M TxPage) (o : Option TxPage)
      → Reads IsPage again
      → IsReply o
      → Reads IsPage (page_or again o)
  unfolding page_or IsPage IsReply
  Reads-page_or again none h r = h
  Reads-page_or again (some page) h (inl e) = absurd (ground arith)
  Reads-page_or again (some page) h (inr e) = Reads-pure IsPage page (ground arith)

  Reads-get_tx_page : (left : ℕ) → Reads IsPage (get_tx_page db left paging)
  unfolding get_tx_page IsReply
  Reads-get_tx_page zero =
      Reads-bind IsReply IsPage _ (page_or (lift (throws too_many_retries)))
        (Reads-ask IsReply _ serves)
        λ o h.
          Reads-page_or (lift (throws too_many_retries)) o
            (Reads-lift IsPage _ (λ a e. absurd (returns≢throws a too_many_retries (sym e)))) h
  Reads-get_tx_page (suc left) =
      Reads-bind IsReply IsPage _ (page_or (wait >> get_tx_page db left paging))
        (Reads-ask IsReply _ serves)
        λ o h.
          Reads-page_or (wait >> get_tx_page db left paging) o
            (Reads-wait IsPage (get_tx_page db left paging) (Reads-get_tx_page left)) h

  pub Reads-do_try_get_tx_page_result :
      Reads
        (λ page. page ≡ record { hashes = map some hashes; next = next })
        (do_try_get_tx_page_result db paging 0)
  unfolding do_try_get_tx_page_result IsPage
  Reads-do_try_get_tx_page_result = Reads-get_tx_page 5

pub traverse_hashes : (hs : List ℕ) → traverse hash_of_row (map some hs) ≡ returns hs
traverse_hashes [] = refl
traverse_hashes (h ∷ hs) = rw (traverse_hashes hs)
