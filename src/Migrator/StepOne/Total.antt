-- ===== src/Migrator/StepOne/Total.antt =====
-- The first step comes to its end (doMigrationStepOne of src/main/main.cpp).
use clio_migrator.Prelude.{
  All, All-weaken, All-front, All-back, ℕ, zero, suc, ◌≤◌, ◌≡◌, refl, sym, ap, subst, ◌∙◌, List, [],
  ◌∷◌, ◌++◌, false, Option, none, some, map, map-append, append-nil, arith, length,
}
use clio_migrator.Types.{TransactionAndMetadata, LedgerRange}
use clio_migrator.Outcome.{returns, >>=-eq-returns}
use clio_migrator.Ripple.{Ripple}
use clio_migrator.Nft.Data.{NftsData}
use clio_migrator.Database.{
  Cassandra, Answer, failed, no_row, row, TxPage, World, M, ◌>>=◌, pure, lift, ask, go_on,
}
use clio_migrator.Backend.Reads.{fetch_transactions, collect, has_failed, row_or, no_transaction}
use clio_migrator.Migrator.Retry.{
  get_tx_page, page_or, do_try_get_tx_page_result, do_try_fetch_transactions, max_retries,
}
use clio_migrator.Migrator.Log.{Pairs}
use clio_migrator.Migrator.Returns.{
  Returns, Returns-bind, Returns-pure, Returns-lift, Returns-ask, Returns-traverse, Returns-retry,
}
use clio_migrator.Migrator.Batch.{maybe_do_nft_write, flush, Returns-batch, Returns-flush}
use clio_migrator.Migrator.StepOne.{tx_data, txs_data, step_one_loop, do_migration_step_one}
use clio_migrator.Migrator.StepOne.Pages.{concat, traverse_hashes}

-- The table answers every request for a transaction.
abbrev pub AnswersTransaction : Cassandra → (ℕ → TransactionAndMetadata) → ℕ → Type 0
AnswersTransaction db tx_of hash = (t : ℕ) → db.select_transaction_async t hash ≡ row (tx_of hash)

-- The table answers every request for a page.
abbrev pub AnswersPages : Cassandra → Option ℕ → List (List ℕ) → Type 0
AnswersPages db paging [] = ⊥
AnswersPages db paging (p ∷ []) =
    (t : ℕ) → db.execute_tx_page t paging ≡ some (record { hashes = map some p; next = none })
AnswersPages db paging (p ∷ q ∷ ps) =
    (state : ℕ) × ((t : ℕ)
      → db.execute_tx_page t paging ≡ some (record { hashes = map some p; next = some state }))
    × AnswersPages db (some state) (q ∷ ps)

module _ (r : Ripple) (max : ℕ) where
  txs_data-split :
      (xs ys : List TransactionAndMetadata) (ds : List NftsData)
      → txs_data r max (xs ++ ys) ≡ returns ds
      → ((es : List NftsData) × (txs_data r max xs ≡ returns es))
        × ((es : List NftsData) × (txs_data r max ys ≡ returns es))
  unfolding txs_data
  txs_data-split [] ys ds h = (([], refl), (ds, h))
  txs_data-split (x ∷ xs) ys ds h =
      let (d, e, h₁) = >>=-eq-returns (tx_data r max x) _ h in
      let (es, f, h₂) = >>=-eq-returns (txs_data r max (xs ++ ys)) _ h₁ in
      let ((us, g), k) = txs_data-split xs ys es f in ((d ++ us, rw (e, g)), k)

  module _ (db : Cassandra) (tx_of : ℕ → TransactionAndMetadata) where
    IsRow : ℕ → Answer TransactionAndMetadata → Type 0
    IsRow hash a = a ≡ row (tx_of hash)

    rows_collect :
        (hashes : List ℕ) (as' : List (Answer TransactionAndMetadata))
        → Pairs IsRow hashes as'
        → (has_failed as' ≡ false) × (map (row_or no_transaction) as' ≡ map tx_of hashes)
    unfolding IsRow
    rows_collect [] [] p = (refl, refl)
    rows_collect [] (a ∷ as') p = elim p [ ]
    rows_collect (k ∷ ks) [] p = elim p [ ]
    rows_collect (k ∷ ks) (failed ∷ as') (e, p) = absurd (ground arith)
    rows_collect (k ∷ ks) (no_row ∷ as') (e, p) = absurd (ground arith)
    rows_collect (k ∷ ks) (row a ∷ as') (e, p) = ground (arith, rows_collect ks as' p)

    Returns-fetch :
        (hashes : List ℕ)
        → All (AnswersTransaction db tx_of) hashes
        → Returns (λ txs. txs ≡ map tx_of hashes) (fetch_transactions db hashes)
    unfolding fetch_transactions collect IsRow
    Returns-fetch [] answers = Returns-pure _ [] refl
    Returns-fetch (h ∷ hs) answers =
        Returns-bind (Pairs IsRow (h ∷ hs)) (λ txs. txs ≡ map tx_of (h ∷ hs)) _ _
          (Returns-traverse IsRow (λ hash. ask (λ t. db.select_transaction_async t hash)) (h ∷ hs)
            (All-weaken _ _ (h ∷ hs) (λ k a. Returns-ask (IsRow k) _ a) answers))
          λ as' p.
            let (e, q) = rows_collect (h ∷ hs) as' p in
            Returns-lift _ (collect no_transaction as') (map tx_of (h ∷ hs)) (rw e (ap returns q))
              refl

    Returns-page :
        (paging : Option ℕ) (page : TxPage)
        → ((t : ℕ) → db.execute_tx_page t paging ≡ some page)
        → Returns (λ p. p ≡ page) (do_try_get_tx_page_result db paging 0)
    unfolding do_try_get_tx_page_result get_tx_page page_or
    Returns-page paging page h =
        Returns-bind (λ o. o ≡ some page) _ _ (page_or _) (Returns-ask _ _ h)
          λ o e. rw (e, page_or) (Returns-pure _ page refl)

    Returns-try_fetch :
        (hashes : List ℕ)
        → All (AnswersTransaction db tx_of) hashes
        → Returns (λ txs. txs ≡ map tx_of hashes) (do_try_fetch_transactions db hashes 0)
    unfolding do_try_fetch_transactions
    Returns-try_fetch hashes answers =
        Returns-retry (λ txs. txs ≡ map tx_of hashes) max_retries (fetch_transactions db hashes)
          (Returns-fetch hashes answers)

    abbrev Done : {A : Type 0} → A → Type 0
    Done a = Unit {0}

    abbrev next_round : ℕ → Option ℕ → List NftsData → M (List NftsData)
    next_round fuel next rest =
        go_on (λ state. step_one_loop r db fuel max (some state) rest) (pure rest) next

    abbrev with_data : ℕ → Option ℕ → List NftsData → List NftsData → M (List NftsData)
    with_data fuel next to_write ds =
        maybe_do_nft_write r (to_write ++ ds) >>= λ rest. next_round fuel next rest

    after_hashes :
        (p : List ℕ) (next : Option ℕ) (fuel : ℕ) (to_write ds : List NftsData)
        → All (AnswersTransaction db tx_of) p
        → txs_data r max (map tx_of p) ≡ returns ds
        → ((rest : List NftsData) → Returns Done (next_round fuel next rest))
        → Returns Done (
            do_try_fetch_transactions db p 0 >>= λ txs.
            lift (txs_data r max txs) >>= with_data fuel next to_write)
    after_hashes p next fuel to_write ds answers e k =
        Returns-bind (λ txs. txs ≡ map tx_of p) Done (do_try_fetch_transactions db p 0) _
          (Returns-try_fetch p answers)
          λ txs ht.
            rw (ht, e)
              (Returns-bind (λ x. Unit {0}) Done (maybe_do_nft_write r (to_write ++ ds)) _
                (Returns-batch r (to_write ++ ds)) λ rest u. k rest)

    round :
        (p : List ℕ) (paging next : Option ℕ) (fuel : ℕ) (to_write ds : List NftsData)
        → All (AnswersTransaction db tx_of) p
        → ((t : ℕ)
            → db.execute_tx_page t paging ≡ some (record { hashes = map some p; next = next }))
        → txs_data r max (map tx_of p) ≡ returns ds
        → ((rest : List NftsData) → Returns Done (next_round fuel next rest))
        → Returns Done (step_one_loop r db (suc fuel) max paging to_write)
    unfolding step_one_loop
    round p paging next fuel to_write ds answers h e k =
        Returns-bind (λ x. x ≡ record { hashes = map some p; next = next }) Done
          (do_try_get_tx_page_result db paging 0) _
          (Returns-page paging (record { hashes = map some p; next = next }) h)
          λ page hp. rw (hp, traverse_hashes p) (after_hashes p next fuel to_write ds answers e k)

    loop :
        (fuel : ℕ) (paging : Option ℕ) (ps : List (List ℕ)) (to_write ds : List NftsData)
        → length ps ≤ fuel
        → All (AnswersTransaction db tx_of) (concat ps)
        → AnswersPages db paging ps
        → txs_data r max (map tx_of (concat ps)) ≡ returns ds
        → Returns Done (step_one_loop r db fuel max paging to_write)
    loop fuel paging [] to_write ds l answers h e = elim h [ ]
    loop zero paging (p ∷ ps) to_write ds l answers h e = absurd (omega arith)
    loop (suc fuel) paging (p ∷ []) to_write ds l answers h e =
        round p paging none fuel to_write ds (All-front _ p [] answers) h
          (subst (λ hs. txs_data r max (map tx_of hs) ≡ returns ds) (append-nil p) e)
          (λ rest. Returns-pure Done rest tt)
    loop (suc fuel) paging (p ∷ q ∷ ps) to_write ds l answers (state, serves, h) e =
        let ((es, f), (gs, g)) =
          txs_data-split (map tx_of p) (map tx_of (concat (q ∷ ps))) ds
            (rw (sym (map-append tx_of p (concat (q ∷ ps)))) e) in
        round p paging (some state) fuel to_write es (All-front _ p (concat (q ∷ ps)) answers)
          serves f
          (λ rest.
            loop fuel (some state) (q ∷ ps) rest gs (omega arith)
              (All-back _ p (concat (q ∷ ps)) answers) h g)

-- Over a table of these pages whose reads do not fail, the first step comes to its end if its
-- transactions can be read: one round for each page is enough.
pub step_one_returns :
    (r : Ripple) (db : Cassandra) (tx_of : ℕ → TransactionAndMetadata) (fuel : ℕ)
    (range : LedgerRange) (ps : List (List ℕ)) (ds : List NftsData) (w : World)
    → All (AnswersTransaction db tx_of) (concat ps)
    → AnswersPages db none ps
    → length ps ≤ fuel
    → txs_data r range.max_sequence (map tx_of (concat ps)) ≡ returns ds
    → (do_migration_step_one r db fuel range w).0 ≡ returns tt
unfolding do_migration_step_one
step_one_returns r db tx_of fuel range ps ds w answers h l e =
    let (u, v, p, q) =
      Returns-bind (λ (x : List NftsData). Unit {0}) (λ u. u ≡ tt)
        (step_one_loop r db fuel range.max_sequence none []) (flush r)
        (loop r range.max_sequence db tx_of fuel none ps [] ds l answers h e)
        (λ rest d. Returns-flush r rest) w in
    ap (λ x. x.0) p ∙ ap returns q
