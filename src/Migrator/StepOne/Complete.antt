-- ===== src/Migrator/StepOne/Complete.antt =====
-- The first step writes what it should (doMigrationStepOne of src/main/main.cpp).
use clio_migrator.Prelude.{
  All, All-front, All-back, ℕ, zero, suc, ◌≡◌, refl, sym, ap, ◌∙◌, List, [], ◌∷◌, ◌++◌, append-nil,
  append_assoc, Option, none, some, map, map-append,
}
use clio_migrator.Types.{TransactionAndMetadata, LedgerRange}
use clio_migrator.Outcome.{
  Outcome, returns, throws, Exception, returns-injective, returns≢throws, out_of_fuel,
  >>=-eq-returns,
}
use clio_migrator.Ripple.{Ripple}
use clio_migrator.Nft.Data.{NftsData}
use clio_migrator.Database.{Cassandra, World, M, ◌>>=◌, and_then, pure, lift, go_on}
use clio_migrator.Backend.Writes.{rows}
use clio_migrator.Migrator.Retry.{do_try_get_tx_page_result, do_try_fetch_transactions}
use clio_migrator.Migrator.Log.{inserts, after_lift, after_read}
use clio_migrator.Migrator.Batch.{
  total-append, maybe_do_nft_write, after_batch, total, flush, flush-total,
}
use clio_migrator.Migrator.StepOne.{tx_data, txs_data, step_one_loop, do_migration_step_one}
use clio_migrator.Migrator.StepOne.Minted.{Minted, txs_data_iff}
use clio_migrator.Migrator.StepOne.Pages.{
  Serves, HasPages, HasTransaction, concat, Reads-do_try_fetch_transactions,
  Reads-do_try_get_tx_page_result, traverse_hashes,
}

module _ (r : Ripple) (max : ℕ) where
  pub txs_data-append :
      (xs ys : List TransactionAndMetadata) (ds es : List NftsData)
      → txs_data r max xs ≡ returns ds
      → txs_data r max ys ≡ returns es
      → txs_data r max (xs ++ ys) ≡ returns (ds ++ es)
  unfolding txs_data
  txs_data-append [] ys ds es p q = q ∙ ap (λ l. returns (l ++ es)) (returns-injective [] ds p)
  txs_data-append (x ∷ xs) ys ds es p q =
      let (d, e, p₁) = >>=-eq-returns (tx_data r max x) _ p in
      let (ds', f, p₂) = >>=-eq-returns (txs_data r max xs) _ p₁ in
      let tail = txs_data-append xs ys ds' es f q in
      rw (e, tail)
        (ap returns (sym (append_assoc d ds' es) ∙ ap (λ l. l ++ es) (returns-injective _ _ p₂)))

  module _ (db : Cassandra) (tx_of : ℕ → TransactionAndMetadata) where
    -- A run of the loop over the pages `ps` that returns has their records written or pending.
    Ends : List (List ℕ) → List NftsData → World → Outcome (List NftsData) × World → Type 0
    Ends ps to_write w x =
        (rest : List NftsData)
        → x.0 ≡ returns rest
        → (ds : List NftsData) × (txs_data r max (map tx_of (concat ps)) ≡ returns ds)
          × (total r x.1 rest ≡ total r w (to_write ++ ds))

    Ends-page :
        (p : List ℕ) (ps : List (List ℕ)) (to_write rest ds : List NftsData) (w v : World)
        (x : Outcome (List NftsData) × World)
        → txs_data r max (map tx_of p) ≡ returns ds
        → total r v rest ≡ total r w (to_write ++ ds)
        → Ends ps rest v x
        → Ends (p ∷ ps) to_write w x
    unfolding Ends
    Ends-page p ps to_write rest ds w v x e t k rest' h =
        let (es, f, u) = k rest' h in
        (
          ds ++ es,
          rw (map-append tx_of p (concat ps))
              (txs_data-append (map tx_of p) (map tx_of (concat ps)) ds es e f),
          u
              ∙ total-append r v rest es
              ∙ ap (λ l. l ++ rows r es) t
              ∙ sym (total-append r w (to_write ++ ds) es)
              ∙ ap (total r w) (append_assoc to_write ds es),
        )

    Ends-nil : (rest : List NftsData) (v : World) → Ends [] rest v (pure rest v)
    unfolding Ends txs_data
    Ends-nil rest v rest' h =
        ([], refl, ap (total r v) (sym (returns-injective _ _ h) ∙ sym (append-nil rest)))

    Ends-throws :
        (ps : List (List ℕ)) (to_write : List NftsData) (w : World) (e : Exception) (v : World)
        → Ends ps to_write w (throws e, v)
    unfolding Ends
    Ends-throws ps to_write w e v rest h = absurd (returns≢throws rest e (sym h))

    abbrev next_round : ℕ → Option ℕ → List NftsData → M (List NftsData)
    next_round fuel next rest =
        go_on (λ state. step_one_loop r db fuel max (some state) rest) (pure rest) next

    after_hashes :
        (p : List ℕ) (ps : List (List ℕ)) (next : Option ℕ) (fuel : ℕ) (to_write : List NftsData)
        (w v : World)
        → All (HasTransaction db tx_of) p
        → inserts v.log ≡ inserts w.log
        → ((rest : List NftsData) (u : World) → Ends ps rest u (next_round fuel next rest u))
        → Ends (p ∷ ps) to_write w (
            (do_try_fetch_transactions db p 0 >>= λ txs. lift (txs_data r max txs) >>= λ ds.
            maybe_do_nft_write r (to_write ++ ds) >>= λ rest. next_round fuel next rest)
              v)
    after_hashes p ps next fuel to_write w v stable e₀ k =
        after_read (Ends (p ∷ ps) to_write w) _ (do_try_fetch_transactions db p 0) _ v
          (Reads-do_try_fetch_transactions db tx_of p 0 stable)
          (λ txs v₁ ht e₁. rw ht (
            after_lift (Ends (p ∷ ps) to_write w) (txs_data r max (map tx_of p)) _ v₁
              (λ ds hd.
                after_batch r (Ends (p ∷ ps) to_write w) (to_write ++ ds) _ v₁ (λ rest u t small.
                  Ends-page p ps to_write rest ds w u _ hd
                    (t ∙ ap (λ l. l ++ rows r (to_write ++ ds)) (e₁ ∙ e₀)) (k rest u)))
              (Ends-throws (p ∷ ps) to_write w)))
          (Ends-throws (p ∷ ps) to_write w)

    -- One round of the loop, where the page is followed by a run over the other pages.
    round :
        (p : List ℕ) (ps : List (List ℕ)) (paging next : Option ℕ) (fuel : ℕ)
        (to_write : List NftsData) (w : World)
        → Serves db paging p next
        → All (HasTransaction db tx_of) p
        → ((rest : List NftsData) (v : World) → Ends ps rest v (next_round fuel next rest v))
        → Ends (p ∷ ps) to_write w (step_one_loop r db (suc fuel) max paging to_write w)
    unfolding step_one_loop
    round p ps paging next fuel to_write w serves stable k =
        after_read (Ends (p ∷ ps) to_write w) _ (do_try_get_tx_page_result db paging 0) _ w
          (Reads-do_try_get_tx_page_result db paging p next serves)
          (λ page v₁ hp e₁.
            rw (hp, traverse_hashes p) (after_hashes p ps next fuel to_write w v₁ stable e₁ k))
          (Ends-throws (p ∷ ps) to_write w)

    loop-Ends :
        (fuel : ℕ) (paging : Option ℕ) (ps : List (List ℕ)) (to_write : List NftsData) (w : World)
        → HasPages db paging ps
        → All (HasTransaction db tx_of) (concat ps)
        → Ends ps to_write w (step_one_loop r db fuel max paging to_write w)
    unfolding step_one_loop
    loop-Ends zero paging ps to_write w h stable = Ends-throws ps to_write w out_of_fuel w
    loop-Ends (suc fuel) paging [] to_write w h stable = elim h [ ]
    loop-Ends (suc fuel) paging (p ∷ []) to_write w h stable =
        round p [] paging none fuel to_write w h (All-front _ p [] stable) Ends-nil
    loop-Ends (suc fuel) paging (p ∷ q ∷ ps) to_write w (state, serves, h) stable =
        round p (q ∷ ps) paging (some state) fuel to_write w serves
          (All-front _ p (concat (q ∷ ps)) stable)
          (λ rest v.
            loop-Ends fuel (some state) (q ∷ ps) rest v h (All-back _ p (concat (q ∷ ps)) stable))

module _ (r : Ripple) (db : Cassandra) (tx_of : ℕ → TransactionAndMetadata) where
  -- Over a table of these pages, whatever reads fail on the way: where the first step returns, it
  -- has inserted exactly the rows of the records of the tokens minted by the mints of the table up to
  -- the last ledger of the range, in the order of the table, and nothing is left pending.
  pub step_one_writes :
      (fuel : ℕ) (range : LedgerRange) (ps : List (List ℕ)) (w : World)
      → HasPages db none ps
      → All (HasTransaction db tx_of) (concat ps)
      → (do_migration_step_one r db fuel range w).0 ≡ returns tt
      → (ds : List NftsData) × Minted r range.max_sequence (map tx_of (concat ps)) ds
        × (inserts (do_migration_step_one r db fuel range w).1.log ≡ inserts w.log ++ rows r ds)
  unfolding do_migration_step_one Ends
  step_one_writes fuel range ps w h stable =
      go (step_one_loop r db fuel range.max_sequence none [] w)
        (loop-Ends r range.max_sequence db tx_of fuel none ps [] w h stable)
    where
      go :
          (x : Outcome (List NftsData) × World)
          → Ends r range.max_sequence db tx_of ps [] w x
          → (and_then x (flush r)).0 ≡ returns tt
          → (ds : List NftsData) × Minted r range.max_sequence (map tx_of (concat ps)) ds
            × (inserts (and_then x (flush r)).1.log ≡ inserts w.log ++ rows r ds)
      go (returns rest, v) ends e =
          let (ds, p, q) = ends rest refl in
          (ds, (txs_data_iff r range.max_sequence _ ds).0 p, (flush-total r rest v).1 ∙ q)
      go (throws x, v) ends e = absurd (returns≢throws tt x (sym e))
