-- ===== src/Migrator/StepTwo/Total.antt =====
-- The second step over a ledger that the database holds comes to its end with the ledger's rows
-- (doMigrationStepTwo of src/main/main.cpp).
use clio_migrator.Prelude.{
  false, ℕ, zero, suc, ◌<◌, ◌≡◌, refl, sym, ap, subst, ◌∙◌, inl, inr, List, [], ◌∷◌, ◌++◌,
  append-nil, append_assoc, Option, none, some, arith, length, take, drop, map-append,
}
use clio_migrator.Types.{Blob, LedgerObject, LedgerRange}
use clio_migrator.Outcome.{Outcome, returns, returns-injective, >>=-eq-returns}
use clio_migrator.Ripple.{Ripple}
use clio_migrator.Nft.Data.{NftsData}
use clio_migrator.Nft.FromObj.{get_nft_data_from_obj}
use clio_migrator.Database.{Cassandra, World, M, ◌>>=◌, and_then, pure, lift, go_on, on_timeout}
use clio_migrator.Backend.Serves.{Serves}
use clio_migrator.Backend.Page.{fetch_ledger_page, start_of}
use clio_migrator.Backend.Writes.{rows}
use clio_migrator.Backend.Ledger.{HoldsLedger, HasEmptyCache, objects_of}
use clio_migrator.Backend.Ledger.Keys.{At}
use clio_migrator.Backend.Ledger.Pages.{page_at, Serves-page}
use clio_migrator.Backend.Ledger.Ends.{LeavesOff-page}
use clio_migrator.Migrator.Retry.{retry, max_retries, do_try_fetch_ledger_page}
use clio_migrator.Migrator.Fetches.{Reads-was_read}
use clio_migrator.Migrator.Log.{inserts}
use clio_migrator.Migrator.Batch.{
  maybe_do_nft_write, batch_keeps, total, total-append, flush, flush-total,
}
use clio_migrator.Migrator.StepOne.Cache.{batch_cache}
use clio_migrator.Migrator.StepTwo.{objects_data, step_two_loop, do_migration_step_two}

pub Serves-retry :
    {A : Type 0} (I : World → Type 0) (left : ℕ) (m : M A) (a : A)
    → Serves I m a
    → Serves I (retry left m) a
unfolding retry
Serves-retry I zero m a h w i = h w i
Serves-retry I (suc left) m a h w i = let (v, e, j) = h w i in (v, ap (on_timeout _) e, j)

module _ (r : Ripple) (seq : ℕ) where
  objects_data-split :
      (xs ys : List LedgerObject) (ds : List NftsData)
      → objects_data r seq (xs ++ ys) ≡ returns ds
      → (d : List NftsData) × (e : List NftsData) × (objects_data r seq xs ≡ returns d)
        × (objects_data r seq ys ≡ returns e)
        × (ds ≡ d ++ e)
  unfolding objects_data
  objects_data-split [] ys ds h = ([], ds, refl, h, refl)
  objects_data-split (x ∷ xs) ys ds h =
      let (a, p, h₁) = >>=-eq-returns (get_nft_data_from_obj r seq x.key x.blob) _ h in
      let (b, q, h₂) = >>=-eq-returns (objects_data r seq (xs ++ ys)) _ h₁ in
      let (d, e, f, g, k) = objects_data-split xs ys b q in
      (
        a ++ d,
        e,
        rw (p, f) refl,
        g,
        sym (returns-injective (a ++ b) ds h₂) ∙ ap (λ l. a ++ l) k ∙ sym (append_assoc a d e),
      )

  -- The objects of the first keys and of the rest.
  pub objects_data-take :
      (blob : ℕ → Blob) (n : ℕ) (ys : List ℕ) (ds : List NftsData)
      → ys ≡ take n ys ++ drop n ys
      → objects_data r seq (objects_of blob ys) ≡ returns ds
      → (d : List NftsData) × (e : List NftsData) × (objects_data r seq
            (objects_of blob (take n ys))
          ≡ returns d)
        × (objects_data r seq (objects_of blob (drop n ys)) ≡ returns e)
        × (ds ≡ d ++ e)
  objects_data-take blob n ys ds split p =
      objects_data-split (objects_of blob (take n ys)) (objects_of blob (drop n ys)) ds (
        ap (objects_data r seq)
          (sym (map-append (λ x. record { key = x; blob = blob x }) (take n ys) (drop n ys)))
        ∙ ap (λ y. objects_data r seq (objects_of blob y)) (sym split)
        ∙ p)

  -- The batch of a page, with the world after it.
  batch_step :
      (ds : List NftsData) (w : World)
      → HasEmptyCache w
      → (rest : List NftsData) × (v : World) × (maybe_do_nft_write r ds w ≡ (returns rest, v))
        × HasEmptyCache v
        × (total r v rest ≡ total r w ds)
  batch_step ds w h =
      let (rest, e, t, small) = batch_keeps r ds w in
      let v = (maybe_do_nft_write r ds w).1 in
      let same = batch_cache r ds w in
      (
        rest,
        v,
        ap (λ o. (o, v)) e,
        record {
          no_entries = ap (λ c. c.entries) same ∙ h.no_entries;
          not_full = ap (λ c. c.full) same ∙ h.not_full;
        },
        t,
      )

  module _ (db : Cassandra) (ks : List ℕ) (blob : ℕ → Blob)
      (holds : HoldsLedger db seq ks blob) where
    -- The read of a page gives the page of the ledger and writes nothing.
    page_read :
        (cursor : Option ℕ) (ys : List ℕ) (w : World)
        → At ks (start_of cursor) ys
        → HasEmptyCache w
        → (v : World) × (do_try_fetch_ledger_page db cursor seq 0 w
            ≡ (returns (page_at db seq ks blob holds 10000 ys), v))
          × HasEmptyCache v
          × (inserts v.log ≡ inserts w.log)
    unfolding do_try_fetch_ledger_page
    page_read cursor ys w a h =
        let (v, e, k) =
          Serves-retry HasEmptyCache max_retries (fetch_ledger_page db cursor seq 10000 false)
            (page_at db seq ks blob holds 10000 ys)
            (Serves-page db seq ks blob holds 10000 cursor ys a) w h in
        (v, e, k, ap (λ x. inserts x.1.log) (sym e) ∙ (Reads-was_read db cursor seq w).0)

    -- The loop returns, and all records are written or handed back.
    Done : List NftsData → World → Outcome (List NftsData) × World → Type 0
    Done ds w x =
        (rest : List NftsData) × (v : World) × (x ≡ (returns rest, v))
        × HasEmptyCache v
        × (total r v rest ≡ total r w ds)

    next_round : ℕ → List NftsData → Option ℕ → M (List NftsData)
    next_round fuel rest next =
        go_on (λ state. step_two_loop r db fuel seq (some state) rest) (pure rest) next

    after_page :
        (fuel : ℕ) (cursor : Option ℕ) (ys : List ℕ) (to_write d e : List NftsData) (w : World)
        → At ks (start_of cursor) ys
        → HasEmptyCache w
        → objects_data r seq (page_at db seq ks blob holds 10000 ys).objects ≡ returns d
        → ((rest : List NftsData) (v : World)
            → HasEmptyCache v
            → Done
                (rest ++ e)
                v
                (next_round fuel rest (page_at db seq ks blob holds 10000 ys).cursor v))
        → Done (to_write ++ (d ++ e)) w (step_two_loop r db (suc fuel) seq cursor to_write w)
    unfolding step_two_loop Done next_round
    after_page fuel cursor ys to_write d e w a h p k =
        let page = page_at db seq ks blob holds 10000 ys in
        let (v, q, i, l) = page_read cursor ys w a h in
        let (rest, u, q', i', t) = batch_step (to_write ++ d) v i in
        let (rest', x, q'', i'', t') = k rest u i' in
        (
          rest',
          x,
          ap
                (λ o. and_then o (λ pg. lift (objects_data r seq pg.objects) >>= λ ds.
                  maybe_do_nft_write r (to_write ++ ds) >>= λ rs.
                  go_on (λ state. step_two_loop r db fuel seq (some state) rs) (pure rs) pg.cursor))
                q
              ∙ ap
                  (λ o.
                    and_then (o, v)
                      (λ ds. maybe_do_nft_write r (to_write ++ ds) >>= λ rs.
                        go_on (λ state. step_two_loop r db fuel seq (some state) rs) (pure rs)
                          page.cursor))
                  p
              ∙ ap
                  (λ o. and_then o (λ rs.
                    go_on (λ state. step_two_loop r db fuel seq (some state) rs) (pure rs)
                      page.cursor))
                  q'
              ∙ q'',
          i'',
          t'
              ∙ total-append r u rest e
              ∙ ap (λ z. z ++ rows r e) t
              ∙ sym (total-append r v (to_write ++ d) e)
              ∙ ap (λ z. z ++ rows r ((to_write ++ d) ++ e)) l
              ∙ ap (total r w) (append_assoc to_write d e),
        )

    Done-last :
        (fuel : ℕ) (rest : List NftsData) (v : World) (next : Option ℕ)
        → next ≡ none
        → HasEmptyCache v
        → Done (rest ++ []) v (next_round fuel rest next v)
    unfolding Done next_round
    Done-last fuel rest v next c h = (
      rest,
      v,
      ap (λ o. go_on (λ state. step_two_loop r db fuel seq (some state) rest) (pure rest) o v) c,
      h,
      ap (total r v) (sym (append-nil rest)),
    )

    Done-next :
        (fuel s : ℕ) (rest ds : List NftsData) (v : World) (next : Option ℕ)
        → next ≡ some s
        → Done ds v (step_two_loop r db fuel seq (some s) rest v)
        → Done ds v (next_round fuel rest next v)
    unfolding next_round
    Done-next fuel s rest ds v next c h =
        subst
          (λ o.
            Done ds v
              (go_on (λ state. step_two_loop r db fuel seq (some state) rest) (pure rest) o v))
          (sym c) h

    loop-Done :
        (fuel : ℕ) (cursor : Option ℕ) (ys : List ℕ) (to_write ds : List NftsData) (w : World)
        → At ks (start_of cursor) ys
        → HasEmptyCache w
        → objects_data r seq (objects_of blob ys) ≡ returns ds
        → length ys < fuel
        → Done (to_write ++ ds) w (step_two_loop r db fuel seq cursor to_write w)
    loop-Done zero cursor ys to_write ds w a h p l = absurd (omega (arith, l))
    loop-Done (suc fuel) cursor ys to_write ds w a h p l =
        elim (LeavesOff-page ks 9999 (start_of cursor) ys a) [
          | inl (all, c) ↦
              subst
                (λ x. Done (to_write ++ x) w (step_two_loop r db (suc fuel) seq cursor to_write w))
                (append-nil ds)
                (after_page fuel cursor ys to_write ds [] w a h
                  (ap (λ y. objects_data r seq (objects_of blob y)) all ∙ p)
                  (λ rest v i. Done-last fuel rest v _ c i))
          | inr (s, c, at, split, short) ↦
              let (d, e, f, g, k) = objects_data-take blob 10000 ys ds split p in
              subst
                (λ x. Done (to_write ++ x) w (step_two_loop r db (suc fuel) seq cursor to_write w))
                (sym k)
                (after_page fuel cursor ys to_write d e w a h f (λ rest v i.
                  Done-next fuel s rest (rest ++ e) v _ c (
                    loop-Done fuel (some s) (drop 10000 ys) rest e v at i g
                      (omega (arith, short, l)))))
        ]

-- Over a ledger that the database holds, with a cache that has nothing, the second step returns,
-- if its objects can be read, with one round of fuel more than there are keys; and it has
-- inserted exactly the rows of the tokens in all the objects of the ledger, in the order of
-- their keys.
pub step_two_total :
    (r : Ripple) (db : Cassandra) (fuel : ℕ) (range : LedgerRange) (ks : List ℕ) (blob : ℕ → Blob)
    (ds : List NftsData) (w : World)
    → HoldsLedger db range.min_sequence ks blob
    → objects_data r range.min_sequence (objects_of blob ks) ≡ returns ds
    → HasEmptyCache w
    → length ks < fuel
    → ((do_migration_step_two r db fuel range w).0 ≡ returns tt)
      × (inserts (do_migration_step_two r db fuel range w).1.log ≡ inserts w.log ++ rows r ds)
unfolding do_migration_step_two Done
step_two_total r db fuel range ks blob ds w holds p h l =
    let (rest, v, e, i, t) =
      loop-Done r range.min_sequence db ks blob holds fuel none ks [] ds w ([], refl) h p l in
    let (f, g) = flush-total r rest v in
    (
      ap (λ x. (and_then x (flush r)).0) e ∙ f,
      ap (λ x. inserts (and_then x (flush r)).1.log) e ∙ g ∙ t,
    )
