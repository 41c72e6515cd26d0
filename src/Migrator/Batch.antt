-- ===== src/Migrator/Batch.antt =====
-- Writing in batches (doNFTWrite and maybeDoNFTWrite of src/main/main.cpp). The records that are
-- not written yet are handed back.
use clio_migrator.Prelude.{
  append_assoc, ℕ, ◌<◌, ◌≡◌, refl, sym, subst, ap, ltb→lt, if_cases, ◌∙◌, List, [], ◌∷◌, ◌++◌,
  append-nil, arith, ltb, if◌then◌else◌, length,
}
use clio_migrator.Outcome.{Outcome, returns, throws, returns-injective, returns≢throws}
use clio_migrator.Ripple.{Ripple}
use clio_migrator.Nft.Data.{NftsData}
use clio_migrator.Database.{Event, synced, World, M, ◌>>=◌, ◌>>◌, and_then, pure}
use clio_migrator.Backend.Writes.{rows-append, rows, write_nfts, sync}
use clio_migrator.Migrator.Log.{inserts, inserts-append, inserts-rows}
use clio_migrator.Migrator.Returns.{Returns}

abbrev pub nft_write_batch_size : ℕ
nft_write_batch_size = 10000

module _ (r : Ripple) where
  unfoldable pub do_nft_write : List NftsData → M (List NftsData)
  unfolding write_nfts
  do_nft_write [] = pure []
  do_nft_write (d ∷ ds) = do write_nfts r (d ∷ ds); sync; pure []

  unfoldable pub maybe_do_nft_write : List NftsData → M (List NftsData)
  unfolding do_nft_write
  maybe_do_nft_write ds = if ltb (length ds) nft_write_batch_size then pure ds else do_nft_write ds

  -- What is written together with what is still to be written.
  abbrev pub total : World → List NftsData → List Event
  total w ds = inserts w.log ++ rows r ds

  pub total-append :
      (w : World) (ds es : List NftsData) → total w (ds ++ es) ≡ total w ds ++ rows r es
  total-append w ds es = rw (rows-append r ds es, append_assoc)

  -- A write leaves nothing pending, writes exactly the pending records, and ends in a sync.
  pub do_nft_write-total :
      (ds : List NftsData) (w : World)
      → ((do_nft_write ds w).0 ≡ returns []) × (inserts (do_nft_write ds w).1.log ≡ total w ds)
  unfolding do_nft_write inserts
  do_nft_write-total [] w = (refl, sym (append-nil (inserts w.log)))
  do_nft_write-total (d ∷ ds) w = (
    refl,
    inserts-append (w.log ++ rows r (d ∷ ds)) (synced ∷ [])
        ∙ append-nil _
        ∙ inserts-append w.log (rows r (d ∷ ds))
        ∙ ap (◌++◌ (inserts w.log)) (inserts-rows r (d ∷ ds)),
  )

  Pending : List NftsData → World → Outcome (List NftsData) × World → Type 0
  Pending ds w x =
      (rest : List NftsData) × (x.0 ≡ returns rest)
      × (total x.1 rest ≡ total w ds)
      × (length rest < nft_write_batch_size)

  do_nft_write-Pending : (ds : List NftsData) (w : World) → Pending ds w (do_nft_write ds w)
  unfolding Pending rows
  do_nft_write-Pending ds w =
      let (e, p) = do_nft_write-total ds w in ([], e, append-nil _ ∙ p, omega arith)

  maybe_do_nft_write-Pending :
      (ds : List NftsData) (w : World) → Pending ds w (maybe_do_nft_write ds w)
  unfolding Pending maybe_do_nft_write
  maybe_do_nft_write-Pending ds w =
      if_cases {A = M (List NftsData)} (λ m. Pending ds w (m w))
        (ltb (length ds) nft_write_batch_size) (λ e. (ds, refl, refl, ltb→lt _ _ e))
        (λ e. do_nft_write-Pending ds w)

  -- A write that may be put off always returns. What is written together with what is handed back
  -- is what was written and pending before, in the same order, and less than a batch is handed back.
  pub batch_keeps :
      (ds : List NftsData) (w : World)
      → (rest : List NftsData) × ((maybe_do_nft_write ds w).0 ≡ returns rest)
        × (inserts (maybe_do_nft_write ds w).1.log ++ rows r rest ≡ inserts w.log ++ rows r ds)
        × (length rest < nft_write_batch_size)
  unfolding Pending
  batch_keeps ds w = maybe_do_nft_write-Pending ds w

  -- A batch, then the rest of a run: no record is lost, and less than a batch is pending.
  pub after_batch :
      {B : Type 0} (S : Outcome B × World → Type 0) (ds : List NftsData) (f : List NftsData → M B)
      (w : World)
      → ((rest : List NftsData) (v : World)
          → total v rest ≡ total w ds
          → length rest < nft_write_batch_size
          → S (f rest v))
      → S ((maybe_do_nft_write ds >>= f) w)
  unfolding Pending
  after_batch {B} S ds f w k = go (maybe_do_nft_write ds w) (maybe_do_nft_write-Pending ds w)
    where
      go : (x : Outcome (List NftsData) × World) → Pending ds w x → S (and_then x f)
      go (returns a, v) (rest, e, p, q) =
          k a v (subst (λ b. total v b ≡ total w ds) (sym (returns-injective a rest e)) p)
            (subst (λ b. length b < nft_write_batch_size) (sym (returns-injective a rest e)) q)
      go (throws x, v) (rest, e, p, q) = absurd (returns≢throws rest x (sym e))

  -- The end of a step: what is pending is written, whatever its size.
  abbrev pub flush : List NftsData → M (Unit {0})
  flush to_write = do_nft_write to_write >>= λ _. pure tt

  pub flush-total :
      (ds : List NftsData) (w : World)
      → ((flush ds w).0 ≡ returns tt) × (inserts (flush ds w).1.log ≡ total w ds)
  flush-total ds w = let (e, p) = do_nft_write-total ds w in go (do_nft_write ds w) e p
    where
      go :
          (x : Outcome (List NftsData) × World)
          → x.0 ≡ returns []
          → inserts x.1.log ≡ total w ds
          → ((and_then x (λ _. pure tt)).0 ≡ returns tt)
            × (inserts (and_then x (λ _. pure tt)).1.log ≡ total w ds)
      go (returns a, v) e p = (refl, p)
      go (throws x, v) e p = absurd (returns≢throws [] x (sym e))

  pub Returns-batch : (ds : List NftsData) → Returns (λ _. Unit {0}) (maybe_do_nft_write ds)
  unfolding Pending
  Returns-batch ds w = go (maybe_do_nft_write ds w) (maybe_do_nft_write-Pending ds w)
    where
      go :
          (x : Outcome (List NftsData) × World)
          → Pending ds w x
          → (a : List NftsData) × (v : World) × (x ≡ (returns a, v)) × Unit {0}
      go x (rest, e, p, q) = (rest, x.1, ap (λ o. (o, x.1)) e, tt)

  pub Returns-flush : (ds : List NftsData) → Returns (λ u. u ≡ tt) (flush ds)
  Returns-flush ds w =
      (tt, (flush ds w).1, ap (λ o. (o, (flush ds w).1)) (flush-total ds w).0, refl)
