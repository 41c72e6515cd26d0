-- ===== src/Backend/Serves.antt =====
-- Computations that return a known value as long as something holds of the world, which they
-- keep (for the reads of src/backend/CassandraBackend.cpp).
use clio_migrator.Prelude.{All, All-each, ℕ, ◌+◌, ◌≡◌, refl, ap, ◌∙◌, List, [], ◌∷◌, map, false}
use clio_migrator.Types.{TransactionAndMetadata}
use clio_migrator.Outcome.{Outcome, returns}
use clio_migrator.Database.{
  World, M, ◌>>=◌, and_then, pure, ask, ask_outcome, traverse_m, row, Cassandra,
}
use clio_migrator.Backend.Reads.{fetch_transactions, collect, has_failed, row_or, no_transaction}

module _ (I : World → Type 0) where
  -- In a world where `I` holds, the computation returns `a`, and `I` holds afterwards.
  abbrev pub Serves : {A : Type 0} → M A → A → Type 0
  Serves m a = (w : World) → I w → (v : World) × (m w ≡ (returns a, v)) × I v

  pub Serves-bind :
      {A B : Type 0} (m : M A) (f : A → M B) (a : A) (b : B)
      → Serves m a
      → Serves (f a) b
      → Serves (m >>= f) b
  Serves-bind m f a b hm hf w r =
      let (v, e, s) = hm w r in let (u, e', t) = hf v s in (u, ap (λ x. and_then x f) e ∙ e', t)

  pub Serves-pure : {A : Type 0} (a : A) → Serves (pure a) a
  Serves-pure a w r = (w, refl, r)

  pub Serves-traverse :
      {A B : Type 0} (f : A → M B) (g : A → B) (xs : List A)
      → All (λ (x : A). Serves (f x) (g x)) xs
      → Serves (traverse_m f xs) (map g xs)
  Serves-traverse f g [] h = Serves-pure []
  Serves-traverse f g (x ∷ xs) h =
      Serves-bind (f x) (λ y. traverse_m f xs >>= λ ys. pure (y ∷ ys)) (g x) (g x ∷ map g xs) h.0
        (Serves-bind (traverse_m f xs) (λ ys. pure (g x ∷ ys)) (map g xs) (g x ∷ map g xs)
          (Serves-traverse f g xs h.1) (Serves-pure (g x ∷ map g xs)))

  module _ (tick : (w : World) → I w → I (record w { now = w.now + 1 })) where
    pub Serves-ask_outcome :
        {A : Type 0} (f : ℕ → Outcome A) (a : A)
        → ((t : ℕ) → f t ≡ returns a)
        → Serves (ask_outcome f) a
    Serves-ask_outcome f a h w r = (
      record w { now = w.now + 1 },
      ap (λ x. (x, record w { now = w.now + 1 })) (h w.now),
      tick w r,
    )

    pub Serves-ask : {A : Type 0} (f : ℕ → A) (a : A) → ((t : ℕ) → f t ≡ a) → Serves (ask f) a
    Serves-ask f a h w r = (
      record w { now = w.now + 1 },
      ap (λ x. (returns x, record w { now = w.now + 1 })) (h w.now),
      tick w r,
    )

  module _ (tick : (w : World) → I w → I (record w { now = w.now + 1 })) (db : Cassandra)
      (tx_of : ℕ → TransactionAndMetadata)
      (answers : (t hash : ℕ) → db.select_transaction_async t hash ≡ row (tx_of hash)) where
    collect_rows :
        (hs : List ℕ)
        → (has_failed (map (λ h. row (tx_of h)) hs) ≡ false)
          × (map (row_or no_transaction) (map (λ h. row (tx_of h)) hs) ≡ map tx_of hs)
    collect_rows [] = (refl, refl)
    collect_rows (h ∷ hs) = ((collect_rows hs).0, ap (◌∷◌ (tx_of h)) (collect_rows hs).1)

    pub Serves-fetch_transactions : (hs : List ℕ) → Serves (fetch_transactions db hs) (map tx_of hs)
    unfolding fetch_transactions collect
    Serves-fetch_transactions [] = Serves-pure []
    Serves-fetch_transactions (h ∷ hs) =
        Serves-bind (traverse_m (λ hash. ask (λ t. db.select_transaction_async t hash)) (h ∷ hs)) _
          (map (λ k. row (tx_of k)) (h ∷ hs)) (map tx_of (h ∷ hs))
          (Serves-traverse (λ hash. ask (λ t. db.select_transaction_async t hash))
            (λ k. row (tx_of k)) (h ∷ hs)
            (All-each _ (h ∷ hs) (λ k.
              Serves-ask tick (λ t. db.select_transaction_async t k) (row (tx_of k))
                (λ t. answers t k))))
          (λ w r. (w, ap (λ o. (o, w)) (collected (h ∷ hs)), r))
      where
        collected :
            (ks : List ℕ)
            → collect no_transaction (map (λ k. row (tx_of k)) ks) ≡ returns (map tx_of ks)
        collected ks = let (e, q) = collect_rows ks in rw e (ap returns q)
