-- ===== src/Migrator/Returns.antt =====
-- Computations that return, whatever the world (used for the loops of src/main/main.cpp).
use clio_migrator.Prelude.{All, ℕ, zero, suc, ◌+◌, ◌≡◌, refl, ap, ◌∙◌, List, [], ◌∷◌}
use clio_migrator.Outcome.{Outcome, returns}
use clio_migrator.Database.{World, M, ◌>>=◌, and_then, pure, lift, ask, on_timeout, traverse_m}
use clio_migrator.Migrator.Retry.{retry}
use clio_migrator.Migrator.Log.{Pairs}

-- A computation always returns, with a value that meets `P`.
abbrev pub Returns : {A : Type 0} → (A → Type 0) → M A → Type 0
Returns {A} P m = (w : World) → (a : A) × (v : World) × (m w ≡ (returns a, v)) × P a

pub Returns-bind :
    {A B : Type 0} (P : A → Type 0) (Q : B → Type 0) (m : M A) (f : A → M B)
    → Returns P m
    → ((a : A) → P a → Returns Q (f a))
    → Returns Q (m >>= f)
Returns-bind P Q m f hm hf w =
    let (a, v, e, p) = hm w in
    let (b, u, e', q) = hf a p v in (b, u, ap (λ x. and_then x f) e ∙ e', q)

pub Returns-pure : {A : Type 0} (P : A → Type 0) (a : A) → P a → Returns P (pure a)
Returns-pure P a p w = (a, w, refl, p)

pub Returns-lift :
    {A : Type 0} (P : A → Type 0) (o : Outcome A) (a : A) → o ≡ returns a → P a → Returns P (lift o)
Returns-lift P o a e p w = (a, w, ap (λ x. (x, w)) e, p)

pub Returns-ask :
    {A : Type 0} (P : A → Type 0) (f : ℕ → A) → ((t : ℕ) → P (f t)) → Returns P (ask f)
Returns-ask P f p w = (f w.now, record w { now = w.now + 1 }, refl, p w.now)

pub Returns-traverse :
    {A B : Type 0} (R : A → B → Type 0) (f : A → M B) (xs : List A)
    → All (λ (x : A). Returns (R x) (f x)) xs
    → Returns (Pairs R xs) (traverse_m f xs)
Returns-traverse R f [] h = Returns-pure (Pairs R []) [] tt
Returns-traverse R f (x ∷ xs) h = Returns-bind (R x) (Pairs R (x ∷ xs)) (f x) _ h.0 λ y p.
    Returns-bind (Pairs R xs) (Pairs R (x ∷ xs)) (traverse_m f xs) _ (Returns-traverse R f xs h.1)
      λ ys q. Returns-pure (Pairs R (x ∷ xs)) (y ∷ ys) (p, q)

pub Returns-retry :
    {A : Type 0} (P : A → Type 0) (left : ℕ) (m : M A) → Returns P m → Returns P (retry left m)
unfolding retry
Returns-retry P zero m h w = h w
Returns-retry P (suc left) m h w = let (a, v, e, p) = h w in (a, v, ap (on_timeout _) e, p)
