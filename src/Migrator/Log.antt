-- ===== src/Migrator/Log.antt =====
-- What a run has written: the inserts of its log, and what a computation adds to them.
use clio_migrator.Prelude.{
  All, ℕ, zero, suc, ◌≡◌, refl, sym, ap, ap₂, subst, ◌∙◌, List, [], ◌∷◌, ◌++◌, append-nil, Option,
  none, some,
}
use clio_migrator.Types.{Blob}
use clio_migrator.Outcome.{
  Outcome, returns, throws, Exception, database_timeout, returns-injective, returns≢throws,
}
use clio_migrator.Ripple.{Ripple}
use clio_migrator.Nft.Data.{NftsData}
use clio_migrator.Cache.{SimpleCache}
use clio_migrator.Database.{
  Event, insert_nft, insert_issuer_nft, insert_nft_uri, synced, waited, dropped_old_table, World, M,
  and_then, ◌>>=◌, ◌>>◌, pure, lift, ask, ask_outcome, with_cache, catch_timeout, on_timeout,
  traverse_m,
}
use clio_migrator.Backend.Writes.{rows, nft_rows, uri_rows}
use clio_migrator.Migrator.Retry.{retry, wait, after_wait}

-- The inserts among the events, in order.
unfoldable pub inserts : List Event → List Event
inserts [] = []
inserts (insert_nft a b c d ∷ es) = insert_nft a b c d ∷ inserts es
inserts (insert_issuer_nft a b c ∷ es) = insert_issuer_nft a b c ∷ inserts es
inserts (insert_nft_uri a b c ∷ es) = insert_nft_uri a b c ∷ inserts es
inserts (synced ∷ es) = inserts es
inserts (waited ∷ es) = inserts es
inserts (dropped_old_table b ∷ es) = inserts es

pub inserts-append : (es fs : List Event) → inserts (es ++ fs) ≡ inserts es ++ inserts fs
unfolding inserts
inserts-append [] fs = refl
inserts-append (insert_nft a b c d ∷ es) fs = ap (◌∷◌ (insert_nft a b c d)) (inserts-append es fs)
inserts-append (insert_issuer_nft a b c ∷ es) fs =
    ap (◌∷◌ (insert_issuer_nft a b c)) (inserts-append es fs)
inserts-append (insert_nft_uri a b c ∷ es) fs =
    ap (◌∷◌ (insert_nft_uri a b c)) (inserts-append es fs)
inserts-append (synced ∷ es) fs = inserts-append es fs
inserts-append (waited ∷ es) fs = inserts-append es fs
inserts-append (dropped_old_table b ∷ es) fs = inserts-append es fs

inserts-uri_rows :
    (r : Ripple) (d : NftsData) (uri : Option Blob) → inserts (uri_rows r d uri) ≡ uri_rows r d uri
unfolding uri_rows inserts
inserts-uri_rows r d none = refl
inserts-uri_rows r d (some uri) = refl

pub inserts-rows : (r : Ripple) (ds : List NftsData) → inserts (rows r ds) ≡ rows r ds
unfolding rows inserts nft_rows
inserts-rows r [] = refl
inserts-rows r (d ∷ ds) = ap (◌∷◌ (insert_nft d.token_id d.ledger_sequence d.owner d.is_burned)) (
    inserts-append (uri_rows r d d.uri) (rows r ds)
    ∙ ap₂ ◌++◌ (inserts-uri_rows r d d.uri) (inserts-rows r ds))

-- A computation inserts nothing, and where it returns, its value meets `P`.
abbrev pub Reads : {A : Type 0} → (A → Type 0) → M A → Type 0
Reads {A} P m =
    (w : World) → (inserts (m w).1.log ≡ inserts w.log) × ((a : A) → (m w).0 ≡ returns a → P a)

pub Reads-bind :
    {A B : Type 0} (P : A → Type 0) (Q : B → Type 0) (m : M A) (f : A → M B)
    → Reads P m
    → ((a : A) → P a → Reads Q (f a))
    → Reads Q (m >>= f)
Reads-bind {A} {B} P Q m f hm hf w = go (m w) (hm w)
  where
    go :
        (x : Outcome A × World)
        → (inserts x.1.log ≡ inserts w.log) × ((a : A) → x.0 ≡ returns a → P a)
        → (inserts (and_then x f).1.log ≡ inserts w.log)
          × ((b : B) → (and_then x f).0 ≡ returns b → Q b)
    go (returns a, v) hx = let (e, q) = hf a (hx.1 a refl) v in (e ∙ hx.0, q)
    go (throws x, v) hx = (hx.0, λ b h. absurd (returns≢throws b x (sym h)))

pub Reads-weaken :
    {A : Type 0} (P Q : A → Type 0) (m : M A) → ((a : A) → P a → Q a) → Reads P m → Reads Q m
Reads-weaken P Q m f h w = ((h w).0, λ a e. f a ((h w).1 a e))

pub Reads-pure : {A : Type 0} (P : A → Type 0) (a : A) → P a → Reads P (pure a)
Reads-pure P a p w = (refl, λ b h. subst P (returns-injective a b h) p)

pub Reads-lift :
    {A : Type 0} (P : A → Type 0) (o : Outcome A)
    → ((a : A) → o ≡ returns a → P a)
    → Reads P (lift o)
Reads-lift P o f w = (refl, f)

pub Reads-ask : {A : Type 0} (P : A → Type 0) (f : ℕ → A) → ((t : ℕ) → P (f t)) → Reads P (ask f)
Reads-ask P f p w = (refl, λ a h. subst P (returns-injective _ a h) (p w.now))

pub Reads-ask_outcome :
    {A : Type 0} (P : A → Type 0) (f : ℕ → Outcome A)
    → ((t : ℕ) (a : A) → f t ≡ returns a → P a)
    → Reads P (ask_outcome f)
Reads-ask_outcome P f p w = (refl, p w.now)

pub Reads-with_cache :
    {A : Type 0} (P : A → Type 0) (f : SimpleCache → A × SimpleCache)
    → ((c : SimpleCache) → P (f c).0)
    → Reads P (with_cache f)
Reads-with_cache P f p w = (refl, λ a h. subst P (returns-injective _ a h) (p w.cache))

-- `R` holds of the elements of two lists, place by place.
abbrev pub Pairs : {A B : Type 0} → (A → B → Type 0) → List A → List B → Type 0
Pairs R [] [] = Unit {0}
Pairs R (x ∷ xs) (y ∷ ys) = R x y × Pairs R xs ys
Pairs R _ _ = ⊥

pub Reads-traverse :
    {A B : Type 0} (R : A → B → Type 0) (f : A → M B) (xs : List A)
    → All (λ (x : A). Reads (R x) (f x)) xs
    → Reads (Pairs R xs) (traverse_m f xs)
Reads-traverse R f [] h = Reads-pure (Pairs R []) [] tt
Reads-traverse R f (x ∷ xs) h = Reads-bind (R x) (Pairs R (x ∷ xs)) (f x) _ h.0 λ y p.
    Reads-bind (Pairs R xs) (Pairs R (x ∷ xs)) (traverse_m f xs) _ (Reads-traverse R f xs h.1)
      λ ys q. Reads-pure (Pairs R (x ∷ xs)) (y ∷ ys) (p, q)

pub Reads-wait : {A : Type 0} (P : A → Type 0) (m : M A) → Reads P m → Reads P (wait >> m)
unfolding inserts
Reads-wait P m h w =
    let (p, q) = h (after_wait w) in
    (p ∙ inserts-append w.log (waited ∷ []) ∙ append-nil (inserts w.log), q)

pub Reads-catch :
    {A : Type 0} (P : A → Type 0) (m handler : M A)
    → Reads P m
    → Reads P handler
    → Reads P (catch_timeout m handler)
Reads-catch {A} P m handler hm hh w = go (m w) (hm w)
  where
    go :
        (x : Outcome A × World)
        → (inserts x.1.log ≡ inserts w.log) × ((a : A) → x.0 ≡ returns a → P a)
        → (inserts (on_timeout handler x).1.log ≡ inserts w.log)
          × ((a : A) → (on_timeout handler x).0 ≡ returns a → P a)
    go (throws database_timeout, v) hx = let (e, q) = hh v in (e ∙ hx.0, q)
    go (returns a, v) hx = hx
    go (throws x, v) hx = hx

pub Reads-retry :
    {A : Type 0} (P : A → Type 0) (left : ℕ) (m : M A) → Reads P m → Reads P (retry left m)
unfolding retry
Reads-retry P zero m h = h
Reads-retry P (suc left) m h =
    Reads-catch P m _ h (Reads-wait P (retry left m) (Reads-retry P left m h))

-- A computation that only reads, then the rest of a run: what holds however the rest goes on.
pub after_read :
    {A B : Type 0} (S : Outcome B × World → Type 0) (P : A → Type 0) (m : M A) (f : A → M B)
    (w : World)
    → Reads P m
    → ((a : A) (v : World) → P a → inserts v.log ≡ inserts w.log → S (f a v))
    → ((x : Exception) (v : World) → S (throws x, v))
    → S ((m >>= f) w)
after_read {A} {B} S P m f w hm hf ht = go (m w) (hm w)
  where
    go :
        (x : Outcome A × World)
        → (inserts x.1.log ≡ inserts w.log) × ((a : A) → x.0 ≡ returns a → P a)
        → S (and_then x f)
    go (returns a, v) hx = hf a v (hx.1 a refl) hx.0
    go (throws x, v) hx = ht x v

-- So for a step that touches nothing.
pub after_lift :
    {A B : Type 0} (S : Outcome B × World → Type 0) (o : Outcome A) (f : A → M B) (w : World)
    → ((a : A) → o ≡ returns a → S (f a w))
    → ((x : Exception) (v : World) → S (throws x, v))
    → S ((lift o >>= f) w)
after_lift S (returns a) f w hf ht = hf a refl
after_lift S (throws x) f w hf ht = ht x w
