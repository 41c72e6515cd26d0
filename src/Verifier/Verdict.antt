-- ===== src/Verifier/Verdict.antt =====
-- What the verifier says of tokens whose tables do not change (verifyNFTs of src/main/verify.cpp).
use clio_migrator.Prelude.{
  ℕ, ◌≡◌, ◌↔◌, refl, sym, ap, ◌∙◌, List, [], ◌∷◌, ◌++◌, true, ==_iff, Option, none, some,
  if◌then◌else◌, Bool-cases, inl, inr, All,
}
use clio_migrator.Types.{Blob, Nft}
use clio_migrator.Outcome.{
  Outcome, returns, throws, not_written, uri_mismatch, returns≢throws, >>=-eq-returns,
}
use clio_migrator.Outcome
use clio_migrator.Ripple.{Ripple}
use clio_migrator.Nft.Data.{NftsData}
use clio_migrator.Database.{Cassandra, NftRow, World, M, ◌>>◌, and_then, ask_outcome}
use clio_migrator.Backend.Reads.{fetch_nft, blob_or_empty, nft_of, with_uri}
use clio_migrator.Backend.Ledger.{HasEmptyCache, HasEmptyCache-tick}
use clio_migrator.Backend.Serves.{Serves, Serves-bind, Serves-pure, Serves-ask_outcome}
use clio_migrator.Migrator.Retry.{max_retries}
use clio_migrator.Migrator.StepTwo.Total.{Serves-retry}
use clio_migrator.Verifier.{same_text, do_try_get_nft, old_uri_str, compare_uri, verify_each}
use clio_migrator.Verifier.Tokens.{same_text_eq}

same_text_self : (xs : List ℕ) → same_text xs xs ≡ true
unfolding same_text
same_text_self [] = refl
same_text_self (x ∷ xs) = rw (same_text_self xs, (==_iff x x).1 refl) refl

-- At a ledger the tables of the tokens have these rows and URIs.
pub record HoldsTokens (db : Cassandra) (seq : ℕ) (row_of : ℕ → Option NftRow)
    (uri_of : ℕ → Option Blob) : Type 0 where
  pub rows : (t token_id : ℕ) → db.select_nft t token_id seq ≡ returns (row_of token_id)
  pub uris : (t token_id : ℕ) → db.select_nft_uri t token_id seq ≡ returns (uri_of token_id)

module _ (r : Ripple) (db : Cassandra) (seq : ℕ) (row_of : ℕ → Option NftRow)
    (uri_of : ℕ → Option Blob) where
  -- A token has a row, and its URI there has the hexadecimal text of that of the record.
  abbrev pub Agrees : NftsData → Type 0
  Agrees d =
      ((row : NftRow) × (row_of d.token_id ≡ some row))
      × (old_uri_str db r d.uri ≡ r.str_hex (blob_or_empty (uri_of d.token_id)))

  abbrev pub token_verdict : NftsData → Option NftRow → Outcome (Unit {0})
  token_verdict d none = throws not_written
  token_verdict d (some row) =
      if same_text (old_uri_str db r d.uri) (r.str_hex (blob_or_empty (uri_of d.token_id)))
      then returns tt
      else throws uri_mismatch

  -- The first error among the tokens, if there is one.
  abbrev pub verdict : List NftsData → Outcome (Unit {0})
  verdict [] = returns tt
  verdict (d ∷ ds) = Outcome.◌>>=◌ (token_verdict d (row_of d.token_id)) (λ u. verdict ds)

  pub verdict-append :
      (ds es : List NftsData) → verdict (ds ++ es) ≡ Outcome.◌>>=◌ (verdict ds) (λ u. verdict es)
  verdict-append [] es = refl
  verdict-append (d ∷ ds) es =
      ap (λ o. Outcome.◌>>=◌ (token_verdict d (row_of d.token_id)) (λ u. o)) (verdict-append ds es)
      ∙ go (token_verdict d (row_of d.token_id))
    where
      go :
          (o : Outcome (Unit {0}))
          → Outcome.◌>>=◌ o (λ u. Outcome.◌>>=◌ (verdict ds) (λ v. verdict es))
            ≡ Outcome.◌>>=◌ (Outcome.◌>>=◌ o (λ u. verdict ds)) (λ v. verdict es)
      go (returns u) = refl
      go (throws e) = refl

  same_if :
      (xs ys : List ℕ)
      → ◌≡◌ {A = Outcome (Unit {0})}
          (if same_text xs ys then returns tt else throws uri_mismatch)
          (returns tt)
      → xs ≡ ys
  same_if xs ys h = elim (Bool-cases (same_text xs ys)) [
    | inl e ↦ same_text_eq xs ys e
    | inr e ↦ absurd (
        returns≢throws tt uri_mismatch
          (sym h ∙ ap (λ b. if b then returns tt else throws uri_mismatch) e))
  ]

  token_verdict-Agrees :
      (d : NftsData) (o : Option NftRow)
      → row_of d.token_id ≡ o
      → token_verdict d o ≡ returns tt ↔ Agrees d
  token_verdict-Agrees d none e = (
    λ h. absurd (returns≢throws tt not_written (sym h)),
    λ ((row, p), q). let k = sym e ∙ p in cc,
  )
  token_verdict-Agrees d (some row) e = (
    λ h. ((row, e), same_if _ _ h),
    λ (p, q). rw q (rw (same_text_self (r.str_hex (blob_or_empty (uri_of d.token_id)))) refl),
  )

  -- There is no error exactly if all agree.
  pub verdict-Agrees : (ds : List NftsData) → verdict ds ≡ returns tt ↔ All Agrees ds
  verdict-Agrees [] = (λ h. tt, λ h. refl)
  verdict-Agrees (d ∷ ds) = (
    λ h.
        let (u, p, q) = >>=-eq-returns (token_verdict d (row_of d.token_id)) (λ u. verdict ds) h in
        ((token_verdict-Agrees d (row_of d.token_id) refl).0 p, (verdict-Agrees ds).0 q),
    λ (p, q).
        ap (λ o. Outcome.◌>>=◌ o (λ u. verdict ds))
          ((token_verdict-Agrees d (row_of d.token_id) refl).1 p)
        ∙ (verdict-Agrees ds).1 q,
  )

  -- What a computation comes to, in a world that keeps an empty cache.
  abbrev pub Gives : {A : Type 0} → M A → Outcome A → Type 0
  Gives {A} m o = (w : World) → HasEmptyCache w → (v : World) × (m w ≡ (o, v)) × HasEmptyCache v

  module _ (holds : HoldsTokens db seq row_of uri_of) where
    abbrev token : ℕ → Option NftRow → Option Nft
    token id none = none
    token id (some row) = some (nft_of db id row (uri_of id))

    Serves-with_uri :
        (id : ℕ) (o : Option NftRow) → Serves HasEmptyCache (with_uri db id seq o) (token id o)
    unfolding with_uri
    Serves-with_uri id none = Serves-pure HasEmptyCache none
    Serves-with_uri id (some row) =
        Serves-bind HasEmptyCache (ask_outcome (λ t. db.select_nft_uri t id seq)) _ (uri_of id)
          (token id (some row))
          (Serves-ask_outcome HasEmptyCache HasEmptyCache-tick (λ t. db.select_nft_uri t id seq)
            (uri_of id) (λ t. holds.uris t id))
          (Serves-pure HasEmptyCache (token id (some row)))

    Serves-nft : (id : ℕ) → Serves HasEmptyCache (do_try_get_nft db id seq 0) (token id (row_of id))
    unfolding do_try_get_nft fetch_nft
    Serves-nft id =
        Serves-retry HasEmptyCache max_retries (fetch_nft db id seq) (token id (row_of id)) (
          Serves-bind HasEmptyCache (ask_outcome (λ t. db.select_nft t id seq)) (with_uri db id seq)
            (row_of id) (token id (row_of id))
            (Serves-ask_outcome HasEmptyCache HasEmptyCache-tick (λ t. db.select_nft t id seq)
              (row_of id) (λ t. holds.rows t id))
            (Serves-with_uri id (row_of id)))

    compared :
        (d : NftsData) (o : Option NftRow) (w : World)
        → compare_uri db r d (token d.token_id o) w ≡ (token_verdict d o, w)
    unfolding compare_uri
    compared d none w = refl
    compared d (some row) w =
        elim (Bool-cases
          (same_text (old_uri_str db r d.uri) (r.str_hex (blob_or_empty (uri_of d.token_id))))) [
            | inl e ↦ rw e refl
            | inr e ↦ rw e refl
          ]

    Gives-then :
        (o : Outcome (Unit {0})) (m : M (Unit {0})) (p : Outcome (Unit {0})) (w : World)
        → HasEmptyCache w
        → Gives m p
        → (v : World) × (and_then (o, w) (λ u. m) ≡ (Outcome.◌>>=◌ o (λ u. p), v)) × HasEmptyCache v
    Gives-then (returns u) m p w h g = g w h
    Gives-then (throws e) m p w h g = (w, refl, h)

    pub Gives-verify_each : (ds : List NftsData) → Gives (verify_each db r seq ds) (verdict ds)
    unfolding verify_each
    Gives-verify_each [] w h = (w, refl, h)
    Gives-verify_each (d ∷ ds) w h =
        let (v, e, i) = Serves-nft d.token_id w h in
        let (u, f, j) =
          Gives-then (token_verdict d (row_of d.token_id)) (verify_each db r seq ds) (verdict ds) v
            i (Gives-verify_each ds) in
        (
          u,
          ap (λ x. and_then x (λ written. compare_uri db r d written >> verify_each db r seq ds)) e
              ∙ ap (λ x. and_then x (λ u. verify_each db r seq ds))
                  (compared d (row_of d.token_id) v)
              ∙ f,
          j,
        )
