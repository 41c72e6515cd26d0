-- ===== src/Verifier/Exact.antt =====
-- A verification over a ledger and tables that the database holds (doVerification of
-- src/main/verify.cpp).
use clio_migrator.Prelude.{ℕ, ◌≡◌, List, Option, some}
use clio_migrator.Types.{Blob}
use clio_migrator.Outcome.{Outcome}
use clio_migrator.Outcome
use clio_migrator.Ripple.{Ripple}
use clio_migrator.Nft.Data.{NftsData}
use clio_migrator.Database.{Cassandra, NftRow, World, M, ◌>>=◌, pure, go_on}
use clio_migrator.Backend.Ledger.{HoldsLedger, HasEmptyCache}
use clio_migrator.Verifier.{verification_loop}
use clio_migrator.Verifier.Verdict.{HoldsTokens, verdict}

module _ (r : Ripple) (db : Cassandra) (seq : ℕ) (row_of : ℕ → Option NftRow)
    (uri_of : ℕ → Option Blob) (tokens : HoldsTokens db seq row_of uri_of) where
  abbrev says : List NftsData → Outcome (Unit {0})
  says ds = verdict r db seq row_of uri_of ds

  -- What comes of tokens that are left over is what comes of all.
  Judged : List NftsData → Outcome (List NftsData) × World → Type 0
  Judged ds x = (Outcome.◌>>=◌ x.0 says ≡ says ds) × HasEmptyCache x.1

  module _ (ks : List ℕ) (blob : ℕ → Blob) (holds : HoldsLedger db seq ks blob) where
    abbrev next_round : ℕ → List NftsData → Option ℕ → M (List NftsData)
    next_round fuel rest next =
        go_on (λ state. verification_loop db r fuel seq (some state) rest) (pure rest) next
