-- ===== src/Verifier.antt =====
-- The verifier: the URI of every token of the last ledger is compared with what has been written
-- (src/main/verify.cpp).
pub mod Tokens
pub mod Verdict
pub mod Exact
mod Tests
use clio_migrator.Prelude.{
  ℕ, zero, suc, ◌-◌, List, [], ◌∷◌, ◌++◌, Bool, true, false, ◌&&◌, Option, none, some, ltb, ◌==◌,
  if◌then◌else◌, length,
}
use clio_migrator.Types.{Blob, Nft, LedgerPage, LedgerRange}
use clio_migrator.Outcome.{Outcome, returns, throws, out_of_fuel, not_written, uri_mismatch}
use clio_migrator.Ripple.{Ripple}
use clio_migrator.Nft.Data.{NftsData}
use clio_migrator.Database.{Cassandra, World, M, ◌>>=◌, ◌>>◌, pure, lift, go_on}
use clio_migrator.Backend.Reads.{fetch_nft, hard_fetch_ledger_range_no_throw}
use clio_migrator.Backend.Page.{fetch_ledger_page}
use clio_migrator.Migrator.Retry.{retry, max_retries}
use clio_migrator.Migrator.StepTwo.{objects_data}

abbrev pub min_verification_batch : ℕ
min_verification_batch = 2000

-- `compare(...) == 0` of two texts
unfoldable pub same_text : List ℕ → List ℕ → Bool
same_text [] [] = true
same_text [] (b ∷ bs) = false
same_text (a ∷ as') [] = false
same_text (a ∷ as') (b ∷ bs) = (a == b) && same_text as' bs

module _ (db : Cassandra) where
  unfoldable pub do_try_fetch_ledger_page : Option ℕ → ℕ → ℕ → M LedgerPage
  unfolding retry
  do_try_fetch_ledger_page cursor sequence attempts =
      retry (max_retries - attempts) (fetch_ledger_page db cursor sequence 2000 false)

  unfoldable pub do_try_get_nft : ℕ → ℕ → ℕ → M (Option Nft)
  unfolding retry
  do_try_get_nft nft_id seq attempts = retry (max_retries - attempts) (fetch_nft db nft_id seq)

  module _ (r : Ripple) where
    open r use {str_hex}

    abbrev pub old_uri_str : Option Blob → List ℕ
    old_uri_str none = []
    old_uri_str (some uri) = str_hex uri

    -- What is done with the token that has been read.
    unfoldable pub compare_uri : NftsData → Option Nft → M (Unit {0})
    unfolding same_text
    compare_uri nft none = lift (throws not_written)
    compare_uri nft (some written) =
        if same_text (old_uri_str nft.uri) (str_hex written.uri)
        then pure tt
        else lift (throws uri_mismatch)

    unfoldable pub verify_each : ℕ → List NftsData → M (Unit {0})
    unfolding compare_uri do_try_get_nft
    verify_each seq [] = pure tt
    verify_each seq (nft ∷ nfts) = do
      written ← do_try_get_nft nft.token_id seq 0
      compare_uri nft written
      verify_each seq nfts

    unfoldable pub verify_nfts : ℕ → List NftsData → M (List NftsData)
    unfolding verify_each
    verify_nfts seq [] = pure []
    verify_nfts seq (nft ∷ nfts) = do verify_each seq (nft ∷ nfts); pure []

    unfoldable pub maybe_verify_nfts : ℕ → List NftsData → M (List NftsData)
    unfolding verify_nfts
    maybe_verify_nfts seq nfts =
        if ltb (length nfts) min_verification_batch then pure nfts else verify_nfts seq nfts

    -- The loop over the pages from a cursor on, with the tokens still to be verified.
    unfoldable pub verification_loop : ℕ → ℕ → Option ℕ → List NftsData → M (List NftsData)
    unfolding maybe_verify_nfts do_try_fetch_ledger_page
    verification_loop zero seq cursor to_verify = lift (throws out_of_fuel)
    verification_loop (suc fuel) seq cursor to_verify = do
      page ← do_try_fetch_ledger_page cursor seq 0
      nfts ← lift (objects_data r seq page.objects)
      rest ← maybe_verify_nfts seq (to_verify ++ nfts)
      go_on (λ state. verification_loop fuel seq (some state) rest) (pure rest) page.cursor

    unfoldable pub verify_if : ℕ → Option LedgerRange → M (Unit {0})
    unfolding verification_loop
    verify_if fuel none = pure tt
    verify_if fuel (some range) = do
      to_verify ← verification_loop fuel range.max_sequence none []
      _ ← verify_nfts range.max_sequence to_verify
      pure tt

    unfoldable pub do_verification : ℕ → M (Unit {0})
    unfolding verify_if
    do_verification fuel = do range ← hard_fetch_ledger_range_no_throw db fuel; verify_if fuel range
