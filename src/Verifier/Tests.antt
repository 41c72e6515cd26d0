-- ===== src/Verifier/Tests.antt =====
-- The verifier of src/main/verify.cpp on a small input.
use clio_migrator.Prelude.{ℕ, Option, List, [], ◌∷◌, some}
use clio_migrator.Types.{Blob}
use clio_migrator.Nft.Data.{NftsData, page_data}
use clio_migrator.Nft.FromObj.{get_nft_data_from_obj}
use clio_migrator.Backend.Reads.{
  hard_fetch_ledger_range, hard_fetch_ledger_range_no_throw, fetch_successor_key,
  fetch_ledger_objects, fetch_nft,
}
use clio_migrator.Database.{NftRow}
use clio_migrator.Backend.Page.{fetch_ledger_page}
use clio_migrator.Cache.{get, get_successor}
use clio_migrator.Cache.Sorted.{find, upper_bound}
use clio_migrator.Migrator.Sample.{nft_row}
use clio_migrator.Migrator.StepTwo.{objects_data}
use clio_migrator.Verifier.{do_verification}

program : Unit {0}
unfolding do_verification hard_fetch_ledger_range get_nft_data_from_obj fetch_ledger_page get
    get_successor find upper_bound fetch_nft objects_data fetch_successor_key fetch_ledger_objects
    hard_fetch_ledger_range_no_throw
program = tt

abbrev record_of : ℕ → ℕ → NftsData
record_of token_id owner = page_data token_id 7 owner (4 ∷ [])

abbrev listed : List NftsData
listed = record_of 700 1003 ∷ record_of 701 1003 ∷ record_of 700 1008 ∷ record_of 701 1008 ∷ []

abbrev row_of : ℕ → Option NftRow
row_of token_id = some nft_row

abbrev uri_of : ℕ → Option Blob
uri_of token_id = some (4 ∷ [])
