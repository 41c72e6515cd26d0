-- ===== src/Migrator/LedgerSample.antt =====
-- A ledger of two objects, both pages of tokens, and a server that holds it.
use clio_migrator.Prelude.{ℕ, ◌≡◌, refl, some, List, [], ◌∷◌, arith}
use clio_migrator.Types.{Blob}
use clio_migrator.Outcome.{returns}
use clio_migrator.Nft.Sample.{sample}
use clio_migrator.Nft.Data.{NftsData, page_data}
use clio_migrator.Nft.FromObj.{get_nft_data_from_obj}
use clio_migrator.Database.{Cassandra}
use clio_migrator.Backend.Ledger.{HoldsLedger, HasEmptyCache, next_key, or_last, objects_of}
use clio_migrator.Migrator.Sample.{server, start}
use clio_migrator.Migrator.StepTwo.{objects_data}

abbrev pub keys : List ℕ
keys = 3 ∷ 8 ∷ []

abbrev pub a_page : ℕ → Blob
a_page key = 1 ∷ []

abbrev pub ledger_server : Cassandra
ledger_server = record server {
  select_successor = λ t k seq. returns (some (or_last (next_key keys k)));
}

pub holds : (seq : ℕ) → HoldsLedger ledger_server seq keys a_page
holds seq = record {
  ascending = (omega arith, omega arith, (omega arith, omega arith, tt));
  successors = ((λ t. refl), ((λ t. refl), ((λ t. refl), tt)));
  objects = ((λ t. refl), ((λ t. refl), tt));
  filled = (refl, (refl, tt));
}

pub start-HasEmptyCache : HasEmptyCache start
start-HasEmptyCache = record { no_entries = refl; not_full = refl }

abbrev record_of : ℕ → ℕ → NftsData
record_of token_id owner = page_data token_id 5 owner (4 ∷ [])

abbrev pub records : List NftsData
records = record_of 700 1003 ∷ record_of 701 1003 ∷ record_of 700 1008 ∷ record_of 701 1008 ∷ []

pub recorded : objects_data sample 5 (objects_of a_page keys) ≡ returns records
unfolding objects_data get_nft_data_from_obj
recorded = refl
