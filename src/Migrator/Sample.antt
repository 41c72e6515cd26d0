-- ===== src/Migrator/Sample.antt =====
-- A small stand-in for the Cassandra server (see Database.antt): two pages of transactions, one
-- object in the ledger, and a range that is read at the second attempt.
use clio_migrator.Prelude.{
  ℕ, zero, suc, ◌==◌, List, [], ◌∷◌, true, false, Option, none, some, if◌then◌else◌,
}
use clio_migrator.Types.{TransactionAndMetadata, LedgerRange}
use clio_migrator.Outcome.{Outcome, returns, throws, database_timeout}
use clio_migrator.Cache.{fresh}
use clio_migrator.Database.{Cassandra, row, TxPage, NftRow, World}

abbrev pub tx : TransactionAndMetadata
tx = record { transaction = 1 ∷ []; metadata = 1 ∷ []; ledger_sequence = 6; date = 0 }

abbrev pub tx_page : Option ℕ → TxPage
tx_page none = record { hashes = some 1 ∷ some 2 ∷ []; next = some 9 }
tx_page (some state) = record { hashes = some 3 ∷ []; next = none }

abbrev pub range_at : ℕ → Outcome (List ℕ)
range_at zero = throws database_timeout
range_at (suc t) = returns (7 ∷ 5 ∷ [])

abbrev pub nft_row : NftRow
nft_row = record { sequence = 6; owner = 1500; is_burned = false }

abbrev pub server : Cassandra
server = record {
  select_ledger_range = range_at;
  select_successor = λ t key seq. returns (if key == 0 then some 3 else none);
  select_object = λ t key seq. returns none;
  select_object_async = λ t key seq. row (1 ∷ []);
  select_transaction_async = λ t hash. row tx;
  select_nft = λ t id seq. returns (some nft_row);
  select_nft_uri = λ t id seq. returns (some (4 ∷ []));
  execute_tx_page = λ t paging. some (tx_page paging);
  drop_table = λ t. true;
}

-- A server that has no ledgers.
abbrev pub empty_server : Cassandra
empty_server = record server { select_ledger_range = λ t. returns [] }

abbrev pub start : World
start = record { now = 0; log = []; cache = fresh; range = none }

abbrev pub range : LedgerRange
range = record { min_sequence = 5; max_sequence = 7 }
