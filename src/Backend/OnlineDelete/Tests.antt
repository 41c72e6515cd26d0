-- ===== src/Backend/OnlineDelete/Tests.antt =====
-- A database of the ledgers 5 to 7, of which 6 and 7 are kept.
use clio_migrator.Prelude.{ℕ, ◌≡◌, refl, List, [], ◌∷◌, true, some}
use clio_migrator.Types.{Blob}
use clio_migrator.Outcome.{returns}
use clio_migrator.Cache.{get, get_successor}
use clio_migrator.Database.{World, Cassandra}
use clio_migrator.Backend.Reads.{fetch_successor_key, fetch_ledger_objects}
use clio_migrator.Backend.Page.{fetch_ledger_page}
use clio_migrator.Migrator.Sample.{server, start, range}
use clio_migrator.Backend.Ledger.{next_key, or_last}
use clio_migrator.Backend.LedgerWrites.{insert_object}
use clio_migrator.Backend.OnlineDelete.{Deletion, retry_on_timeout, do_online_delete}

abbrev with_range : World
with_range = record start { range = some range }

abbrev renewed : Deletion
renewed = record { done = true; writes = insert_object 3 6 (1 ∷ []) ∷ []; first = some 6 }

run_test : (do_online_delete server 3 1 with_range).0 ≡ returns renewed
unfolding do_online_delete fetch_ledger_page fetch_successor_key fetch_ledger_objects
    retry_on_timeout get get_successor
run_test = refl

abbrev keys : List ℕ
keys = 3 ∷ 8 ∷ []

abbrev a_blob : ℕ → Blob
a_blob key = 1 ∷ []

abbrev ledger_server : Cassandra
ledger_server = record server {
  select_successor = λ t k seq. returns (some (or_last (next_key keys k)));
}
