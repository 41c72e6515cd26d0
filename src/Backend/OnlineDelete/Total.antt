-- ===== src/Backend/OnlineDelete/Total.antt =====
-- Online deletion over a ledger that the database holds (doOnlineDelete of
-- src/backend/CassandraBackend.cpp).
use clio_migrator.Prelude.{ℕ, List, map}
use clio_migrator.Types.{Blob}
use clio_migrator.Database.{Cassandra}
use clio_migrator.Backend.Serves.{Serves}
use clio_migrator.Backend.Ledger.{HoldsLedger, objects_of}
use clio_migrator.Backend.LedgerWrites.{Insert}
use clio_migrator.Backend.OnlineDelete.{rewrite_object}

module _ (db : Cassandra) (seq : ℕ) (ks : List ℕ) (blob : ℕ → Blob)
    (holds : HoldsLedger db seq ks blob) where
  abbrev rewritten : List ℕ → List Insert
  rewritten ys = map (rewrite_object seq) (objects_of blob ys)
