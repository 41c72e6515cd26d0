-- ===== src/Backend/Commit/Tests.antt =====
-- A server that makes every update but loses its first answers, and runs against it.
use clio_migrator.Prelude.{
  ℕ, zero, suc, ◌+◌, ◌≤◌, ◌<◌, refl, inl, List, [], ◌∷◌, true, Option, none, some, arith,
}
use clio_migrator.Types.{LedgerRange}
use clio_migrator.Outcome.{returns}
use clio_migrator.Backend.Commit.{RangeUpdate, Reply, rc_error, applied, RangeServer}
use clio_migrator.Backend.Commit.Server.{
  RangeRows, matches, after, Cas, lost_answer, answered, IsServer, Spends, RowsRead,
}
use clio_migrator.Backend.Commit.Update.{Gives}
use clio_migrator.Backend.Commit.Rows.{no_rows_yet, rows_of}
use clio_migrator.Backend.Commit.Sync.{writer, finish_run, sync_run}
use clio_migrator.Backend.Commit.AsyncRun.{async_run}

record Store : Type 0 where
  rows : RangeRows
  losses : ℕ

abbrev execute_with : RangeUpdate → RangeRows → ℕ → Reply × Store
execute_with u t zero = (applied (matches u t), record { rows = after u t; losses = 0 })
execute_with u t (suc n) = (rc_error, record { rows = after u t; losses = n })

abbrev listed : Option ℕ → Option ℕ → List ℕ
listed none none = []
listed (some a) none = a ∷ []
listed none (some b) = b ∷ []
listed (some a) (some b) = a ∷ b ∷ []

abbrev lossy : RangeServer Store
lossy = record {
  execute = λ u s. execute_with u s.rows s.losses;
  select_ledger_range = λ s. (returns (listed s.rows.first s.rows.latest), s);
  sync = λ s. s;
}

Cas-any :
    (u : RangeUpdate) (t : RangeRows) (n : ℕ)
    → Cas u t (execute_with u t n).0 (execute_with u t n).1.rows
Cas-any u t zero = answered
Cas-any u t (suc n) = lost_answer

Spends-any :
    (u : RangeUpdate) (t : RangeRows) (n : ℕ)
    → Spends (execute_with u t n).0 n (execute_with u t n).1.losses
Spends-any u t zero = omega arith
Spends-any u t (suc n) = omega arith

listed_lem : (a b : Option ℕ) → RowsRead a b (listed a b)
listed_lem none none = refl
listed_lem (some a) none = refl
listed_lem none (some b) = refl
listed_lem (some a) (some b) = inl refl

lossy-IsServer : IsServer lossy Store.rows Store.losses
lossy-IsServer = record {
  cas = λ u s. Cas-any u s.rows s.losses;
  spends = λ u s. Spends-any u s.rows s.losses;
  reads = λ s. (listed_lem s.rows.first s.rows.latest, omega arith);
  read_keeps = λ s. refl;
  sync_keeps = λ s. refl;
  sync_spends = λ s. omega arith;
}

abbrev empty_store : Store
empty_store = record { rows = no_rows_yet; losses = 2 }

abbrev ahead : Store
ahead = record { rows = rows_of 5 9; losses = 2 }

abbrev five_to : ℕ → LedgerRange
five_to n = record { min_sequence = 5; max_sequence = n }

sync_run_example :
    Gives lossy Store.rows Store.losses
      (finish_run lossy 4 1 3 5 (writer none 0 0) empty_store)
      (true, writer (some (five_to 7)) 0 7)
      (rows_of 5 7)
      2
sync_run_example =
    sync_run lossy Store.rows Store.losses lossy-IsServer 2 4 5 0 empty_store refl (omega arith)
      (omega arith) (omega arith)

async_run_example :
    (k : ℕ) × ((5 ≤ k) × (k ≤ 5 + 3) × (5 + 3 < k + 2))
    × Gives lossy Store.rows Store.losses
        (finish_run lossy 4 2 4 5 (writer none 0 0) empty_store)
        (true, writer (some (five_to 8)) k 8)
        (rows_of 5 k)
        2
async_run_example =
    async_run lossy Store.rows Store.losses lossy-IsServer 2 3 4 5 empty_store (omega arith)
      (omega arith) (omega arith) refl (omega arith) (omega arith) (omega arith)
