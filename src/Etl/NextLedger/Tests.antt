-- ===== src/Etl/NextLedger/Tests.antt =====
-- A ledger that adds the object 7, changes 5 and deletes 9, after one with 5 and 9.
use clio_migrator.Prelude.{
  ℕ, ◌≡◌, refl, ap, List, [], ◌∷◌, ◌++◌, true, false, Option, none, some, arith, All,
}
use clio_migrator.Types.{Blob, last_key}
use clio_migrator.Outcome.{returns}
use clio_migrator.Nft.Sample.{sample}
use clio_migrator.Cache.{
  CacheEntry, SimpleCache, fresh, update_objects, update_object, newest, advance, update, get,
  get_successor, get_predecessor,
}
use clio_migrator.Cache.Sorted.{find, put, erase, upper_bound, below_lower_bound}
use clio_migrator.Cache.Invariant.{IsValid}
use clio_migrator.Backend.LedgerWrites.{
  Insert, insert_successor, insert_object, write_successor, write_transaction,
  do_write_ledger_object,
}
use clio_migrator.Etl.NextLedger.{
  ModType, created, modified, deleted, RawObject, RawLedger, Node, is_book_dir, write_objects,
  key_or, cache_updates,
}
use clio_migrator.Etl.NextLedger.Entries.{Entries, Fresh, IsFinal}
use clio_migrator.Etl.NextLedger.Neighbors.{Next, Next-found, Starts}
use clio_migrator.Etl.NextLedger.Rows.{IsTrue, Next-same, successor_after}
use clio_migrator.Nft.Sample.{mint_meta}
use clio_migrator.Nft.Data.{NftsData, minted_data, transactions_data, has_token}
use clio_migrator.Nft.FromTx.{get_nft_data_from_tx}
use clio_migrator.Nft.Mint.{get_nftoken_mint_data}
use clio_migrator.Nft.Algorithms.{sort, insert_sorted, set_difference}
use clio_migrator.Etl.NextLedger.Transactions.{
  LedgerInfo, RawTransaction, formatted, format_transaction, remove_repeats, is_later, InOrder,
  any_kept, build_next_ledger,
}
use clio_migrator.Etl.NextLedger.Built.{CanFormat, build_next_ledger_exact}

abbrev blob : Blob
blob = 1 ∷ 0 ∷ 0 ∷ []

abbrev entry : CacheEntry
entry = record { seq = 6; blob = blob }

abbrev old : Entries
old = (5, entry) ∷ (9, entry) ∷ []

abbrev cache : SimpleCache
cache = record fresh { entries = old; latest_seq = 6; full = true }

cache-IsValid : IsValid cache
unfolding find
cache-IsValid = record {
  ordered = (omega arith, (omega arith, tt));
  bounded = λ k e h. ground (arith, h);
  clean = λ h. refl;
}

abbrev object : ℕ → Blob → ModType → RawObject
object key blob mod_type = record {
  key = key;
  blob = blob;
  mod_type = mod_type;
  predecessor = none;
  successor = none;
}

abbrev raw : RawLedger
raw = record {
  neighbors_included = false;
  book_successors = [];
  objects = object 7 blob created ∷ object 5 blob modified ∷ object 9 [] deleted ∷ [];
}

abbrev node : Node
node = record { cache = cache; range = none; sent = []; nfts = [] }

-- The table before, by the entries of the cache.
table : ℕ → Option ℕ
table k = some (key_or last_key (Next-found k old cache-IsValid.ordered).0)

table_right :
    (k : ℕ) (next : Option ℕ)
    → Starts old k
    → Next old k next
    → table k ≡ some (key_or last_key next)
unfolding table
table_right k next st h =
    ap (λ n. some (key_or last_key n))
      (Next-same old k (Next-found k old cache-IsValid.ordered).0 next
        (Next-found k old cache-IsValid.ordered).1 h)

program : Unit {0}
unfolding write_objects get get_successor get_predecessor find put erase upper_bound
    below_lower_bound update update_objects update_object newest advance do_write_ledger_object
    write_successor is_book_dir
program = tt

rows_sent :
    (write_objects sample 7 raw node).1.sent
    ≡ insert_object 7 7 blob
      ∷ insert_object 5 7 blob
      ∷ insert_object 9 7 []
      ∷ insert_successor 5 7 7
      ∷ insert_successor 7 7 last_key
      ∷ insert_successor 7 7 last_key
      ∷ []
unfolding program
rows_sent = refl

abbrev info : LedgerInfo
info = record { seq = 7; hash = 70; close_time = 0 }

abbrev mint : RawTransaction
mint = record { transaction_blob = 1 ∷ []; metadata_blob = 1 ∷ [] }

mint_program : Unit {0}
unfolding format_transaction get_nft_data_from_tx get_nftoken_mint_data set_difference sort
    insert_sorted has_token write_transaction
mint_program = tt

mint_formats : CanFormat sample info mint
unfolding mint_program
mint_formats = (
  (
    formatted sample mint_meta 77 (
      transactions_data sample 701 mint_meta 77 ∷ [],
      some (minted_data sample 701 1500 (4 ∷ []) mint_meta),
    ),
    write_transaction 77 7 0 (1 ∷ []) (1 ∷ []),
  ),
  refl,
)

build_next_ledger_exact_example :
    (n' : Node) × (rows : List Insert) × (build_next_ledger sample sort info [] raw (mint ∷ []) node
      ≡ (returns tt, n'))
    × (n'.sent ≡ [] ++ rows)
    × All (IsTrue n'.cache.entries 7) rows
    × ((k : ℕ) → Fresh k (cache_updates raw.objects) → find k n'.cache.entries ≡ find k old)
    × All (IsFinal n'.cache.entries) (cache_updates raw.objects)
    × ((k : ℕ) (next : Option ℕ)
        → Starts n'.cache.entries k
        → Next n'.cache.entries k next
        → successor_after (table k) rows k ≡ some (key_or last_key next))
unfolding program
build_next_ledger_exact_example =
    build_next_ledger_exact sample sort info [] raw (mint ∷ []) node table refl cache-IsValid refl
      refl refl (omega arith) ((refl, (refl, tt)), ((refl, tt), (tt, tt)))
      (omega arith, (omega arith, (omega arith, tt)))
      ((λ e. cc), ((λ e. ((entry, refl), refl)), ((λ e. cc), tt)))
      (
        (λ e. (false, refl, λ f. cc)),
        ((λ e. cc), ((λ e. (entry, refl, (false, refl, λ f. cc))), tt)),
      )
      (mint_formats, tt) table_right

abbrev state : ℕ → NftsData
state index = record (minted_data sample 701 1500 (4 ∷ []) mint_meta) {
  transaction_index = some index;
}

any_kept_example :
    (remove_repeats sort (state 3 ∷ state 8 ∷ []) ≡ state 3 ∷ [])
    × InOrder is_later (state 3 ∷ state 8 ∷ [])
unfolding sort insert_sorted
any_kept_example =
    any_kept sort 701 (state 3 ∷ state 8 ∷ []) (state 3) (state 8 ∷ []) refl (refl, (refl, tt))
