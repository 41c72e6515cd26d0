-- ===== src/Etl/NextLedger/Built.antt =====
-- The table of successors after all writes of the next ledger (buildNextLedger of
-- src/etl/ReportingETL.cpp), where rippled has not sent the neighbours.
use clio_migrator.Prelude.{
  ℕ, ◌+◌, ◌<◌, ◌^◌, ◌≡◌, refl, sym, ap, ◌∙◌, List, [], ◌∷◌, ◌++◌, append_assoc, append-nil, true,
  false, Option, none, some, All, All-append, subst,
}
use clio_migrator.Types.{Blob, LedgerObject, last_key}
use clio_migrator.Outcome.{returns, returns-injective, >>=-eq-returns}
use clio_migrator.Ripple.{Ripple}
use clio_migrator.Nft.Data.{NftTransactionsData}
use clio_migrator.Nft.FromTx.{get_nft_data_from_tx}
use clio_migrator.Cache.Sorted.{find}
use clio_migrator.Cache.Invariant.{IsValid}
use clio_migrator.Backend.Writes.{rows}
use clio_migrator.Backend.LedgerWrites.{
  Insert, AccountTransactionsData, insert_successor, write_ledger, write_transaction, account_rows,
  write_account_transactions, write_nft_transactions, position,
}
use clio_migrator.Etl.NextLedger.{
  RawObject, RawLedger, Node, N, and_then, ◌>>=◌, ◌>>◌, send, pure, is_modified, cache_updates,
  key_or,
}
use clio_migrator.Etl.NextLedger.Entries.{Entries, Fresh, Distinct, IsFinal}
use clio_migrator.Etl.NextLedger.Neighbors.{Next, Starts}
use clio_migrator.Etl.NextLedger.Rows.{IsTrue, newer, successor_of, successor_after}
use clio_migrator.Etl.NextLedger.Objects.{CanCheck}
use clio_migrator.Etl.NextLedger.Changes.{StaysThere}
use clio_migrator.Etl.NextLedger.Exact.{write_objects_exact}
use clio_migrator.Etl.NextLedger.Transactions.{
  RawTransaction, FormattedTransactionsData, LedgerInfo, none_formatted, StdSort, remove_repeats,
  both, format_transaction, transaction_loop, insert_transactions, send_nfts, build_next_ledger,
}

-- A row of another table than that of the successors.
abbrev Plain : Insert → Type 0
Plain (insert_successor j s n) = ⊥
Plain _ = Unit {0}

Plain-none : (i : Insert) (k : ℕ) → Plain i → successor_of i k ≡ none
Plain-none (insert_successor j s n) k p = absurd p
Plain-none _ k p = refl

Plain-IsTrue : (m : Entries) (seq : ℕ) (i : Insert) → Plain i → IsTrue m seq i
Plain-IsTrue m seq (insert_successor j s n) p = absurd p
Plain-IsTrue m seq _ p = tt

All-IsTrue :
    (m : Entries) (seq : ℕ) (rows' : List Insert) → All Plain rows' → All (IsTrue m seq) rows'
All-IsTrue m seq [] p = tt
All-IsTrue m seq (i ∷ rows') (p, ps) = (Plain-IsTrue m seq i p, All-IsTrue m seq rows' ps)

successor_after-append :
    (old : Option ℕ) (xs ys : List Insert) (k : ℕ)
    → successor_after old (xs ++ ys) k ≡ successor_after (successor_after old xs k) ys k
successor_after-append old [] ys k = refl
successor_after-append old (x ∷ xs) ys k =
    successor_after-append (newer (successor_of x k) old) xs ys k

successor_after-Plain :
    (old : Option ℕ) (xs : List Insert) (k : ℕ) → All Plain xs → successor_after old xs k ≡ old
successor_after-Plain old [] k p = refl
successor_after-Plain old (x ∷ xs) k (p, ps) =
    rw (Plain-none x k p) (successor_after-Plain old xs k ps)

Plain-accounts :
    (d : AccountTransactionsData) (accounts : List ℕ)
    → All Plain (account_rows (position d) d.tx_hash accounts)
Plain-accounts d [] = tt
Plain-accounts d (a ∷ accounts) = (tt, Plain-accounts d accounts)

Plain-account_transactions :
    (ds : List AccountTransactionsData) → All Plain (write_account_transactions ds)
unfolding write_account_transactions
Plain-account_transactions [] = tt
Plain-account_transactions (d ∷ ds) =
    All-append Plain (account_rows (position d) d.tx_hash d.accounts)
      (write_account_transactions ds) (Plain-accounts d d.accounts) (Plain-account_transactions ds)

Plain-nft_transactions : (ds : List NftTransactionsData) → All Plain (write_nft_transactions ds)
unfolding write_nft_transactions
Plain-nft_transactions [] = tt
Plain-nft_transactions (d ∷ ds) = (tt, Plain-nft_transactions ds)

module _ (r : Ripple) (info : LedgerInfo) where
  open r use {parse_st_tx, parse_tx_meta, get_transaction_id}

  Plain-format :
      (tx : RawTransaction) (f : FormattedTransactionsData × List Insert)
      → format_transaction r info tx ≡ returns f
      → All Plain f.1
  unfolding format_transaction write_transaction
  Plain-format tx f h =
      let (sttx, p, h₁) = >>=-eq-returns (parse_st_tx tx.transaction_blob) _ h in
      let (meta, q, h₂) =
        >>=-eq-returns (parse_tx_meta (get_transaction_id sttx) info.seq tx.metadata_blob) _ h₁ in
      let (d, s, h₃) = >>=-eq-returns (get_nft_data_from_tx r meta sttx) _ h₂ in
      subst (λ (x : FormattedTransactionsData × List Insert). All Plain x.1)
        (returns-injective _ f h₃) (tt, (tt, tt))

  -- Every transaction can be parsed.
  abbrev pub CanFormat : RawTransaction → Type 0
  CanFormat tx =
      (f : FormattedTransactionsData × List Insert) × (format_transaction r info tx ≡ returns f)

  loop_rows :
      (txs : List RawTransaction) (acc : FormattedTransactionsData) (n : Node)
      → All CanFormat txs
      → (result : FormattedTransactionsData) × (rows' : List Insert) × (transaction_loop r info txs
            acc n
          ≡ (returns result, record n { sent = n.sent ++ rows' }))
        × All Plain rows'
  unfolding transaction_loop
  loop_rows [] acc n h =
      (acc, [], ap (λ l. (returns acc, record n { sent = l })) (sym (append-nil n.sent)), tt)
  loop_rows (tx ∷ txs) acc n ((f, e), h) =
      let m : Node = record n { sent = n.sent ++ f.1 } in
      let (result, rest, q, p) = loop_rows txs (both r acc f.0) m h in
      (
        result,
        f.1 ++ rest,
        ap (λ o. and_then (o, n) (λ g. send g.1 >> transaction_loop r info txs (both r acc g.0))) e
            ∙ q
            ∙ ap (λ l. (returns result, record n { sent = l })) (append_assoc n.sent f.1 rest),
        All-append Plain f.1 rest (Plain-format tx f e) p,
      )

regroup :
    (a b c d e f : List Insert)
    → (((((a ++ b) ++ c) ++ d) ++ e) ++ f) ≡ a ++ (b ++ (c ++ ((d ++ e) ++ f)))
regroup a b c d e f = simp append_assoc

-- Let the cache be full and one ledger behind, and rippled have sent no neighbours; let the keys of
-- the objects be distinct and above 0, let the modified objects have been there and stay there, let
-- each other object be read as a directory or not, and let the transactions be parsed. If every
-- row of the table of successors tells the next key of the cache, for the first key and all keys
-- in the cache, then all writes of the ledger return, and so it is again afterwards, for the cache
-- with the ledger's objects in it and all others as they were; no row of a successor is sent for
-- another ledger, or tells a key that does not follow.
pub build_next_ledger_exact :
    (r : Ripple) (std_sort : StdSort) (info : LedgerInfo) (header : Blob) (raw : RawLedger)
    (txs : List RawTransaction) (n : Node) (table : ℕ → Option ℕ)
    → raw.neighbors_included ≡ false
    → IsValid n.cache
    → n.cache.full ≡ true
    → n.cache.disabled ≡ false
    → n.cache.latest_seq + 1 ≡ info.seq
    → info.seq < 2 ^ 32
    → Distinct (cache_updates raw.objects)
    → All (λ (o : LedgerObject). 0 < o.key) (cache_updates raw.objects)
    → All (StaysThere n.cache.entries) raw.objects
    → All
        (λ (o : RawObject).
          is_modified o.mod_type ≡ false → CanCheck r n.cache.entries o.key o.blob)
        raw.objects
    → All (CanFormat r info) txs
    → ((k : ℕ) (next : Option ℕ)
        → Starts n.cache.entries k
        → Next n.cache.entries k next
        → table k ≡ some (key_or last_key next))
    → (n' : Node) × (rows' : List Insert) × (build_next_ledger r std_sort info header raw txs n
        ≡ (returns tt, n'))
      × (n'.sent ≡ n.sent ++ rows')
      × All (IsTrue n'.cache.entries info.seq) rows'
      × ((k : ℕ)
          → Fresh k (cache_updates raw.objects)
          → find k n'.cache.entries ≡ find k n.cache.entries)
      × All (IsFinal n'.cache.entries) (cache_updates raw.objects)
      × ((k : ℕ) (next : Option ℕ)
          → Starts n'.cache.entries k
          → Next n'.cache.entries k next
          → successor_after (table k) rows' k ≡ some (key_or last_key next))
unfolding build_next_ledger insert_transactions write_ledger
build_next_ledger_exact r std_sort info header raw txs n table none_sent valid full enabled behind
      small distinct positive stays checks can right =
    let head = (write_ledger info.seq info.hash header).0 in
    let n₀ : Node = record n { sent = n.sent ++ head } in
    let (n₁, mid, e, s, t, kept, final, so) =
      write_objects_exact r info.seq raw n₀ table none_sent valid full enabled behind small distinct
        positive stays checks right in
    let (result, tx_rows, e', p) = loop_rows r info txs none_formatted n₁ can in
    let nfts' = remove_repeats std_sort result.nf_tokens_data in
    let accounts = write_account_transactions result.account_tx_data in
    let links = write_nft_transactions result.nf_token_tx_data in
    let tail = (tx_rows ++ accounts) ++ links in
    let plain =
      All-append Plain (tx_rows ++ accounts) links
        (All-append Plain tx_rows accounts p (Plain-account_transactions result.account_tx_data))
        (Plain-nft_transactions result.nf_token_tx_data) in
    let n₂ : Node = record n₁ {
      sent = ((n₁.sent ++ tx_rows) ++ accounts) ++ links;
      nfts = n₁.nfts ++ rows r nfts';
    } in
    let after : FormattedTransactionsData → N (Unit {0}) = λ d.
      send (write_account_transactions d.account_tx_data)
      >> (send_nfts r d.nf_tokens_data >> send (write_nft_transactions d.nf_token_tx_data)) in
    (
      n₂,
      head ++ (mid ++ tail),
      ap (λ x. and_then x (λ u. insert_transactions r std_sort info txs >>= after)) e
          ∙ ap
              (λ x.
                and_then
                  (and_then x (λ d.
                    pure (record d { nf_tokens_data = remove_repeats std_sort d.nf_tokens_data })))
                  after)
              e',
      ap (λ l. ((l ++ tx_rows) ++ accounts) ++ links) s
          ∙ regroup n.sent head mid tx_rows accounts links,
      (
        tt,
        (
          tt,
          All-append (IsTrue n₁.cache.entries info.seq) mid tail t
              (All-IsTrue n₁.cache.entries info.seq tail plain),
        ),
      ),
      kept,
      final,
      λ k next st h.
          successor_after-append (table k) mid tail k
          ∙ successor_after-Plain (successor_after (table k) mid k) tail k plain
          ∙ so k next st h,
    )
