-- ===== src/Etl/NextLedger/Exact.antt =====
-- The table of successors after the next ledger (buildNextLedger of src/etl/ReportingETL.cpp), where
-- rippled has not sent the neighbours.
use clio_migrator.Prelude.{
  ℕ, ◌+◌, ◌<◌, ◌^◌, ◌≡◌, refl, sym, ap, ◌∙◌, inl, inr, List, [], ◌++◌, append_assoc, Bool, true,
  false, Option, some, arith, All, All-append, subst, if◌then◌else◌,
}
use clio_migrator.Types.{LedgerObject, last_key}
use clio_migrator.Outcome.{returns}
use clio_migrator.Ripple.{Ripple}
use clio_migrator.Cache.{update}
use clio_migrator.Cache.Sorted.{find}
use clio_migrator.Cache.Invariant.{IsValid}
use clio_migrator.Backend.LedgerWrites.{Insert}
use clio_migrator.Etl.NextLedger.{
  RawObject, RawLedger, Node, N, send, book_successor_rows, sent_neighbor_rows, and_then, ◌>>=◌,
  ◌>>◌, pure, with_cache, before, is_modified, cache_updates, modified_keys, key_or, object_loop,
  neighbor_loop, base_loop, own_successors, write_objects,
}
use clio_migrator.Etl.NextLedger.Entries.{
  Entries, Fresh, Distinct, IsFinal, Updated, update-Updated,
}
use clio_migrator.Etl.NextLedger.Neighbors.{Next, Starts}
use clio_migrator.Etl.NextLedger.Rows.{IsTrue, HasRow-right, successor_after, successor_after-Next}
use clio_migrator.Etl.NextLedger.Loops.{
  IsReady, Emits, Emits-then, CoversAll, Covers-left, Emits-neighbors, Emits-bases,
}
use clio_migrator.Etl.NextLedger.Objects.{
  CanCheck, object_rows, object_loop-rows, All-object_rows, require_passes,
}
use clio_migrator.Etl.NextLedger.Changes.{StaysThere, row_or_same}

before_lem : (seq : ℕ) → 0 < seq → seq < 2 ^ 32 → before seq + 1 ≡ seq
before_lem seq h l = omega (arith, h, l)

module _ (seq : ℕ) (objs : List RawObject) (bases : List ℕ) (n : Node)
    (ready : IsReady n.cache.entries seq n.cache)
    (final : All (IsFinal n.cache.entries) (cache_updates objs))
    (positive : All (λ (o : LedgerObject). 0 < o.key) (cache_updates objs)) where
  -- The successors from the cache cover all objects.
  own_rows :
      Emits n.cache.entries seq n
        (own_successors seq objs bases)
        (CoversAll n.cache.entries seq (modified_keys objs) (cache_updates objs))
  unfolding own_successors Emits
  own_rows =
      let m = n.cache.entries in
      let all = CoversAll m seq (modified_keys objs) (cache_updates objs) in
      let passes = require_passes m seq n ready in
      let rest =
        neighbor_loop seq (modified_keys objs) (cache_updates objs) >> base_loop seq bases in
      subst
        (λ x.
          (rows : List Insert) × (x.0 ≡ returns tt)
          × IsReady m seq x.1.cache
          × (x.1.range ≡ n.range)
          × (x.1.sent ≡ n.sent ++ rows)
          × All (IsTrue m seq) rows
          × all rows)
        (sym (ap (λ x. and_then x (λ _. rest)) passes))
        (Emits-then m seq n (neighbor_loop seq (modified_keys objs) (cache_updates objs))
          (base_loop seq bases) all (λ rows. Unit {0}) all
          (Emits-neighbors m seq (modified_keys objs) (cache_updates objs) n ready final positive)
          (λ r. Emits-bases m seq bases _ r)
          λ xs ys k l o mem e. Covers-left m seq o xs ys (k o mem e))

-- What is said of the cache and the table afterwards.
abbrev Holds : ℕ → List RawObject → Entries → (ℕ → Option ℕ) → List Insert → Entries → Type 0
Holds seq objs old table rows new =
    All (IsTrue new seq) rows
    × ((k : ℕ) → Fresh k (cache_updates objs) → find k new ≡ find k old)
    × All (IsFinal new) (cache_updates objs)
    × ((k : ℕ) (next : Option ℕ)
        → Starts new k
        → Next new k next
        → successor_after (table k) rows k ≡ some (key_or last_key next))

abbrev program : Ripple → ℕ → RawLedger → Bool → N (Unit {0})
program r seq raw included =
    (if included
      then send (book_successor_rows seq raw.book_successors ++ sent_neighbor_rows seq raw.objects)
      else pure tt)
    >> (object_loop r seq included raw.objects [] >>= λ bases.
        with_cache (λ c. (tt, update (cache_updates raw.objects) seq false c))
        >> (if included then pure tt else own_successors seq raw.objects bases))

-- Let the cache be full and one ledger behind, and rippled have sent no neighbours; let the keys of
-- the objects be distinct and above 0, let the modified objects have been there and stay there, and
-- let each other object be read as a directory or not. If every row of the table of successors
-- tells the next key of the cache, for the first key and all keys in the cache, then the writes of
-- the ledger's objects return, and so it is again afterwards, for the cache with the ledger's
-- objects in it; no row is sent for another ledger, or tells a key that does not follow.
pub write_objects_exact :
    (r : Ripple) (seq : ℕ) (raw : RawLedger) (n : Node) (table : ℕ → Option ℕ)
    → raw.neighbors_included ≡ false
    → IsValid n.cache
    → n.cache.full ≡ true
    → n.cache.disabled ≡ false
    → n.cache.latest_seq + 1 ≡ seq
    → seq < 2 ^ 32
    → Distinct (cache_updates raw.objects)
    → All (λ (o : LedgerObject). 0 < o.key) (cache_updates raw.objects)
    → All (StaysThere n.cache.entries) raw.objects
    → All
        (λ (o : RawObject).
          is_modified o.mod_type ≡ false → CanCheck r n.cache.entries o.key o.blob)
        raw.objects
    → ((k : ℕ) (next : Option ℕ)
        → Starts n.cache.entries k
        → Next n.cache.entries k next
        → table k ≡ some (key_or last_key next))
    → (n' : Node) × (rows : List Insert) × (write_objects r seq raw n ≡ (returns tt, n'))
      × (n'.sent ≡ n.sent ++ rows)
      × All (IsTrue n'.cache.entries seq) rows
      × ((k : ℕ)
          → Fresh k (cache_updates raw.objects)
          → find k n'.cache.entries ≡ find k n.cache.entries)
      × All (IsFinal n'.cache.entries) (cache_updates raw.objects)
      × ((k : ℕ) (next : Option ℕ)
          → Starts n'.cache.entries k
          → Next n'.cache.entries k next
          → successor_after (table k) rows k ≡ some (key_or last_key next))
unfolding write_objects Emits
write_objects_exact r seq raw n table none_sent valid full enabled behind small distinct positive
      stays checks right =
    let old = n.cache.entries in
    let ups = cache_updates raw.objects in
    let ready : IsReady old (before seq) n.cache = record {
      valid = valid;
      full = full;
      latest = omega (arith, behind, small);
      holds = refl;
      enabled = enabled;
    } in
    let (bases, n₁, e₁, h₁, g₁, s₁) = object_loop-rows r old seq n raw.objects [] ready checks in
    let u : Updated seq ups n₁.cache (update ups seq false n₁.cache) =
      update-Updated seq ups n₁.cache h₁.valid h₁.enabled (omega (arith, h₁.latest, behind, small))
        distinct in
    let n₂ : Node = record n₁ { cache = update ups seq false n₁.cache } in
    let new = n₂.cache.entries in
    let (rows, e₂, h₂, g₂, s₂, t, covers) =
      own_rows seq raw.objects bases n₂
        (record {
          valid = u.valid;
          full = u.full ∙ h₁.full;
          latest = u.latest;
          holds = refl;
          enabled = u.enabled;
        })
        u.final positive in
    let n₃ = (own_successors seq raw.objects bases n₂).1 in
    let all = object_rows r old seq n.range raw.objects ++ rows in
    let kept : (k : ℕ) → Fresh k ups → find k new ≡ find k old =
      λ k f. u.kept k f ∙ ap (find k) h₁.holds in
    let true_rows =
      All-append (IsTrue new seq) (object_rows r old seq n.range raw.objects) rows
        (All-object_rows r old seq new seq n.range raw.objects) t in
    let (p₁, p₂, p₃, p₄) = subst (Holds seq raw.objects old table all) (sym h₂.holds) (
      true_rows,
      kept,
      u.final,
      λ k next st h.
          successor_after-Next new seq k next all (table k) true_rows h
            (elim (row_or_same old new raw.objects stays u.final kept seq rows covers table
              valid.ordered right k next st h) [
                | inl x ↦ inl (HasRow-right k (object_rows r old seq n.range raw.objects) rows x)
                | inr x ↦ inr x
              ]),
    ) in
    (
      n₃,
      all,
      ap (λ b. program r seq raw b n) none_sent
          ∙ ap
              (λ x. and_then x (λ bs.
                with_cache (λ c. (tt, update ups seq false c))
                >> own_successors seq raw.objects bs))
              e₁
          ∙ ap (λ o. (o, n₃)) e₂,
      s₂
          ∙ ap (λ l. l ++ rows) s₁
          ∙ append_assoc n.sent (object_rows r old seq n.range raw.objects) rows,
      p₁,
      p₂,
      p₃,
      p₄,
    )
