-- ===== src/Etl/NextLedger/Objects.antt =====
-- The loop over the objects comes to its end and sends their rows (buildNextLedger of
-- src/etl/ReportingETL.cpp), where the cache is full and one ledger behind.
use clio_migrator.Prelude.{
  ℕ, ◌≤◌, ◌≡◌, refl, sym, ap, ◌∙◌, ◌||◌, List, [], ◌∷◌, ◌++◌, append_assoc, append-nil, Bool, true,
  false, Option, none, some, if◌then◌else◌, ==_iff, arith, All, All-append, if_cases,
}
use clio_migrator.Types.{Blob, LedgerObject, LedgerRange, is_empty}
use clio_migrator.Outcome.{returns}
use clio_migrator.Ripple.{Ripple}
use clio_migrator.Cache.{CacheEntry, SimpleCache, get, get_successor}
use clio_migrator.Cache.Sorted.{find}
use clio_migrator.Cache.Invariant.{get_window, step-IsValid, step, gets}
use clio_migrator.Backend.LedgerWrites.{Insert, do_write_ledger_object}
use clio_migrator.Etl.NextLedger.{
  RawObject, Node, N, and_then, ◌>>=◌, ◌>>◌, pure, lift, send, with_cache, dereference, before,
  is_modified, require_cache, is_book_dir, old_or_new, get_book_base, check_book_base, object_loop,
  key_of, insert_base, first_changes,
}
use clio_migrator.Etl.NextLedger.Entries.{Entries}
use clio_migrator.Etl.NextLedger.Neighbors.{Next}
use clio_migrator.Etl.NextLedger.Rows.{IsTrue, Next-same}
use clio_migrator.Etl.NextLedger.Loops.{IsReady, IsReady-successor, found_successor}

IsReady-get :
    (m : Entries) (seq key at : ℕ) (c : SimpleCache)
    → IsReady m seq c
    → IsReady m seq (get key at c).1
unfolding get step
IsReady-get m seq key at c h = record {
  valid = step-IsValid c (gets key at) h.valid;
  full = ground (arith, h.full);
  latest = ground (arith, h.latest);
  holds = ground (arith, h.holds);
  enabled = ground (arith, h.enabled);
}

pub require_passes :
    (m : Entries) (seq : ℕ) (n : Node)
    → IsReady m seq n.cache
    → require_cache seq n ≡ (returns tt, n)
require_passes m seq n h = rw (h.full) (rw ((==_iff n.cache.latest_seq seq).1 h.latest) refl)

module _ (r : Ripple) (m : Entries) where
  -- It can be told whether an object is a directory of a book, and if it is one, the book had a
  -- first directory.
  abbrev pub ReadsAsDir : ℕ → Blob → Type 0
  ReadsAsDir key blob =
      (b : Bool) × (is_book_dir r key blob ≡ returns b)
      × (b ≡ true → (f : ℕ) × Next m (get_book_base key) (some f))

  -- So for the object that was deleted, or is there now.
  abbrev pub CanCheck : ℕ → Blob → Type 0
  CanCheck key [] = (e : CacheEntry) × (find key m ≡ some e) × ReadsAsDir key e.blob
  CanCheck key (b ∷ bs) = ReadsAsDir key (b ∷ bs)

  module _ (seq : ℕ) where
    -- A computation that reads the cache returns.
    Looks : {A : Type 0} → Node → N A → (A → Type 0) → Type 0
    Looks {A} n run P =
        (a : A) × (n' : Node) × (run n ≡ (returns a, n'))
        × P a
        × IsReady m (before seq) n'.cache
        × (n'.range ≡ n.range)
        × (n'.sent ≡ n.sent)

    Looks-bind :
        {A B : Type 0} (n : Node) (run : N A) (f : A → N B) (P : A → Type 0) (Q : B → Type 0)
        → Looks n run P
        → ((a : A) (n' : Node) → P a → IsReady m (before seq) n'.cache → Looks n' (f a) Q)
        → Looks n (run >>= f) Q
    unfolding Looks
    Looks-bind n run f P Q (a, n', e, p, h, g, s) k =
        let (b, n'', e', q, h', g', s') = k a n' p h in
        (b, n'', ap (λ x. and_then x f) e ∙ e', q, h', g' ∙ g, s' ∙ s)

    Looks-pure :
        {A : Type 0} (n : Node) (a : A) (P : A → Type 0)
        → P a
        → IsReady m (before seq) n.cache
        → Looks n (pure a) P
    unfolding Looks
    Looks-pure n a P p h = (a, n, refl, p, h, refl, refl)

    Looks-old :
        (n : Node) (key : ℕ) (blob : Blob)
        → IsReady m (before seq) n.cache
        → CanCheck key blob
        → Looks n (old_or_new seq key blob) (ReadsAsDir key)
    unfolding Looks
    Looks-old n key (b ∷ bs) h c = (b ∷ bs, n, refl, c, h, refl, refl)
    Looks-old n key [] h (e, there, c) =
        let c' = n.cache in
        let found : find key c'.entries ≡ some e = ap (find key) h.holds ∙ there in
        let recent : e.seq ≤ before seq = omega (arith, h.valid.bounded key e found, h.latest) in
        let q : (get key (before seq) c').0 ≡ some e.blob =
          (get_window key (before seq) c' e.blob).1
            (e.seq, found, recent, omega (arith, h.latest)) in
        (
          e.blob,
          record n { cache = (get key (before seq) c').1 },
          ap (λ o. dereference o (record n { cache = (get key (before seq) c').1 })) q,
          c,
          IsReady-get m (before seq) key (before seq) c' h,
          refl,
          refl,
        )

    is_found :
        (o : Option LedgerObject) (f : ℕ) → key_of o ≡ some f → (d : LedgerObject) × (o ≡ some d)
    is_found none f e = absurd (let q = e in cc)
    is_found (some d) f e = (d, refl)

    Looks-first :
        (n : Node) (key f : ℕ)
        → IsReady m (before seq) n.cache
        → Next m key (some f)
        → Looks n
            (with_cache (get_successor key (before seq)))
            (λ (o : Option LedgerObject). (d : LedgerObject) × (o ≡ some d))
    unfolding Looks
    Looks-first n key f h x =
        let o = (get_successor key (before seq) n.cache).0 in
        (
          o,
          record n { cache = (get_successor key (before seq) n.cache).1 },
          refl,
          is_found o f (
              Next-same m key (key_of o) (some f) (found_successor m (before seq) key n.cache h) x),
          IsReady-successor m (before seq) key (before seq) n.cache h,
          refl,
          refl,
        )

    abbrev Any : {A : Type 0} → A → Type 0
    Any a = Unit {0}

    abbrev with_first : RawObject → List ℕ → Option LedgerObject → N (List ℕ)
    with_first obj bases first = dereference first >>= λ d. pure (
        if first_changes (is_empty obj.blob) obj.key d.key
        then insert_base (get_book_base obj.key) bases
        else bases)

    Looks-checked :
        (n : Node) (obj : RawObject) (bases : List ℕ) (check : Bool)
        → IsReady m (before seq) n.cache
        → (check ≡ true → (f : ℕ) × Next m (get_book_base obj.key) (some f))
        → Looks n
            (if check
              then with_cache (get_successor (get_book_base obj.key) (before seq))
                >>= with_first obj bases
              else pure bases)
            Any
    Looks-checked n obj bases false h k = Looks-pure n bases Any tt h
    Looks-checked n obj bases true h k =
        let (f, x) = k refl in
        Looks-bind n (with_cache (get_successor (get_book_base obj.key) (before seq)))
          (with_first obj bases) (λ (o : Option LedgerObject). (d : LedgerObject) × (o ≡ some d))
          Any (Looks-first n (get_book_base obj.key) f h x)
          λ o n' (d, e) h'. rw e (Looks-pure n' _ Any tt h')

    Looks-check :
        (n : Node) (obj : RawObject) (bases : List ℕ)
        → IsReady m (before seq) n.cache
        → CanCheck obj.key obj.blob
        → Looks n (check_book_base r seq obj bases) Any
    unfolding check_book_base Looks
    Looks-check n obj bases h c =
        Looks-bind n (require_cache (before seq)) _ Any Any
          (tt, n, require_passes m (before seq) n h, tt, h, refl, refl)
          λ u n₁ t h₁.
            Looks-bind n₁ (old_or_new seq obj.key obj.blob) _ (ReadsAsDir obj.key) Any
              (Looks-old n₁ obj.key obj.blob h₁ c)
              λ blob n₂ (b, e, k) h₂.
                Looks-bind n₂ (lift (is_book_dir r obj.key blob)) _ (λ x. x ≡ b) Any
                  (b, n₂, ap (λ o. (o, n₂)) e, refl, h₂, refl, refl)
                  λ check n₃ same h₃. Looks-checked n₃ obj bases check h₃ (λ t. k (sym same ∙ t))

    abbrev maybe_check : RawObject → List ℕ → N (List ℕ)
    maybe_check obj bases =
        if is_modified obj.mod_type || false then pure bases else check_book_base r seq obj bases

    Looks-maybe :
        (n : Node) (obj : RawObject) (bases : List ℕ)
        → IsReady m (before seq) n.cache
        → (is_modified obj.mod_type ≡ false → CanCheck obj.key obj.blob)
        → Looks n (maybe_check obj bases) Any
    Looks-maybe n obj bases h c =
        if_cases (λ run. Looks n run Any) (is_modified obj.mod_type || false)
          (λ e. Looks-pure n bases Any tt h)
          (λ e. Looks-check n obj bases h (c (ground (arith, e))))

    object_rows-IsTrue :
        (m' : Entries) (seq' : ℕ) (range : Option LedgerRange) (key : ℕ) (blob : Blob)
        → All (IsTrue m' seq') (do_write_ledger_object range key seq blob)
    unfolding do_write_ledger_object
    object_rows-IsTrue m' seq' none key blob = (tt, tt)
    object_rows-IsTrue m' seq' (some r) key blob = (tt, (tt, tt))

    abbrev pub object_rows : Option LedgerRange → List RawObject → List Insert
    object_rows range [] = []
    object_rows range (obj ∷ objs) =
        do_write_ledger_object range obj.key seq obj.blob ++ object_rows range objs

    pub All-object_rows :
        (m' : Entries) (seq' : ℕ) (range : Option LedgerRange) (objs : List RawObject)
        → All (IsTrue m' seq') (object_rows range objs)
    All-object_rows m' seq' range [] = tt
    All-object_rows m' seq' range (obj ∷ objs) =
        All-append (IsTrue m' seq') (do_write_ledger_object range obj.key seq obj.blob)
          (object_rows range objs) (object_rows-IsTrue m' seq' range obj.key obj.blob)
          (All-object_rows m' seq' range objs)

    -- The loop returns, with the rows of all objects.
    pub object_loop-rows :
        (n : Node) (objs : List RawObject) (bases : List ℕ)
        → IsReady m (before seq) n.cache
        → All (λ (o : RawObject). is_modified o.mod_type ≡ false → CanCheck o.key o.blob) objs
        → (bs : List ℕ) × (n' : Node) × (object_loop r seq false objs bases n ≡ (returns bs, n'))
          × IsReady m (before seq) n'.cache
          × (n'.range ≡ n.range)
          × (n'.sent ≡ n.sent ++ object_rows n.range objs)
    unfolding object_loop Looks
    object_loop-rows n [] bases h c = (bases, n, refl, h, refl, sym (append-nil n.sent))
    object_loop-rows n (obj ∷ objs) bases h (c, cs) =
        let (found, n₁, e, t, h₁, g, s) = Looks-maybe n obj bases h c in
        let rows = do_write_ledger_object n₁.range obj.key seq obj.blob in
        let (bs, n₂, e₂, h₂, g₂, s₂) =
          object_loop-rows (record n₁ { sent = n₁.sent ++ rows }) objs found h₁ cs in
        (
          bs,
          n₂,
          ap
                (λ x. and_then x (λ f.
                  (λ k. send (do_write_ledger_object k.range obj.key seq obj.blob) k)
                  >> object_loop r seq false objs f))
                e
              ∙ e₂,
          h₂,
          g₂ ∙ g,
          s₂
              ∙ append_assoc n₁.sent rows (object_rows n₁.range objs)
              ∙ ap (λ l. l ++ (rows ++ object_rows n₁.range objs)) s
              ∙ ap
                  (λ range.
                    n.sent
                    ++ (do_write_ledger_object range obj.key seq obj.blob
                        ++ object_rows range objs))
                  g,
        )
