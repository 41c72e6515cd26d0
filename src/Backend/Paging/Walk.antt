-- ===== src/Backend/Paging/Walk.antt =====
-- Reading the transactions of an account or a token page after page
-- (src/backend/CassandraBackend.cpp).
use clio_migrator.Prelude.{
  ℕ, zero, suc, ◌<◌, ◌≡◌, refl, sym, ap, subst, ◌∙◌, List, [], ◌∷◌, ◌++◌, Bool, Option, none, some,
  inl, inr, ◌==◌, arith, keep, if_cases, if◌then◌else◌, length, length-append, take, drop,
  take-split, map, map-append, append_assoc,
}
use clio_migrator.Types.{
  TransactionsCursor, TransactionsAndCursor, TransactionAndMetadata, LedgerRange,
}
use clio_migrator.Outcome.{returns}
use clio_migrator.Database.{M, ◌>>=◌, pure, ask_outcome, row, Cassandra}
use clio_migrator.Backend.Paging.{
  TxRow, TxQuery, row_cursor, start_cursor, last_cursor, page_of_txns, fetch_rows, if_range,
  fetch_page,
}
use clio_migrator.Backend.Paging.Order.{passes, InOrder, keep-start, keep-after}
use clio_migrator.Backend.Serves.{
  Serves, Serves-bind, Serves-pure, Serves-ask_outcome, Serves-fetch_transactions,
}
use clio_migrator.Backend.Paging.Client.{Known, Known-tick, next_pages, read_all, HasRows}

last_of_page :
    (forward : Bool) (r : TxRow) (rows : List TxRow) (cursor : Option TransactionsCursor)
    → (xs : List TxRow) × (s : TxRow) × (r ∷ rows ≡ xs ++ (s ∷ []))
      × (last_cursor forward (r ∷ rows) cursor ≡ some (row_cursor forward s))
unfolding last_cursor
last_of_page forward r [] cursor = ([], r, refl, refl)
last_of_page forward r (s ∷ rows) cursor =
    let (xs, t, e, f) = last_of_page forward s rows cursor in (r ∷ xs, t, ap (◌∷◌ r) e, f)

length-map :
    (f : TxRow → TransactionAndMetadata) (rows : List TxRow) → length (map f rows) ≡ length rows
length-map f [] = refl
length-map f (r ∷ rows) = ap suc (length-map f rows)

module _ (rng : LedgerRange) (db : Cassandra) (tx_of : ℕ → TransactionAndMetadata)
    (answers : (t hash : ℕ) → db.select_transaction_async t hash ≡ row (tx_of hash))
    (select_forward select : TxQuery) (key l : ℕ) (forward : Bool) (rows : List TxRow)
    (has_rows : HasRows (if forward then select_forward else select) forward key rows) where
  abbrev tx_of_row : TxRow → TransactionAndMetadata
  tx_of_row r = tx_of r.hash

  abbrev page_from : Option TransactionsCursor → List TxRow → TransactionsAndCursor
  page_from cursor p = page_of_txns (suc l) (last_cursor forward p cursor) (map tx_of_row p)

  map-map : (p : List TxRow) → map tx_of (map TxRow.hash p) ≡ map tx_of_row p
  map-map [] = refl
  map-map (r ∷ p) = ap (◌∷◌ (tx_of r.hash)) (map-map p)

  Serves-fetch_rows :
      (cursor : Option TransactionsCursor) (p : List TxRow)
      → Serves (Known rng) (fetch_rows db (suc l) forward cursor p) (page_from cursor p)
  unfolding fetch_rows page_of_txns
  Serves-fetch_rows cursor [] w r = (w, ground arith, r)
  Serves-fetch_rows cursor (r ∷ p) w h =
      subst
        (λ txns.
          Serves (Known rng) (fetch_rows db (suc l) forward cursor (r ∷ p))
            (page_of_txns (suc l) (last_cursor forward (r ∷ p) cursor) txns))
        (map-map (r ∷ p))
        (Serves-bind (Known rng) _ _ (map tx_of (map TxRow.hash (r ∷ p))) _
          (Serves-fetch_transactions (Known rng) (Known-tick rng) db tx_of answers
            (map TxRow.hash (r ∷ p)))
          (Serves-pure (Known rng) (
            page_of_txns (suc l) (last_cursor forward (r ∷ p) cursor)
              (map tx_of (map TxRow.hash (r ∷ p))))))
        w h

  Serves-fetch_page :
      (cursor : Option TransactionsCursor) (ys : List TxRow)
      → keep (passes forward (start_cursor forward cursor)) rows ≡ ys
      → Serves
          (Known rng)
          (fetch_page db select_forward select key (suc l) forward cursor)
          (page_from cursor (take (suc l) ys))
  unfolding fetch_page
  Serves-fetch_page cursor ys e w r =
      let body =
        ask_outcome (λ t.
          (if forward then select_forward else select) t key (start_cursor forward cursor) (suc l))
        >>= fetch_rows db (suc l) forward cursor in
      let (v, f, s) =
        Serves-bind (Known rng) _ (fetch_rows db (suc l) forward cursor) (take (suc l) ys)
          (page_from cursor (take (suc l) ys))
          (Serves-ask_outcome (Known rng) (Known-tick rng) _ (take (suc l) ys) (λ t.
            has_rows t (start_cursor forward cursor) (suc l)
            ∙ ap (λ k. returns (take (suc l) k)) e))
          (Serves-fetch_rows cursor (take (suc l) ys)) w r in
      (v, ap (λ o. if_range body o w) r ∙ f, s)

  abbrev page_with : List TxRow → Option TransactionsCursor → TransactionsAndCursor
  page_with p c = record { txns = map tx_of_row p; cursor = c }

  page_end :
      (cursor : Option TransactionsCursor) (p : List TxRow)
      → length p < suc l
      → page_from cursor p ≡ page_with p none
  unfolding page_of_txns
  page_end cursor p h =
      if_cases (λ c. page_with p c ≡ page_with p none) (length (map tx_of_row p) == suc l)
        (λ e. absurd (ground (arith, length-map tx_of_row p))) (λ e. refl)

  page_more :
      (cursor : Option TransactionsCursor) (p : List TxRow)
      → length p ≡ suc l
      → (xs : List TxRow) × (s : TxRow) × (p ≡ xs ++ (s ∷ []))
        × (page_from cursor p ≡ page_with p (some (row_cursor forward s)))
  unfolding page_of_txns
  page_more cursor [] h = absurd (omega (arith, h))
  page_more cursor (r ∷ p) h =
      let (xs, s, e, f) = last_of_page forward r p cursor in
      (
        xs,
        s,
        e,
        if_cases (λ c. page_with (r ∷ p) c ≡ page_with (r ∷ p) (some (row_cursor forward s)))
            (length (map tx_of_row (r ∷ p)) == suc l) (λ q. ap (page_with (r ∷ p)) f)
            (λ q. absurd (ground (arith, length-map tx_of_row (r ∷ p)))),
      )

  abbrev fetch : Option TransactionsCursor → M TransactionsAndCursor
  fetch cursor = fetch_page db select_forward select key (suc l) forward cursor

  abbrev rest_of : ℕ → TransactionsAndCursor → M (List TransactionAndMetadata)
  rest_of fuel page = next_pages (λ c. read_all fuel fetch (some c)) page page.cursor

  -- Behind the page that ends with `s`.
  behind :
      (pre xs p zs : List TxRow) (s : TxRow)
      → p ≡ xs ++ (s ∷ [])
      → pre ++ (p ++ zs) ≡ (pre ++ xs) ++ (s ∷ zs)
  behind pre xs p zs s e = ap (λ q. pre ++ (q ++ zs)) e ∙ simp append_assoc

  Serves-rest :
      (fuel : ℕ) (p zs : List TxRow) (c : TransactionsCursor)
      → Serves (Known rng) (read_all fuel fetch (some c)) (map tx_of_row zs)
      → Serves (Known rng) (rest_of fuel (page_with p (some c))) (map tx_of_row (p ++ zs))
  Serves-rest fuel p zs c h =
      Serves-bind (Known rng) (read_all fuel fetch (some c)) _ (map tx_of_row zs) _ h (
        subst (λ txs. Serves (Known rng) (pure (map tx_of_row p ++ map tx_of_row zs)) txs)
          (sym (map-append tx_of_row p zs)) (Serves-pure (Known rng) _))

  walk :
      (fuel : ℕ) (pre ys : List TxRow) (cursor : Option TransactionsCursor)
      → InOrder forward rows
      → rows ≡ pre ++ ys
      → keep (passes forward (start_cursor forward cursor)) rows ≡ ys
      → length ys < fuel
      → Serves (Known rng) (read_all fuel fetch cursor) (map tx_of_row ys)
  unfolding read_all start_cursor
  walk zero pre ys cursor o e k h = absurd (omega (arith, h))
  walk (suc fuel) pre ys cursor o e k h =
      Serves-bind (Known rng) (fetch cursor) (rest_of fuel) (page_from cursor (take (suc l) ys)) _
        (Serves-fetch_page cursor ys k)
        (elim (take-split (suc l) ys) [
          | inr (short, all) ↦
              rw (page_end cursor (take (suc l) ys) short, all)
                (Serves-pure (Known rng) (map tx_of_row ys))
          | inl (full, split) ↦
              let p = take (suc l) ys in
              let zs = drop (suc l) ys in
              let (xs, s, f, q) = page_more cursor p full in
              let at : rows ≡ (pre ++ xs) ++ (s ∷ zs) =
                e ∙ ap (λ t. pre ++ t) split ∙ behind pre xs p zs s f in
              let passed : keep (passes forward (row_cursor forward s)) rows ≡ zs =
                subst (λ r. keep (passes forward (row_cursor forward s)) r ≡ zs) (sym at)
                  (keep-after forward (pre ++ xs) s zs (subst (InOrder forward) at o)) in
              let more =
                walk fuel (pre ++ p) zs (some (row_cursor forward s)) o
                  (e ∙ ap (λ t. pre ++ t) split ∙ sym (append_assoc pre p zs)) passed
                  (omega (arith, h, full, length-append p zs, ap length split)) in
              subst (λ t. Serves (Known rng) (rest_of fuel (page_from cursor p)) (map tx_of_row t))
                (sym split)
                (subst (λ page. Serves (Known rng) (rest_of fuel page) (map tx_of_row (p ++ zs)))
                  (sym q) (Serves-rest fuel p zs (row_cursor forward s) more))
        ])

  pub pages_lem :
      (fuel : ℕ)
      → InOrder forward rows
      → length rows < fuel
      → Serves
          (Known rng)
          (read_all fuel (fetch_page db select_forward select key (suc l) forward) none)
          (map (λ r. tx_of r.hash) rows)
  pages_lem fuel o h = walk fuel [] rows none o refl (keep-start forward rows o) h
