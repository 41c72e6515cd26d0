-- ===== src/Backend/Paging/Order.antt =====
-- The rows that the queries of src/backend/CassandraBackend.cpp for transactions select, and
-- where the cursor of a row leaves off.
use clio_migrator.Prelude.{
  none, ◌+◌, ◌^◌, ◌<◌, ◌≡◌, refl, ap, List, [], ◌∷◌, ◌++◌, Bool, true, false, not, ltb, ◌==◌, arith,
  All, All-back, All-weaken, keep, if◌then◌else◌,
}
use clio_migrator.Types.{TransactionsCursor}
use clio_migrator.Backend.Paging.{TxRow, row_cursor, start_cursor}

-- The order of the tuples (ledger sequence, transaction index).
abbrev pub precedes : TransactionsCursor → TransactionsCursor → Bool
precedes a b =
    if ltb a.ledger_sequence b.ledger_sequence
    then true
    else if a.ledger_sequence == b.ledger_sequence
    then ltb a.transaction_index b.transaction_index
    else false

-- `seq_idx >= ?` and `seq_idx < ?`.
unfoldable pub passes : Bool → TransactionsCursor → TxRow → Bool
passes true c r = not (precedes r.seq_idx c)
passes false c r = precedes r.seq_idx c

-- `s` is read after `r`: forwards in ascending order, else in descending order.
abbrev pub ReadAfter : Bool → TxRow → TxRow → Type 0
ReadAfter true r s = precedes r.seq_idx s.seq_idx ≡ true
ReadAfter false r s = precedes s.seq_idx r.seq_idx ≡ true

-- Both numbers are below the greatest one of 32 bits.
abbrev pub Fits : TxRow → Type 0
Fits r = (r.seq_idx.ledger_sequence + 1 < 2 ^ 32) × (r.seq_idx.transaction_index + 1 < 2 ^ 32)

-- The rows of one account or token, in the order in which they are read.
abbrev pub InOrder : Bool → List TxRow → Type 0
InOrder forward [] = Unit {0}
InOrder forward (r ∷ rows) = Fits r × All (ReadAfter forward r) rows × InOrder forward rows

passes-later :
    (forward : Bool) (r s : TxRow)
    → Fits r
    → ReadAfter forward r s
    → passes forward (row_cursor forward r) s ≡ true
unfolding passes row_cursor
passes-later true r s f h = ground arith
passes-later false r s f h = ground arith

passes_self :
    (forward : Bool) (r : TxRow) → Fits r → passes forward (row_cursor forward r) r ≡ false
unfolding passes row_cursor
passes_self true r f = ground arith
passes_self false r f = ground arith

passes-earlier :
    (forward : Bool) (r s : TxRow)
    → Fits s
    → ReadAfter forward r s
    → passes forward (row_cursor forward s) r ≡ false
unfolding passes row_cursor
passes-earlier true r s f h = ground arith
passes-earlier false r s f h = ground arith

passes-start :
    (forward : Bool) (r : TxRow) → Fits r → passes forward (start_cursor forward none) r ≡ true
unfolding passes start_cursor
passes-start true r f = ground arith
passes-start false r f = ground arith

keep-All : (p : TxRow → Bool) (rows : List TxRow) → All (λ r. p r ≡ true) rows → keep p rows ≡ rows
keep-All p [] h = refl
keep-All p (r ∷ rows) h = rw (h.0) (ap (◌∷◌ r) (keep-All p rows h.1))

keep_none :
    (p : TxRow → Bool) (rows rest : List TxRow)
    → All (λ r. p r ≡ false) rows
    → keep p (rows ++ rest) ≡ keep p rest
keep_none p [] rest h = refl
keep_none p (r ∷ rows) rest h = rw (h.0) (keep_none p rows rest h.1)

pub keep-start :
    (forward : Bool) (rows : List TxRow)
    → InOrder forward rows
    → keep (passes forward (start_cursor forward none)) rows ≡ rows
keep-start forward rows h = keep-All _ rows (all_start rows h)
  where
    all_start :
        (rs : List TxRow)
        → InOrder forward rs
        → All (λ r. passes forward (start_cursor forward none) r ≡ true) rs
    all_start [] h = tt
    all_start (r ∷ rs) h = (passes-start forward r h.0, all_start rs h.2)

-- After the last row of a page, exactly the rows behind it pass.
pub keep-after :
    (forward : Bool) (xs : List TxRow) (r : TxRow) (ys : List TxRow)
    → InOrder forward (xs ++ (r ∷ ys))
    → keep (passes forward (row_cursor forward r)) (xs ++ (r ∷ ys)) ≡ ys
keep-after forward [] r ys h = rw (passes_self forward r h.0) (
    keep-All _ ys (
      All-weaken (ReadAfter forward r) (λ s. passes forward (row_cursor forward r) s ≡ true) ys
        (λ s k. passes-later forward r s h.0 k) h.1))
keep-after forward (x ∷ xs) r ys h =
    rw (passes-earlier forward x r (fits xs h.2) (All-back (ReadAfter forward x) xs (r ∷ ys) h.1).0)
      (keep-after forward xs r ys h.2)
  where
    fits : (zs : List TxRow) → InOrder forward (zs ++ (r ∷ ys)) → Fits r
    fits [] k = k.0
    fits (z ∷ zs) k = fits zs k.2
