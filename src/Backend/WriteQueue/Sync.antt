-- ===== src/Backend/WriteQueue/Sync.antt =====
-- What `sync` and the counter promise (src/backend/CassandraBackend.h).
use clio_migrator.Prelude.{
  ℕ, zero, suc, ◌+◌, ◌^◌, ◌≤◌, ◌<◌, ◌≡◌, ◌↔◌, refl, ap, inl, inr, List, [], ◌∷◌, ◌++◌, some, arith,
  All,
}
use mathlib.Core.List.{Memᴰ}
use mathlib.Core.List.Memᴰ
use clio_migrator.Database.{Event}
use clio_migrator.Backend.WriteQueue.{
  Phase, called, admitted, counted, acknowledged, sent, backing_off, Request, WriteQueue,
  decrement_outstanding, weight, is_starting, Steps, idle, rows_of, CanSync, rows_of,
}
use clio_migrator.Backend.WriteQueue.Invariant.{
  IsStored, is_held, weight-split, Steps-Inv, Inv-idle,
}

all_stored :
    (tables : List Event) (rs : List Request)
    → weight is_held rs ≡ 0
    → weight is_starting rs ≡ 0
    → All (IsStored tables) rs
    → (e : Event) → Memᴰ e (rows_of rs)
    → Memᴰ e tables
all_stored tables [] h s st e m = elim m [ ]
all_stored tables (r ∷ rs) h s st e m = elim (Memᴰ.cases_cons m) [
  | inl q ↦ Memᴰ.cast q (st.0 (done r.phase (omega (arith, h)) (omega (arith, s))))
  | inr m' ↦ all_stored tables rs (omega (arith, h)) (omega (arith, s)) st.1 e m'
]
  where
    done : (p : Phase) → is_held p ≡ 0 → is_starting p ≡ 0 → p ≡ acknowledged
    done called h s = absurd (omega (arith, s))
    done admitted h s = absurd (omega (arith, s))
    done counted h s = absurd (omega (arith, h))
    done (sent n) h s = absurd (omega (arith, h))
    done (backing_off n) h s = absurd (omega (arith, h))
    done acknowledged h s = refl

-- When no thread is inside a write and `sync` can return, the tables hold exactly the rows that
-- were written, whatever order the steps and answers came in and however often the server failed,
-- for limits on requests and threads that together fit in 32 bits.
pub sync_stores :
    (max threads : ℕ) (q : WriteQueue)
    → max + threads ≤ 2 ^ 32
    → 0 < threads
    → Steps max threads idle q
    → weight is_starting q.requests ≡ 0
    → CanSync q
    → (e : Event) → Memᴰ e q.shared.tables ↔ Memᴰ e (rows_of q.requests)
sync_stores max threads q small some_thread st quiet done e =
    let inv = Steps-Inv max threads small st (Inv-idle max threads some_thread) in
    (
      inv.known e,
      all_stored q.shared.tables q.requests (omega (arith, inv.held, done)) quiet inv.stored e,
    )

pub positive : (n : ℕ) → 0 < n → (k : ℕ) × (decrement_outstanding n ≡ some k)
unfolding decrement_outstanding
positive zero h = absurd (omega arith)
positive (suc n) h = (n, refl)

-- In every state that `threads` threads reach, fewer requests than the limit and the threads
-- together are outstanding, and an acknowledgement finds the counter above 0, so that
-- counting down does not throw.
pub outstanding_bounds :
    (max threads : ℕ) (q : WriteQueue)
    → max + threads ≤ 2 ^ 32
    → 0 < threads
    → Steps max threads idle q
    → (q.shared.outstanding < max + threads)
      × ((xs ys : List Request) (row : Event) (n : ℕ)
          → q.requests ≡ xs ++ (record { row = row; phase = sent n } ∷ ys)
          → (k : ℕ) × (decrement_outstanding q.shared.outstanding ≡ some k))
outstanding_bounds max threads q small some_thread st =
    let inv = Steps-Inv max threads small st (Inv-idle max threads some_thread) in
    (
      omega (arith, inv.room),
      λ xs ys row n e. positive q.shared.outstanding (
          omega (
            arith,
            inv.held,
            ap (weight is_held) e,
            weight-split is_held xs ys (record { row = row; phase = sent n }),
          )),
    )
