-- ===== src/Backend/WriteQueue/Invariant.antt =====
-- The counter of outstanding writes agrees with the writes (src/backend/CassandraBackend.h).
use clio_migrator.Prelude.{
  ℕ, ◌+◌, ◌^◌, ◌≤◌, ◌<◌, ◌≡◌, ◌⊎◌, inl, inr, refl, sym, ap, subst, ◌∙◌, List, [], ◌∷◌, ◌++◌, arith,
  All, All-append, All-front, All-back, All-weaken,
}
use mathlib.Core.List.{Memᴰ}
use mathlib.Core.List.Memᴰ
use clio_migrator.Database.{Event}
use clio_migrator.Backend.WriteQueue.{
  Phase, called, admitted, counted, acknowledged, sent, backing_off, Request, Shared, WriteQueue,
  decrement_outstanding, Move, admit, count, execute, fail_lost, fail_applied, send_again, succeed,
  weight, is_starting, Step, submit, move, Steps, here, next, idle, rows_of,
}

-- Counted by `outstanding`.
abbrev pub is_held : Phase → ℕ
is_held called = 0
is_held admitted = 0
is_held counted = 1
is_held (sent n) = 1
is_held (backing_off n) = 1
is_held acknowledged = 0

-- Past the throttle, but not counted yet.
abbrev pub is_admitted : Phase → ℕ
is_admitted admitted = 1
is_admitted called = 0
is_admitted counted = 0
is_admitted (sent n) = 0
is_admitted (backing_off n) = 0
is_admitted acknowledged = 0

pub weight-split :
    (w : Phase → ℕ) (xs ys : List Request) (r : Request)
    → weight w (xs ++ (r ∷ ys)) ≡ weight w xs + (w r.phase + weight w ys)
weight-split w [] ys r = omega arith
weight-split w (x ∷ xs) ys r = omega (arith, weight-split w xs ys r)

pub admitted-le-starting : (rs : List Request) → weight is_admitted rs ≤ weight is_starting rs
admitted-le-starting [] = omega arith
admitted-le-starting (r ∷ rs) = omega (arith, one r.phase, admitted-le-starting rs)
  where
    one : (p : Phase) → is_admitted p ≤ is_starting p
    one called = omega arith
    one admitted = omega arith
    one counted = omega arith
    one (sent n) = omega arith
    one (backing_off n) = omega arith
    one acknowledged = omega arith

-- An acknowledged row is in the tables.
abbrev pub IsStored : List Event → Request → Type 0
IsStored tables r = r.phase ≡ acknowledged → Memᴰ r.row tables

module _ (max threads : ℕ) where
  pub record Inv (s : Shared) (rs : List Request) : Type 0 where
    pub held : s.outstanding ≡ weight is_held rs
    pub few : weight is_starting rs ≤ threads
    pub room : s.outstanding + weight is_admitted rs < max + threads
    pub stored : All (IsStored s.tables) rs
    pub known : (e : Event) → Memᴰ e s.tables → Memᴰ e (rows_of rs)

  -- What a move does to the weights, with `a`, `h` and `b` those of the other writes.
  Move-held :
      {row : Event} {s s' : Shared} {p p' : Phase} (h : ℕ)
      → max + threads ≤ 2 ^ 32
      → s.outstanding + is_admitted p < max + threads
      → s.outstanding ≡ h + is_held p
      → Move max row s p s' p'
      → s'.outstanding ≡ h + is_held p'
  unfolding decrement_outstanding
  Move-held h l r e (admit g) = omega arith
  Move-held h l r e count = omega arith
  Move-held h l r e execute = omega arith
  Move-held h l r e fail_lost = omega arith
  Move-held h l r e fail_applied = omega arith
  Move-held h l r e send_again = omega arith
  Move-held {s} h l r e (succeed g) = ground arith

  Move-room :
      {row : Event} {s s' : Shared} {p p' : Phase} (a b : ℕ)
      → a ≤ b
      → b + is_starting p ≤ threads
      → s.outstanding + (a + is_admitted p) < max + threads
      → Move max row s p s' p'
      → (s'.outstanding + (a + is_admitted p') < max + threads) × (b + is_starting p' ≤ threads)
  unfolding decrement_outstanding
  Move-room a b l f r (admit g) = omega arith
  Move-room a b l f r count = omega arith
  Move-room a b l f r execute = omega arith
  Move-room a b l f r fail_lost = omega arith
  Move-room a b l f r fail_applied = omega arith
  Move-room a b l f r send_again = omega arith
  Move-room a b l f r (succeed g) = ground arith

  -- A move adds its row to the tables, or leaves them, and an acknowledged row is there.
  Move-tables :
      {row : Event} {s s' : Shared} {p p' : Phase}
      → Move max row s p s' p'
      → ((s'.tables ≡ s.tables) ⊎ (s'.tables ≡ row ∷ s.tables))
        × (p' ≡ acknowledged → s'.tables ≡ row ∷ s.tables)
  Move-tables (admit g) = (inl refl, λ e. cc)
  Move-tables count = (inl refl, λ e. cc)
  Move-tables execute = (inl refl, λ e. cc)
  Move-tables fail_lost = (inl refl, λ e. cc)
  Move-tables fail_applied = (inr refl, λ e. cc)
  Move-tables send_again = (inl refl, λ e. cc)
  Move-tables (succeed g) = (inr refl, λ e. refl)

  rows_of-append : (xs ys : List Request) → rows_of (xs ++ ys) ≡ rows_of xs ++ rows_of ys
  rows_of-append [] ys = refl
  rows_of-append (x ∷ xs) ys = ap (◌∷◌ x.row) (rows_of-append xs ys)

  -- The rows do not change with a phase.
  pub rows_of-move :
      (xs ys : List Request) (row : Event) (p p' : Phase)
      → rows_of (xs ++ (record { row = row; phase = p } ∷ ys))
        ≡ rows_of (xs ++ (record { row = row; phase = p' } ∷ ys))
  rows_of-move xs ys row p p' =
      rows_of-append xs (record { row = row; phase = p } ∷ ys)
      ∙ sym (rows_of-append xs (record { row = row; phase = p' } ∷ ys))

  mem-rows_of :
      (xs ys : List Request) (row : Event) (p : Phase)
      → Memᴰ row (rows_of (xs ++ (record { row = row; phase = p } ∷ ys)))
  mem-rows_of xs ys row p =
      subst (Memᴰ row) (sym (rows_of-append xs (record { row = row; phase = p } ∷ ys)))
        (Memᴰ.append_right (rows_of xs) (Memᴰ.head refl))

  known_after :
      (row : Event) (before after rows : List Event)
      → (after ≡ before) ⊎ (after ≡ row ∷ before)
      → Memᴰ row rows
      → ((e : Event) → Memᴰ e before → Memᴰ e rows)
      → (e : Event) → Memᴰ e after
      → Memᴰ e rows
  known_after row before after rows (inl q) m k e h = k e (subst (Memᴰ e) q h)
  known_after row before after rows (inr q) m k e h = elim (Memᴰ.cases_cons (subst (Memᴰ e) q h)) [
    | inl r ↦ Memᴰ.cast r m
    | inr h' ↦ k e h'
  ]

  mem_after :
      (row e : Event) (before after : List Event)
      → (after ≡ before) ⊎ (after ≡ row ∷ before)
      → Memᴰ e before
      → Memᴰ e after
  mem_after row e before after (inl q) h = subst (Memᴰ e) (sym q) h
  mem_after row e before after (inr q) h = subst (Memᴰ e) (sym q) (Memᴰ.tail h)

  -- So in the list of requests, where one of them has moved.
  IsStored-after :
      {row : Event} {s s' : Shared} {p p' : Phase} (xs ys : List Request)
      → Move max row s p s' p'
      → All (IsStored s.tables) (xs ++ (record { row = row; phase = p } ∷ ys))
      → All (IsStored s'.tables) (xs ++ (record { row = row; phase = p' } ∷ ys))
  IsStored-after {row} {s} {s'} {p} {p'} xs ys m h =
      let (t, k) = Move-tables m in
      let keep = λ (r : Request) (f : IsStored s.tables r) (e : r.phase ≡ acknowledged).
        mem_after row r.row s.tables s'.tables t (f e) in
      let back = All-back (IsStored s.tables) xs (record { row = row; phase = p } ∷ ys) h in
      All-append (IsStored s'.tables) xs (record { row = row; phase = p' } ∷ ys)
        (All-weaken (IsStored s.tables) (IsStored s'.tables) xs keep
          (All-front (IsStored s.tables) xs (record { row = row; phase = p } ∷ ys) h))
        (
          (λ e. subst (Memᴰ row) (sym (k e)) (Memᴰ.head refl)),
          All-weaken (IsStored s.tables) (IsStored s'.tables) ys keep back.1,
        )

  module _ (small : max + threads ≤ 2 ^ 32) where
    Move-Inv :
        {row : Event} {s s' : Shared} {p p' : Phase} (xs ys : List Request)
        → Inv s (xs ++ (record { row = row; phase = p } ∷ ys))
        → Move max row s p s' p'
        → Inv s' (xs ++ (record { row = row; phase = p' } ∷ ys))
    Move-Inv {row} {s} {s'} {p} {p'} xs ys inv m =
        let h = weight is_held xs + weight is_held ys in
        let a = weight is_admitted xs + weight is_admitted ys in
        let b = weight is_starting xs + weight is_starting ys in
        let held' =
          Move-held h small (omega (arith, ea, inv.room)) (omega (arith, eh, inv.held)) m in
        let room' =
          Move-room a b (omega (arith, admitted-le-starting xs, admitted-le-starting ys))
            (omega (arith, es, inv.few)) (omega (arith, ea, inv.room)) m in
        record {
          held =
              omega (arith, held', weight-split is_held xs ys (record { row = row; phase = p' }));
          few =
              omega
                (arith, room'.1, weight-split is_starting xs ys (record { row = row; phase = p' }));
          room =
              omega
                (arith, room'.0, weight-split is_admitted xs ys (record { row = row; phase = p' }));
          stored = IsStored-after xs ys m inv.stored;
          known =
              known_after row s.tables s'.tables _ (Move-tables m).0 (mem-rows_of xs ys row p') (
                subst (λ l. (e : Event) → Memᴰ e s.tables → Memᴰ e l) (rows_of-move xs ys row p p')
                  inv.known);
        }
      where
        eh :
            weight is_held (xs ++ (record { row = row; phase = p } ∷ ys))
            ≡ weight is_held xs + (is_held p + weight is_held ys)
        eh = weight-split is_held xs ys (record { row = row; phase = p })

        ea :
            weight is_admitted (xs ++ (record { row = row; phase = p } ∷ ys))
            ≡ weight is_admitted xs + (is_admitted p + weight is_admitted ys)
        ea = weight-split is_admitted xs ys (record { row = row; phase = p })

        es :
            weight is_starting (xs ++ (record { row = row; phase = p } ∷ ys))
            ≡ weight is_starting xs + (is_starting p + weight is_starting ys)
        es = weight-split is_starting xs ys (record { row = row; phase = p })

    pub Step-Inv :
        {q r : WriteQueue}
        → Step max threads q r
        → Inv q.shared q.requests
        → Inv r.shared r.requests
    Step-Inv (submit row g) inv = record {
      held = omega (arith, inv.held);
      few = omega (arith, g);
      room = omega (arith, inv.room);
      stored = ((λ e. cc), inv.stored);
      known = λ e m. Memᴰ.tail (inv.known e m);
    }
    Step-Inv {q} (move xs ys row e m) inv = Move-Inv xs ys (subst (Inv q.shared) e inv) m

    pub Steps-Inv :
        {q r : WriteQueue}
        → Steps max threads q r
        → Inv q.shared q.requests
        → Inv r.shared r.requests
    Steps-Inv here inv = inv
    Steps-Inv (next st s) inv = Step-Inv s (Steps-Inv st inv)

  pub Inv-idle : 0 < threads → Inv idle.shared idle.requests
  Inv-idle some_thread = record {
    held = refl;
    few = omega arith;
    room = omega arith;
    stored = tt;
    known = λ e m. elim m [ ];
  }
