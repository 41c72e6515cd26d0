-- ===== src/Backend/WriteQueue/Drain.antt =====
-- Outstanding writes can always come to their end (src/backend/CassandraBackend.h).
use clio_migrator.Prelude.{
  ℕ, ◌+◌, ◌^◌, ◌≤◌, ◌<◌, ◌≡◌, refl, sym, ap, subst, ◌∙◌, List, [], ◌∷◌, ◌++◌, arith, append_assoc,
  append-nil,
}
use clio_migrator.Database.{Event}
use clio_migrator.Backend.WriteQueue.{
  Phase, called, admitted, counted, acknowledged, sent, backing_off, Request, Shared, WriteQueue,
  Move, execute, send_again, succeed, weight, Step, move, Steps, here, next, idle, rows_of, CanSync,
  rows_of,
}
use clio_migrator.Backend.WriteQueue.Invariant.{
  Inv, is_held, weight-split, Steps-Inv, Step-Inv, Inv-idle, rows_of-move,
}
use clio_migrator.Backend.WriteQueue.Sync.{positive}

pub join :
    {max threads : ℕ} {q r s : WriteQueue}
    → Steps max threads q r
    → Steps max threads r s
    → Steps max threads q s
join a here = a
join a (next b s) = next (join a b) s

module _ (max threads : ℕ) (small : max + threads ≤ 2 ^ 32) where
  -- A write between `done` and `rest` that comes to rest: acknowledged, or not yet counted.
  abbrev Settles : Shared → List Request → List Request → Request → Type 0
  Settles s done rest r =
      (s' : Shared) × (p : Phase) × Steps max threads
        (record { shared = s; requests = done ++ (r ∷ rest) })
        (record { shared = s'; requests = done ++ (record { row = r.row; phase = p } ∷ rest) })
      × (is_held p ≡ 0)

  settle_sent :
      (s : Shared) (done rest : List Request) (row : Event) (n : ℕ)
      → Inv max threads s (done ++ (record { row = row; phase = sent n } ∷ rest))
      → Settles s done rest (record { row = row; phase = sent n })
  settle_sent s done rest row n inv =
      let (k, e) = positive s.outstanding (
        omega (
          arith,
          inv.held,
          weight-split is_held done rest (record { row = row; phase = sent n }),
        )) in
      (
        record { outstanding = k; tables = row ∷ s.tables },
        acknowledged,
        next here (move done rest row refl (succeed e)),
        refl,
      )

  -- After one step to `sent n`, with the same state outside the write.
  settle_after :
      (s : Shared) (done rest : List Request) (row : Event) (p : Phase) (n : ℕ)
      → Inv max threads s (done ++ (record { row = row; phase = p } ∷ rest))
      → Move max row s p s (sent n)
      → Settles s done rest (record { row = row; phase = p })
  settle_after s done rest row p n inv m =
      let st : Step max threads
          (record { shared = s; requests = done ++ (record { row = row; phase = p } ∷ rest) })
          (record {
            shared = s;
            requests = done ++ (record { row = row; phase = sent n } ∷ rest);
          }) =
        move done rest row refl m in
      let (s', p', more, e) = settle_sent s done rest row n (Step-Inv max threads small st inv) in
      (s', p', join (next here st) more, e)

  settle :
      (s : Shared) (done rest : List Request) (row : Event) (p : Phase)
      → Inv max threads s (done ++ (record { row = row; phase = p } ∷ rest))
      → Settles s done rest (record { row = row; phase = p })
  settle s done rest row called inv = (s, called, here, refl)
  settle s done rest row admitted inv = (s, admitted, here, refl)
  settle s done rest row counted inv = settle_after s done rest row counted 0 inv execute
  settle s done rest row (sent n) inv = settle_sent s done rest row n inv
  settle s done rest row (backing_off n) inv =
      settle_after s done rest row (backing_off n) n inv send_again
  settle s done rest row acknowledged inv = (s, acknowledged, here, refl)

  -- Steps to a state with the same rows and no outstanding write.
  abbrev Drains : Shared → List Request → Type 0
  Drains s rs =
      (s' : Shared) × (rs' : List Request) × Steps max threads
        (record { shared = s; requests = rs }) (record { shared = s'; requests = rs' })
      × (weight is_held rs' ≡ 0)
      × (rows_of rs' ≡ rows_of rs)

  drain_rest :
      (rest done : List Request) (s : Shared)
      → Inv max threads s (done ++ rest)
      → weight is_held done ≡ 0
      → Drains s (done ++ rest)
  drain_rest [] done s inv e =
      (s, done ++ [], here, subst (λ l. weight is_held l ≡ 0) (sym (append-nil done)) e, refl)
  drain_rest (r ∷ rest) done s inv e =
      let (s', p, st, f) = settle s done rest r.row r.phase inv in
      let r' : Request = record { row = r.row; phase = p } in
      let assoc : (done ++ (r' ∷ [])) ++ rest ≡ done ++ (r' ∷ rest) =
        append_assoc done (r' ∷ []) rest in
      let none_held : weight is_held (done ++ (r' ∷ [])) ≡ 0 =
        omega (arith, weight-split is_held done [] r') in
      let (s'', rs, more, g, h) =
        drain_rest rest (done ++ (r' ∷ [])) s'
          (subst (Inv max threads s') (sym assoc) (Steps-Inv max threads small st inv)) none_held in
      (
        s'',
        rs,
        join st (
            subst
              (λ l.
                Steps max threads (record { shared = s'; requests = l })
                  (record { shared = s''; requests = rs }))
              assoc more),
        g,
        h ∙ ap rows_of assoc ∙ rows_of-move max threads done rest r.row p r.phase,
      )

-- Retries come to an end: from every state that the threads reach, steps of the writes
-- alone lead to a state with the same rows written in which `sync` returns, whatever retries or
-- waits were pending.
pub drains :
    (max threads : ℕ) (q : WriteQueue)
    → max + threads ≤ 2 ^ 32
    → 0 < threads
    → Steps max threads idle q
    → (r : WriteQueue) × Steps max threads q r
      × CanSync r
      × (rows_of r.requests ≡ rows_of q.requests)
drains max threads q small some_thread st =
    let inv = Steps-Inv max threads small st (Inv-idle max threads some_thread) in
    let (s, rs, more, e, f) = drain_rest max threads small q.requests [] q.shared inv refl in
    let inv' = Steps-Inv max threads small more inv in
    (record { shared = s; requests = rs }, more, inv'.held ∙ e, f)
