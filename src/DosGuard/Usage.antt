-- ===== src/DosGuard/Usage.antt =====
-- What the guard's counters say after a run, and when a client is within its limits
-- (BasicDOSGuard of src/webserver/DOSGuard.h).
use clio_migrator.Prelude.{
  some-injective, ℕ, ◌%◌, ◌≡◌, refl, sym, subst, ap, ap₂, ◌∙◌, inl, inr, List, [], ◌∷◌, false, not,
  ◌&&◌, ◌||◌, Bool-cases, Option, none, some, ltb, ◌==◌, if◌then◌else◌, arith,
}
use clio_migrator.DosGuard.{
  uint32_size, ClientState, Limits, DosGuard, state_or_new, is_ok, increment, decrement, add_bytes,
  add_request, update_state, add, request, clear,
}
use native.Mathlib.Nat.{mod-add-mod}
use clio_migrator.DosGuard.History.{
  Call, increments, decrements, requests, adds, clears, call, call_after, run, bytes, request_count,
  open_count,
}
use clio_migrator.DosGuard.Counters.{
  state_of, connections, state_ok-state, conn_ok-count, increment-connections, increment-state,
  update_state-state, update_state-connections, decrement-connections,
}

module _ (limits : Limits) (ip : ℕ) (listed : limits.whitelist ip ≡ false) where
  abbrev used : List Call → ClientState
  used cs = record {
    transfered_byte = bytes ip cs % uint32_size;
    requests_count = request_count ip cs % uint32_size;
  }

  -- The counters of the client agree with the history, as 32-bit numbers.
  abbrev Agrees : List Call → DosGuard → Type 0
  Agrees cs g = (state_of ip g ≡ used cs) × (connections ip g ≡ open_count ip cs % uint32_size)

  increment-Agrees :
      (j : ℕ) (cs : List Call) (g : DosGuard)
      → Agrees cs g
      → Agrees (increments j ∷ cs) (increment limits j g)
  increment-Agrees j cs g (p, q) = (
    increment-state limits ip listed j g ∙ p,
    increment-connections limits ip listed j g ∙ elim (Bool-cases (j == ip)) [
      | inl e ↦ rw (e, q) (mod-add-mod (open_count ip cs) uint32_size 1)
      | inr e ↦ rw e q
    ],
  )

  decrement-Agrees :
      (j : ℕ) (cs : List Call) (g g' : DosGuard)
      → Agrees cs g
      → decrement limits j g ≡ some g'
      → Agrees (decrements j ∷ cs) g'
  decrement-Agrees j cs g g' (p, q) h =
      let (s, k) = decrement-connections limits ip listed j g g' h in
      (
        ap (λ m. state_or_new (m ip)) s ∙ p,
        elim k [ inl (e, f) ↦ rw e (omega (arith, f, q)) | inr (e, f) ↦ rw e (f ∙ q) ],
      )

  update_state-Agrees :
      (j : ℕ) (f : ClientState → ClientState) (c : Call) (cs : List Call) (g : DosGuard)
      → open_count ip (c ∷ cs) ≡ open_count ip cs
      → (if j == ip then f (used cs) else used cs) ≡ used (c ∷ cs)
      → Agrees cs g
      → Agrees (c ∷ cs) (update_state limits j f g).1
  update_state-Agrees j f c cs g o u (p, q) = (
    update_state-state limits ip listed j f g ∙ ap (λ s. if j == ip then f s else s) p ∙ u,
    update_state-connections limits ip listed j f g ∙ q ∙ ap (λ n. n % uint32_size) (sym o),
  )

  call-Agrees :
      (c : Call) (cs : List Call) (g g' : DosGuard)
      → Agrees cs g
      → call limits c g ≡ some g'
      → Agrees (c ∷ cs) g'
  unfolding request add clear
  call-Agrees (increments j) cs g g' h e =
      subst (Agrees (increments j ∷ cs)) (some-injective _ g' e) (increment-Agrees j cs g h)
  call-Agrees (decrements j) cs g g' h e = decrement-Agrees j cs g g' h e
  call-Agrees (requests j) cs g g' h e = subst (Agrees (requests j ∷ cs)) (some-injective _ g' e) (
      update_state-Agrees j add_request (requests j) cs g refl
        (elim (Bool-cases (j == ip)) [
          | inl k ↦ rw k (
              ap (λ n. record { transfered_byte = bytes ip cs % uint32_size; requests_count = n })
                (mod-add-mod (request_count ip cs) uint32_size 1))
          | inr k ↦ rw k refl
        ])
        h)
  call-Agrees (adds j n) cs g g' h e = subst (Agrees (adds j n ∷ cs)) (some-injective _ g' e) (
      update_state-Agrees j (add_bytes n) (adds j n) cs g refl
        (elim (Bool-cases (j == ip)) [
          | inl k ↦ rw k (
              ap
                (λ b. record {
                  transfered_byte = b;
                  requests_count = request_count ip cs % uint32_size;
                })
                (mod-add-mod (bytes ip cs) uint32_size n))
          | inr k ↦ rw k refl
        ])
        h)
  call-Agrees clears cs g g' (p, q) e =
      subst (Agrees (clears ∷ cs)) (some-injective _ g' e) (refl, q)

  pub run-Agrees : (cs : List Call) (g : DosGuard) → run limits cs ≡ some g → Agrees cs g
  run-Agrees [] g h = subst (Agrees []) (some-injective _ g h) (refl, refl)
  run-Agrees (c ∷ cs) g h = go (run limits cs) (run-Agrees cs) h
    where
      go :
          (o : Option DosGuard)
          → ((g₀ : DosGuard) → o ≡ some g₀ → Agrees cs g₀)
          → call_after limits c o ≡ some g
          → Agrees (c ∷ cs) g
      go none before k = absurd (ground arith)
      go (some g₀) before k = call-Agrees c cs g₀ g (before g₀ refl) k

-- After any run in which no assertion fails, a client that is not on the whitelist is served as
-- long as the bytes and requests since the last `clear` and its open connections, as
-- 32-bit numbers, are each at most their limit.
pub is_ok_usage :
    (limits : Limits) (ip : ℕ) (cs : List Call) (g : DosGuard)
    → limits.whitelist ip ≡ false
    → run limits cs ≡ some g
    → is_ok limits ip g ≡ (
        not (
          ltb limits.max_fetches (bytes ip cs % uint32_size)
          || ltb limits.max_request_count (request_count ip cs % uint32_size))
        && not (ltb limits.max_conn_count (open_count ip cs % uint32_size)))
unfolding is_ok
is_ok_usage limits ip cs g listed h =
    let (p, q) = run-Agrees limits ip listed cs g h in
    rw listed (
      ap₂ ◌&&◌
        (state_ok-state limits (g.ip_state ip)
          ∙ ap
              (λ (s : ClientState). not (
                ltb limits.max_fetches s.transfered_byte
                || ltb limits.max_request_count s.requests_count))
              p)
        (conn_ok-count limits (g.ip_conn_count ip) ∙ ap (λ n. not (ltb limits.max_conn_count n)) q))
