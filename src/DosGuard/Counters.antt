-- ===== src/DosGuard/Counters.antt =====
-- What each method of the guard of src/webserver/DOSGuard.h does to the counters of a client.
use clio_migrator.Prelude.{
  some-injective, ℕ, zero, suc, ◌+◌, ◌%◌, ◌≡◌, refl, sym, ap, ◌∙◌, inl, inr, ◌⊎◌, true, false, not,
  ◌||◌, Bool-cases, Option, none, some, ltb, ◌==◌, ==_iff, if◌then◌else◌, arith,
}
use clio_migrator.DosGuard.{
  uint32_size, ClientState, Limits, DosGuard, put, state_or_new, count_or_zero, state_ok, conn_ok,
  increment, decrement_count, decrement, update_state,
}

ltb_zero : (n : ℕ) → ltb n 0 ≡ false
ltb_zero n = ground arith

abbrev pub state_of : ℕ → DosGuard → ClientState
state_of ip g = state_or_new (g.ip_state ip)

abbrev pub connections : ℕ → DosGuard → ℕ
connections ip g = count_or_zero (g.ip_conn_count ip)

-- A missing entry is within the limits, as an entry of zeros is.
pub state_ok-state :
    (limits : Limits) (o : Option ClientState)
    → state_ok limits o
      ≡ not (
          ltb limits.max_fetches (state_or_new o).transfered_byte
          || ltb limits.max_request_count (state_or_new o).requests_count)
unfolding state_ok
state_ok-state limits none =
    rw (ltb_zero limits.max_fetches, ltb_zero limits.max_request_count) refl
state_ok-state limits (some state) = refl

pub conn_ok-count :
    (limits : Limits) (o : Option ℕ)
    → conn_ok limits o ≡ not (ltb limits.max_conn_count (count_or_zero o))
unfolding conn_ok
conn_ok-count limits none = rw (ltb_zero limits.max_conn_count) refl
conn_ok-count limits (some count) = refl

module _ (limits : Limits) (ip : ℕ) (listed : limits.whitelist ip ≡ false) where
  pub increment-connections :
      (j : ℕ) (g : DosGuard)
      → connections ip (increment limits j g)
        ≡ (if j == ip then (connections ip g + 1) % uint32_size else connections ip g)
  unfolding increment put
  increment-connections j g = elim (Bool-cases (j == ip)) [
    | inl e ↦ rw ((==_iff j ip).0 e, listed, (==_iff ip ip).1 refl)
    | inr e ↦ elim (Bool-cases (limits.whitelist j)) [ inl f ↦ rw (f, e) | inr f ↦ rw (f, e) ]
  ]

  pub update_state-state :
      (j : ℕ) (f : ClientState → ClientState) (g : DosGuard)
      → state_of ip (update_state limits j f g).1
        ≡ (if j == ip then f (state_of ip g) else state_of ip g)
  unfolding update_state put
  update_state-state j f g = elim (Bool-cases (j == ip)) [
    | inl e ↦ rw ((==_iff j ip).0 e, listed, (==_iff ip ip).1 refl)
    | inr e ↦ elim (Bool-cases (limits.whitelist j)) [ inl k ↦ rw (k, e) | inr k ↦ rw (k, e) ]
  ]

  lowered : ℕ → ℕ → DosGuard → DosGuard
  lowered j c g = record g {
    ip_conn_count = put j (if c == 0 then none else some c) g.ip_conn_count;
  }

  decrement_count-result :
      (j count : ℕ) (g g' : DosGuard)
      → decrement_count j count g ≡ some g'
      → (c : ℕ) × (count ≡ suc c) × (lowered j c g ≡ g')
  unfolding decrement_count lowered
  decrement_count-result j zero g g' h = absurd (ground arith)
  decrement_count-result j (suc c) g g' h = (c, refl, some-injective _ _ h)

  lowered-connections :
      (j c : ℕ) (g : DosGuard)
      → connections ip (lowered j c g) ≡ (if j == ip then c else connections ip g)
  unfolding lowered put
  lowered-connections j c g = elim (Bool-cases (j == ip)) [
    | inl e ↦ elim (Bool-cases (c == 0)) [
      | inl f ↦ rw (e, f) (sym ((==_iff c 0).0 f))
      | inr f ↦ rw (e, f)
    ]
    | inr e ↦ rw e
  ]

  pub decrement-connections :
      (j : ℕ) (g g' : DosGuard)
      → decrement limits j g ≡ some g'
      → (g'.ip_state ≡ g.ip_state)
        × ((((j == ip) ≡ true) × (suc (connections ip g') ≡ connections ip g))
            ⊎ (((j == ip) ≡ false) × (connections ip g' ≡ connections ip g)))
  unfolding decrement lowered
  decrement-connections j g g' h = elim (Bool-cases (j == ip)) [
    | inl e ↦
        let j≡ip : j ≡ ip = (==_iff j ip).0 e in
        let (c, p, q) =
          decrement_count-result j (connections j g) g g'
            (rw (ap limits.whitelist j≡ip, listed) at h) in
        (
          sym (ap (λ (x : DosGuard). x.ip_state) q),
          inl (
            e,
            ap suc (sym (ap (connections ip) q) ∙ lowered-connections j c g ∙ rw e refl)
                ∙ sym p
                ∙ ap (λ i. connections i g) j≡ip,
          ),
        )
    | inr e ↦ elim (Bool-cases (limits.whitelist j)) [
      | inl k ↦
          let q = some-injective g g' (rw k at h) in
          (sym (ap (λ (x : DosGuard). x.ip_state) q), inr (e, sym (ap (connections ip) q)))
      | inr k ↦
          let (c, p, q) = decrement_count-result j (connections j g) g g' (rw k at h) in
          (
            sym (ap (λ (x : DosGuard). x.ip_state) q),
            inr (e, sym (ap (connections ip) q) ∙ lowered-connections j c g ∙ rw e refl),
          )
    ]
  ]

  pub increment-state : (j : ℕ) (g : DosGuard) → state_of ip (increment limits j g) ≡ state_of ip g
  unfolding increment
  increment-state j g = elim (Bool-cases (limits.whitelist j)) [
    | inl k ↦ rw k refl
    | inr k ↦ rw k refl
  ]

  pub update_state-connections :
      (j : ℕ) (f : ClientState → ClientState) (g : DosGuard)
      → connections ip (update_state limits j f g).1 ≡ connections ip g
  unfolding update_state
  update_state-connections j f g = elim (Bool-cases (limits.whitelist j)) [
    | inl k ↦ rw k refl
    | inr k ↦ rw k refl
  ]
