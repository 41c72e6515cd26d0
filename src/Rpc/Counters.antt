-- ===== src/Rpc/Counters.antt =====
-- The counters of calls by method (Counters of src/rpc/Counters.h and Counters.cpp). Methods are
-- numbers; whether there is a handler for one (validHandler of src/rpc/RPC.cpp) is a parameter.
-- The counters are atomic and only added to, so that a call is one step.
-- Durations are numbers of 64 bits, negative ones in two's complement.
use clio_migrator.Prelude.{
  ℕ, ◌+◌, ◌%◌, ◌^◌, ◌≡◌, refl, ap, ◌∙◌, List, [], ◌∷◌, Bool, true, false, Option, none, some, ◌==◌,
  arith, if◌then◌else◌, Bool-cases, inl, inr, if_cases, ◌&&◌, ◌||◌,
}

pub record MethodInfo : Type 0 where
  pub started : ℕ
  pub finished : ℕ
  pub errored : ℕ
  pub forwarded : ℕ
  pub duration : ℕ

abbrev pub MethodMap : Type 0
MethodMap = ℕ → Option MethodInfo

abbrev pub new_info : MethodInfo
new_info = record { started = 0; finished = 0; errored = 0; forwarded = 0; duration = 0 }

-- Addition to a counter of 64 bits.
abbrev pub plus : ℕ → ℕ → ℕ
plus a b = (a + b) % 2 ^ 64

abbrev pub info_or_new : Option MethodInfo → MethodInfo
info_or_new none = new_info
info_or_new (some info) = info

-- `methodInfo_[method]` after `initializeCounter`, changed by a function.
unfoldable pub change : ℕ → (MethodInfo → MethodInfo) → MethodMap → MethodMap
change method f infos m = if m == method then some (f (info_or_new (infos m))) else infos m

abbrev pub add_errored : MethodInfo → MethodInfo
add_errored i = record i { started = plus i.started 1; errored = plus i.errored 1 }

abbrev pub add_complete : ℕ → MethodInfo → MethodInfo
add_complete us i = record i {
  started = plus i.started 1;
  finished = plus i.finished 1;
  duration = plus i.duration us;
}

abbrev pub add_forwarded : MethodInfo → MethodInfo
add_forwarded i = record i { forwarded = plus i.forwarded 1 }

pub data Call : Type 0 where
  errors forwards : ℕ → Call
  completes : ℕ → ℕ → Call

-- What a call adds up to, for one method.
abbrev pub one_if : Bool → ℕ → ℕ
one_if b n = if b then n else 0

abbrev pub sum_calls : (Call → ℕ) → List Call → ℕ
sum_calls f [] = 0
sum_calls f (c ∷ cs) = f c + sum_calls f cs

abbrev pub errors_of : ℕ → Call → ℕ
errors_of m (errors n) = one_if (m == n) 1
errors_of m (forwards n) = 0
errors_of m (completes n us) = 0

abbrev pub forwards_of : ℕ → Call → ℕ
forwards_of m (errors n) = 0
forwards_of m (forwards n) = one_if (m == n) 1
forwards_of m (completes n us) = 0

abbrev pub completes_of : ℕ → Call → ℕ
completes_of m (errors n) = 0
completes_of m (forwards n) = 0
completes_of m (completes n us) = one_if (m == n) 1

abbrev pub durations_of : ℕ → Call → ℕ
durations_of m (errors n) = 0
durations_of m (forwards n) = 0
durations_of m (completes n us) = one_if (m == n) us

abbrev pub tally : ℕ → List Call → MethodInfo
tally m cs = record {
  started = (sum_calls (errors_of m) cs + sum_calls (completes_of m) cs) % 2 ^ 64;
  finished = sum_calls (completes_of m) cs % 2 ^ 64;
  errored = sum_calls (errors_of m) cs % 2 ^ 64;
  forwarded = sum_calls (forwards_of m) cs % 2 ^ 64;
  duration = sum_calls (durations_of m) cs % 2 ^ 64;
}

abbrev pub method_of : Call → ℕ
method_of (errors n) = n
method_of (forwards n) = n
method_of (completes n us) = n

abbrev pub is_called : ℕ → List Call → Bool
is_called m [] = false
is_called m (c ∷ cs) = (m == method_of c) || is_called m cs

abbrev has_info : Option MethodInfo → Bool
has_info none = false
has_info (some info) = true

info_eq :
    (o : Option MethodInfo) (b : Bool) (t : MethodInfo)
    → has_info o ≡ b
    → (b ≡ true → info_or_new o ≡ t)
    → o ≡ (if b then some t else none)
info_eq none true t e g = ground (arith, e)
info_eq none false t e g = refl
info_eq (some info) true t e g = ap some (g refl)
info_eq (some info) false t e g = ground (arith, e)

MethodInfo-eq :
    {a b : MethodInfo}
    → a.started ≡ b.started
    → a.finished ≡ b.finished
    → a.errored ≡ b.errored
    → a.forwarded ≡ b.forwarded
    → a.duration ≡ b.duration
    → a ≡ b
MethodInfo-eq p q r s t =
    λ i. record { started = p i; finished = q i; errored = r i; forwarded = s i; duration = t i }

module _ (valid_handler : ℕ → Bool) where
  unfoldable pub rpc_errored : ℕ → MethodMap → MethodMap
  unfolding change
  rpc_errored method infos = if valid_handler method then change method add_errored infos else infos

  unfoldable pub rpc_complete : ℕ → ℕ → MethodMap → MethodMap
  unfolding change
  rpc_complete method us infos =
      if valid_handler method then change method (add_complete us) infos else infos

  unfoldable pub rpc_forwarded : ℕ → MethodMap → MethodMap
  unfolding change
  rpc_forwarded method infos =
      if valid_handler method then change method add_forwarded infos else infos

  abbrev pub call : Call → MethodMap → MethodMap
  call (errors method) infos = rpc_errored method infos
  call (forwards method) infos = rpc_forwarded method infos
  call (completes method us) infos = rpc_complete method us infos

  -- The map after the calls, the last one first.
  abbrev pub after_calls : List Call → MethodMap
  after_calls [] m = none
  after_calls (c ∷ cs) m = call c (after_calls cs) m

  -- The counters of a method, where those that are not there count as 0.
  abbrev shown : ℕ → List Call → MethodInfo
  shown m cs = info_or_new (after_calls cs m)

  changed :
      (m n : ℕ) (f : MethodInfo → MethodInfo) (infos : MethodMap)
      → valid_handler m ≡ true
      → info_or_new ((if valid_handler n then change n f infos else infos) m)
        ≡ (if m == n then f (info_or_new (infos m)) else info_or_new (infos m))
  unfolding change
  changed m n f infos v = elim (Bool-cases (m == n)) [
    | inl e ↦
        let q : n ≡ m = ground (arith, e) in
        let w : valid_handler n ≡ true = ap valid_handler q ∙ v in rw w (rw e refl)
    | inr e ↦ rw e (
        if_cases (λ (g : MethodMap). info_or_new (g m) ≡ info_or_new (infos m)) (valid_handler n)
          (λ b. rw e refl) (λ b. refl))
  ]

  tallied :
      (m n : ℕ) (f : MethodInfo → MethodInfo) (cs : List Call) (t : MethodInfo)
      → valid_handler m ≡ true
      → shown m cs ≡ tally m cs
      → (m == n ≡ true → f (tally m cs) ≡ t)
      → (m == n ≡ false → tally m cs ≡ t)
      → info_or_new ((if valid_handler n then change n f (after_calls cs) else after_calls cs) m)
        ≡ t
  tallied m n f cs t v ih yes_ no_ =
      changed m n f (after_calls cs) v
      ∙ ap (λ x. if m == n then f x else x) ih
      ∙ if_cases (λ x. x ≡ t) (m == n) yes_ no_

  call_tally :
      (m : ℕ) (c : Call) (cs : List Call)
      → valid_handler m ≡ true
      → shown m cs ≡ tally m cs
      → shown m (c ∷ cs) ≡ tally m (c ∷ cs)
  unfolding rpc_errored rpc_complete rpc_forwarded
  call_tally m (errors n) cs v ih =
      tallied m n add_errored cs (tally m (errors n ∷ cs)) v ih
        (λ e.
          MethodInfo-eq (ground (arith, e)) (ground (arith, e)) (ground (arith, e))
            (ground (arith, e)) (ground (arith, e)))
        (λ e.
          MethodInfo-eq (ground (arith, e)) (ground (arith, e)) (ground (arith, e))
            (ground (arith, e)) (ground (arith, e)))
  call_tally m (forwards n) cs v ih =
      tallied m n add_forwarded cs (tally m (forwards n ∷ cs)) v ih
        (λ e.
          MethodInfo-eq (ground (arith, e)) (ground (arith, e)) (ground (arith, e))
            (ground (arith, e)) (ground (arith, e)))
        (λ e.
          MethodInfo-eq (ground (arith, e)) (ground (arith, e)) (ground (arith, e))
            (ground (arith, e)) (ground (arith, e)))
  call_tally m (completes n us) cs v ih =
      tallied m n (add_complete us) cs (tally m (completes n us ∷ cs)) v ih
        (λ e.
          MethodInfo-eq (ground (arith, e)) (ground (arith, e)) (ground (arith, e))
            (ground (arith, e)) (ground (arith, e)))
        (λ e.
          MethodInfo-eq (ground (arith, e)) (ground (arith, e)) (ground (arith, e))
            (ground (arith, e)) (ground (arith, e)))

  presence :
      (m n : ℕ) (f : MethodInfo → MethodInfo) (infos : MethodMap) (b : Bool)
      → has_info (infos m) ≡ (valid_handler m && b)
      → has_info ((if valid_handler n then change n f infos else infos) m)
        ≡ (valid_handler m && ((m == n) || b))
  unfolding change
  presence m n f infos b ih = elim (Bool-cases (m == n)) [
    | inl e ↦
        let q : n ≡ m = ground (arith, e) in
        elim (Bool-cases (valid_handler m)) [
          | inl v ↦
              let w : valid_handler n ≡ true = ap valid_handler q ∙ v in rw w (rw e (rw v refl))
          | inr v ↦
              let w : valid_handler n ≡ false = ap valid_handler q ∙ v in
              rw w (rw v (ih ∙ ap (λ x. x && b) v))
        ]
    | inr e ↦ rw e (
        if_cases (λ (g : MethodMap). has_info (g m) ≡ (valid_handler m && b)) (valid_handler n)
          (λ w. rw e ih) (λ w. ih))
  ]

  call_presence :
      (m : ℕ) (cs : List Call) → has_info (after_calls cs m) ≡ (valid_handler m && is_called m cs)
  unfolding rpc_errored rpc_complete rpc_forwarded
  call_presence m [] = ground arith
  call_presence m (errors n ∷ cs) =
      presence m n add_errored (after_calls cs) (is_called m cs) (call_presence m cs)
  call_presence m (forwards n ∷ cs) =
      presence m n add_forwarded (after_calls cs) (is_called m cs) (call_presence m cs)
  call_presence m (completes n us ∷ cs) =
      presence m n (add_complete us) (after_calls cs) (is_called m cs) (call_presence m cs)

  calls_tally : (m : ℕ) (cs : List Call) → valid_handler m ≡ true → shown m cs ≡ tally m cs
  calls_tally m [] v = refl
  calls_tally m (c ∷ cs) v = call_tally m c cs v (calls_tally m cs v)

  -- After any calls, a method has counters exactly if it has a handler and was called. They are
  -- then the tally of the calls of that method, modulo 2 ^ 64: those that errored, that completed,
  -- that were forwarded and the time of the completed ones, and `started` is the number of errored
  -- and completed ones together, so that no forwarded call counts as started.
  pub counters_lem :
      (m : ℕ) (cs : List Call)
      → after_calls cs m ≡ (if valid_handler m && is_called m cs then some (tally m cs) else none)
  counters_lem m cs =
      info_eq (after_calls cs m) (valid_handler m && is_called m cs) (tally m cs)
        (call_presence m cs) (λ e. calls_tally m cs (ground (arith, e)))
