-- ===== src/DosGuard.antt =====
-- The guard that limits the rate of requests of each client (BasicDOSGuard of
-- src/webserver/DOSGuard.h). An IP address is a number. Each method holds the mutex while it
-- changes the state, so a run is a sequence of calls.
pub mod History
pub mod Counters
pub mod Usage
mod Tests
use clio_migrator.Prelude.{
  ℕ, zero, suc, ◌+◌, ◌%◌, List, [], ◌∷◌, Bool, true, false, not, ◌&&◌, ◌||◌, Option, none, some,
  ltb, ◌==◌, if◌then◌else◌,
}

-- The bound of std::uint32_t.
abbrev pub uint32_size : ℕ
uint32_size = 4294967296

pub record ClientState : Type 0 where
  pub transfered_byte : ℕ
  pub requests_count : ℕ

-- What the constructor reads from the configuration.
pub record Limits : Type 0 where
  pub whitelist : ℕ → Bool
  pub max_fetches : ℕ
  pub max_conn_count : ℕ
  pub max_request_count : ℕ

pub record DosGuard : Type 0 where
  pub ip_state : ℕ → Option ClientState
  pub ip_conn_count : ℕ → Option ℕ

abbrev pub fresh : DosGuard
fresh = record { ip_state = λ ip. none; ip_conn_count = λ ip. none }

-- The entry of a key is set or, with `none`, erased.
unfoldable pub put : {A : Type 0} → ℕ → Option A → (ℕ → Option A) → ℕ → Option A
put key entry entries j = if key == j then entry else entries j

-- `operator[]` of a map: a missing entry is made with the default.
abbrev pub state_or_new : Option ClientState → ClientState
state_or_new none = record { transfered_byte = 0; requests_count = 0 }
state_or_new (some state) = state

abbrev pub count_or_zero : Option ℕ → ℕ
count_or_zero none = 0
count_or_zero (some count) = count

abbrev pub add_bytes : ℕ → ClientState → ClientState
add_bytes n state = record state { transfered_byte = (state.transfered_byte + n) % uint32_size }

abbrev pub add_request : ClientState → ClientState
add_request state = record state { requests_count = (state.requests_count + 1) % uint32_size }

-- One connection less than `count`; `none` if the assertion that there is one fails.
unfoldable pub decrement_count : ℕ → ℕ → DosGuard → Option DosGuard
unfolding put
decrement_count ip zero g = none
decrement_count ip (suc count) g =
    some (record g {
      ip_conn_count = put ip (if count == 0 then none else some count) g.ip_conn_count;
    })

module _ (limits : Limits) where
  open limits use {whitelist, max_fetches, max_conn_count, max_request_count}

  abbrev pub is_white_listed : ℕ → Bool
  is_white_listed ip = whitelist ip

  unfoldable pub state_ok : Option ClientState → Bool
  state_ok none = true
  state_ok (some state) =
      not (ltb max_fetches state.transfered_byte || ltb max_request_count state.requests_count)

  unfoldable pub conn_ok : Option ℕ → Bool
  conn_ok none = true
  conn_ok (some count) = not (ltb max_conn_count count)

  unfoldable pub is_ok : ℕ → DosGuard → Bool
  unfolding state_ok conn_ok
  is_ok ip g =
      if whitelist ip then true else state_ok (g.ip_state ip) && conn_ok (g.ip_conn_count ip)

  unfoldable pub increment : ℕ → DosGuard → DosGuard
  unfolding put
  increment ip g = if whitelist ip then g else record g {
    ip_conn_count =
        put ip (some ((count_or_zero (g.ip_conn_count ip) + 1) % uint32_size)) g.ip_conn_count;
  }

  unfoldable pub decrement : ℕ → DosGuard → Option DosGuard
  unfolding decrement_count
  decrement ip g =
      if whitelist ip then some g else decrement_count ip (count_or_zero (g.ip_conn_count ip)) g

  -- The state of a client is changed, and whether it is within the limits then.
  unfoldable pub update_state : ℕ → (ClientState → ClientState) → DosGuard → Bool × DosGuard
  unfolding is_ok put
  update_state ip f g =
      if whitelist ip
      then (true, g)
      else let g' = record g {
        ip_state = put ip (some (f (state_or_new (g.ip_state ip)))) g.ip_state;
      } in
        (is_ok ip g', g')

  unfoldable pub add : ℕ → ℕ → DosGuard → Bool × DosGuard
  unfolding update_state
  add ip num_objects g = update_state ip (add_bytes num_objects) g

  unfoldable pub request : ℕ → DosGuard → Bool × DosGuard
  unfolding update_state
  request ip g = update_state ip add_request g

  unfoldable pub clear : DosGuard → DosGuard
  clear g = record g { ip_state = λ ip. none }
