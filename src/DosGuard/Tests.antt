-- ===== src/DosGuard/Tests.antt =====
-- The guard of src/webserver/DOSGuard.h on a short run.
use clio_migrator.Prelude.{◌%◌, ◌≡◌, refl, List, [], ◌∷◌, false, not, ◌&&◌, ◌||◌, Option, some, ltb}
use clio_migrator.DosGuard.{
  uint32_size, Limits, DosGuard, put, is_ok, increment, decrement, add, request, clear,
}
use clio_migrator.DosGuard.History.{
  Call, increments, decrements, requests, adds, run, bytes, request_count, open_count,
}
use clio_migrator.DosGuard.Usage.{is_ok_usage}

abbrev limits : Limits
limits = record {
  whitelist = λ ip. false;
  max_fetches = 100;
  max_conn_count = 2;
  max_request_count = 2;
}

abbrev history : List Call
history = adds 7 101 ∷ decrements 7 ∷ requests 7 ∷ increments 7 ∷ []

abbrev guard : DosGuard
guard = record {
  ip_state =
      put 7 (some (record { transfered_byte = 101; requests_count = 1 }))
        (put 7 (some (record { transfered_byte = 0; requests_count = 1 })) (λ ip. Option.none));
  ip_conn_count = put 7 Option.none (put 7 (some 1) (λ ip. Option.none));
}

ran : run limits history ≡ some guard
unfolding put is_ok increment decrement add request clear
ran = refl

too_many_bytes : is_ok limits 7 guard ≡ false
unfolding is_ok put
too_many_bytes = refl

is_ok_usage_example : is_ok limits 7 guard ≡ (
    not (
      ltb limits.max_fetches (bytes 7 history % uint32_size)
      || ltb limits.max_request_count (request_count 7 history % uint32_size))
    && not (ltb limits.max_conn_count (open_count 7 history % uint32_size)))
is_ok_usage_example = is_ok_usage limits 7 history guard refl ran
