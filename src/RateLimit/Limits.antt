-- ===== src/RateLimit/Limits.antt =====
-- What the admission decides, in terms of the counts before it, and what it leaves alone.
use easy_frame.Prelude.{
  ℕ, ◌+◌, ◌≤◌, ◌<◌, ◌≡◌, ◌↔◌, refl, ap, ◌∙◌, false, ◌∷◌, [], String, ◌==◌, ltb, leb, length,
  length-append, pair_eq, string_eq, if◌then◌else◌, arith,
}
use easy_frame.Prelude.Result.{ok, err}
use easy_frame.Prelude.Text.{TextOps}
use easy_frame.RateLimit.Counter.{
  Key, Window, Counter, timestamps, in_window, sweep_expired, record_attempt, count,
}
use easy_frame.RateLimit.Sweep.{in_window-sweep}
use easy_frame.RateLimit.Bounded.{
  IsValid, record-IsValid, timestamps-record_fits, length-record, max_keys-record, entry_ttl-record,
}
use easy_frame.RateLimit.Admission.{
  Family, login, second_factor, failure_key, admit, admit_account, rate_limited, global_window,
  ip_window, failure_window, global_key, ip_key,
}

in_window-sweep_now :
    (now : ℕ) (key : Key) (w : Window) (s : Counter)
    → IsValid now s
    → w.window_seconds ≤ s.entry_ttl_seconds
    → in_window now w (timestamps (sweep_expired now s) key) ≡ in_window now w (timestamps s key)
in_window-sweep_now now key w s v f =
    in_window-sweep now now key w s v.distinct (v.chronological key) f (omega arith)

-- `record` returns one more than `count` would have.
pub record-count :
    (now : ℕ) (key : Key) (w : Window) (s : Counter)
    → IsValid now s
    → w.window_seconds ≤ s.entry_ttl_seconds
    → (record_attempt now key w s).1 ≡ count now key w s + 1
unfolding record_attempt count
record-count now key w s v f = omega (
  arith,
  length-append (in_window now w (timestamps (sweep_expired now s) key)) (now ∷ []),
  ap length (in_window-sweep_now now key w s v f),
)

-- Recording one key leaves the count of another as it was, while there is room.
pub count-record_ne :
    (now : ℕ) (key j : Key) (u w : Window) (s : Counter)
    → IsValid now s
    → w.window_seconds ≤ s.entry_ttl_seconds
    → length s.hits < s.max_keys
    → (key == j) ≡ false
    → count now j w (record_attempt now key u s).0 ≡ count now j w s
unfolding count
count-record_ne now key j u w s v f room e =
    rw (timestamps-record_fits now key j u s room, e)
      (ap length (in_window-sweep_now now j w s v f))

ip_not_global : (family : Family) (ip : String) → (global_key family == ip_key family ip) ≡ false
ip_not_global login ip = refl
ip_not_global second_factor ip = refl

module _ (family : Family) {ttl : ℕ} (h : 300 ≤ ttl) where
  global_fits : (global_window family).window_seconds ≤ ttl
  global_fits = ground arith

  ip_fits : (ip_window family).window_seconds ≤ ttl
  ip_fits = ground arith

  failure_fits : (failure_window family).window_seconds ≤ ttl
  failure_fits = ground arith

module _ (text : TextOps) where
  pub account_not_global :
      (family : Family) (identifier : String)
      → (global_key family == failure_key text family identifier) ≡ false
  account_not_global login identifier = refl
  account_not_global second_factor identifier = refl

  pub account_not_ip :
      (family : Family) (ip identifier : String)
      → (ip_key family ip == failure_key text family identifier) ≡ false
  account_not_ip login ip identifier = refl
  account_not_ip second_factor ip identifier = refl

  module _ (now : ℕ) (family : Family) (ip identifier : String) where
    -- What the three limits allow, by the counts before the request.
    pub record IsWithinLimits (s : Counter) : Type 0 where
      pub global :
          count now (global_key family) (global_window family) s
          < (global_window family).max_attempts
      pub address :
          count now (ip_key family ip) (ip_window family) s < (ip_window family).max_attempts
      pub account :
          count now (failure_key text family identifier) (failure_window family) s
          < (failure_window family).max_attempts

    admit_account_iff :
        (s : Counter) (n : ℕ)
        → n ≡ count now (failure_key text family identifier) (failure_window family) s
        → ((admit_account text now family identifier s).1 ≡ ok tt)
          ↔ (n < (failure_window family).max_attempts)
    unfolding admit_account
    admit_account_iff s n e = ground arith

    module _ (s : Counter) (v : IsValid now s) (room : length s.hits + 2 ≤ s.max_keys)
        (ttl : 300 ≤ s.entry_ttl_seconds) where
      abbrev after_global : Counter
      after_global = (record_attempt now (global_key family) (global_window family) s).0

      abbrev after_ip : Counter
      after_ip = (record_attempt now (ip_key family ip) (ip_window family) after_global).0

      after_global-IsValid : IsValid now after_global
      after_global-IsValid = record-IsValid now (global_key family) (global_window family) s v

      after_global-room : length after_global.hits < after_global.max_keys
      after_global-room = omega (
        arith,
        length-record now (global_key family) (global_window family) s,
        max_keys-record now (global_key family) (global_window family) s,
      )

      after_global-ttl : 300 ≤ after_global.entry_ttl_seconds
      after_global-ttl = rw (entry_ttl-record now (global_key family) (global_window family) s) ttl

      requests_global :
          (record_attempt now (global_key family) (global_window family) s).1
          ≡ count now (global_key family) (global_window family) s + 1
      requests_global =
          record-count now (global_key family) (global_window family) s v (global_fits family ttl)

      requests_ip :
          (record_attempt now (ip_key family ip) (ip_window family) after_global).1
          ≡ count now (ip_key family ip) (ip_window family) s + 1
      requests_ip =
          record-count now (ip_key family ip) (ip_window family) after_global after_global-IsValid
            (ip_fits family after_global-ttl)
          ∙ ap (λ n. n + 1)
              (count-record_ne now (global_key family) (ip_key family ip) (global_window family)
                (ip_window family) s v (ip_fits family ttl) (omega arith) (ip_not_global family ip))

      failures_kept :
          count now (failure_key text family identifier) (failure_window family) after_ip
          ≡ count now (failure_key text family identifier) (failure_window family) s
      failures_kept =
          count-record_ne now (ip_key family ip) (failure_key text family identifier)
            (ip_window family) (failure_window family) after_global after_global-IsValid
            (failure_fits family after_global-ttl) after_global-room
            (account_not_ip family ip identifier)
          ∙ count-record_ne now (global_key family) (failure_key text family identifier)
              (global_window family) (failure_window family) s v (failure_fits family ttl)
              (omega arith) (account_not_global family identifier)

      admit_result : (admit text now family ip identifier s).1 ≡ (
          if ltb
            (global_window family).max_attempts
            (count now (global_key family) (global_window family) s + 1)
          then err rate_limited
          else if ltb
              (ip_window family).max_attempts
              (count now (ip_key family ip) (ip_window family) s + 1)
          then err rate_limited
          else if leb
              (failure_window family).max_attempts
              (count now (failure_key text family identifier) (failure_window family) s)
          then err rate_limited
          else ok tt)
      unfolding admit
      admit_result = ground (arith, requests_global, requests_ip, failures_kept)

      -- While the table has room for two keys and the TTL covers the windows: a request is admitted
      -- exactly when the global requests, the requests from its address and the failures of its
      -- account are each below their limits; else it gets the 429 error.
      pub admit_iff : ((admit text now family ip identifier s).1 ≡ ok tt) ↔ IsWithinLimits s
      admit_iff = ground (arith, admit_result)

      pub admit_refusal :
          ¬ IsWithinLimits s → (admit text now family ip identifier s).1 ≡ err rate_limited
      admit_refusal h = ground (arith, admit_result, h)
