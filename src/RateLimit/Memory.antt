-- ===== src/RateLimit/Memory.antt =====
-- What an admission may leave in memory: no entry for the account, and never more keys than the
-- bound.
use easy_frame.Prelude.{
  ℕ, ◌≡◌, Bool, true, false, none, some, String, ◌==◌, ltb, pair_eq, string_eq, if◌then◌else◌,
  arith, Option-cases, inl, inr,
}
use easy_frame.Prelude.Dict.{lookup, IsDistinct}
use easy_frame.Prelude.Selection.{lookup-remove_where}
use easy_frame.Prelude.Text.{TextOps}
use easy_frame.RateLimit.Counter.{Key, Window, Counter, is_stale, sweep_expired, record_attempt}
use easy_frame.RateLimit.Bounded.{IsValid, record-IsValid, lookup-record, clear-IsValid}
use easy_frame.RateLimit.Limits.{account_not_global, account_not_ip}
use easy_frame.RateLimit.Admission.{
  Family, failure_key, admit, admit_account, global_window, ip_window, failure_window, global_key,
  ip_key, record_failure, clear_failures,
}

sweep_adds_none :
    (now : ℕ) (key : Key) (s : Counter)
    → IsDistinct s.hits
    → lookup key s.hits ≡ none
    → lookup key (sweep_expired now s).hits ≡ none
unfolding sweep_expired
sweep_adds_none now key s d p =
    ground (arith, lookup-remove_where (is_stale now s.entry_ttl_seconds) key s.hits d)

record_adds_none :
    (now : ℕ) (key j : Key) (w : Window) (s : Counter)
    → IsDistinct s.hits
    → (key == j) ≡ false
    → lookup j s.hits ≡ none
    → lookup j (record_attempt now key w s).0.hits ≡ none
record_adds_none now key j w s d e p =
    elim (Option-cases (lookup j (record_attempt now key w s).0.hits)) [
      | inl q ↦ q
      | inr (items, q) ↦
          let r = lookup-record now key j w s items d q in
          let r' : some items ≡ lookup j (sweep_expired now s).hits = rw e at r in
          cc (r', sweep_adds_none now j s d p)
    ]

module _ (text : TextOps) (now : ℕ) (family : Family) (ip identifier : String) where
  admit_account_keeps : (s : Counter) → (admit_account text now family identifier s).0 ≡ s
  unfolding admit_account
  admit_account_keeps s = ground arith

  -- An admission, granted or refused at any of its three tests, never makes an entry for the failures
  -- of an account that had none: a forged name costs no memory.
  pub admit-no_account_entry :
      (s : Counter)
      → IsValid now s
      → lookup (failure_key text family identifier) s.hits ≡ none
      → lookup (failure_key text family identifier) (admit text now family ip identifier s).0.hits
        ≡ none
  unfolding admit
  admit-no_account_entry s v p =
      let key = failure_key text family identifier in
      let s1 = (record_attempt now (global_key family) (global_window family) s).0 in
      let v1 = record-IsValid now (global_key family) (global_window family) s v in
      let p1 =
        record_adds_none now (global_key family) key (global_window family) s v.distinct
          (account_not_global text family identifier) p in
      let p2 =
        record_adds_none now (ip_key family ip) key (ip_window family) s1 v1.distinct
          (account_not_ip text family ip identifier) p1 in
      ground (
        arith,
        p1,
        p2,
        admit_account_keeps (record_attempt now (ip_key family ip) (ip_window family) s1).0,
      )

  abbrev after_global : Counter → Counter
  after_global s = (record_attempt now (global_key family) (global_window family) s).0

  abbrev after_ip : Counter → Counter
  after_ip s = (record_attempt now (ip_key family ip) (ip_window family) (after_global s)).0

  admit_state :
      (s : Counter)
      → (admit text now family ip identifier s).0 ≡ (
          if ltb
            (global_window family).max_attempts
            (record_attempt now (global_key family) (global_window family) s).1
          then after_global s
          else after_ip s)
  unfolding admit
  admit_state s = ground (arith, admit_account_keeps (after_ip s))

  if-IsValid :
      (b : Bool) (s t : Counter) → IsValid now s → IsValid now t → IsValid now (if b then s else t)
  if-IsValid true s t v w = v
  if-IsValid false s t v w = w

  admit-IsValid :
      (s : Counter) → IsValid now s → IsValid now (admit text now family ip identifier s).0
  admit-IsValid s v =
      let v1 = record-IsValid now (global_key family) (global_window family) s v in
      let v2 = record-IsValid now (ip_key family ip) (ip_window family) (after_global s) v1 in
      rw (admit_state s) (
        if-IsValid
          (ltb (global_window family).max_attempts
            (record_attempt now (global_key family) (global_window family) s).1)
          (after_global s) (after_ip s) v1 v2)

  -- Every step of the limiter keeps its table valid: distinct keys, at most `max_keys` of them, each
  -- with its attempts in the order of the clock.
  pub limiter-IsValid :
      (s : Counter)
      → IsValid now s
      → IsValid now (admit text now family ip identifier s).0
        × IsValid now (record_failure text now family identifier s)
        × IsValid now (clear_failures text family identifier s)
  unfolding record_failure clear_failures
  limiter-IsValid s v = (
    admit-IsValid s v,
    record-IsValid now (failure_key text family identifier) (failure_window family) s v,
    clear-IsValid now (failure_key text family identifier) s v,
  )
