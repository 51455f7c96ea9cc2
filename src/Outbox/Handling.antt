-- ===== src/Outbox/Handling.antt =====
-- backend/enterprise_platform/notification_outbox.py: which calls `process_outbox_once` makes.
use easy_frame.Prelude.{
  ℕ, ◌+◌, ◌≤◌, ◌<◌, String, Bool, true, false, not, ◌≡◌, refl, Option, none, some, List, [], ◌∷◌,
  ◌++◌, ◌==◌, string_eq, option_eq, ==_iff, length, filter, All, All-append, arith, if◌then◌else◌,
  leb,
}
use easy_frame.Prelude.Result.{Result, ok, err}
use easy_frame.Outbox.Calls.{
  OutboxItem, SendError, dedup_conflict, rejected, throttled, unavailable, protocol_error,
  other_error, Failure, Call, send, mark_accepted, mark_retry, mark_failed, release, SendReply,
  sent, send_raised, Environment, Act, after_act, ◌>>=◌, pure, raise, port_write, call_send,
}
use easy_frame.Outbox.Delivery.{
  classify_send_error, retry, fail, next_retry_at, later_by, handle_classified, SendDecision, lift,
  Outcome, write_outcome, retry_later, retry_or_exhaust, handle_send_failure, after_send,
  process_item,
}

abbrev pub is_send : Call → Bool
is_send (send _) = true
is_send _ = false

abbrev pub sends : List Call → ℕ
sends calls = length (filter is_send calls)

abbrev pub writes : List Call → ℕ
writes calls = length (filter (λ call. not (is_send call)) calls)

-- A call that the driver may make for an item at a time: it sends the item's own payload, under the
-- item's own key; it writes the item's row, with the item's lease; it puts off only an item with
-- attempts left, and never into the past.
abbrev pub Permitted : ℕ → ℕ → OutboxItem → Call → Type 0
Permitted now max item (send payload) =
    (payload ≡ item.payload) × (payload.dedup_key ≡ some item.dedup_key)
Permitted now max item (mark_accepted id message_id at token) =
    (id ≡ item.id) × (some token ≡ item.lease_token) × (at ≡ now)
Permitted now max item (mark_retry id at error token) =
    (id ≡ item.id) × (some token ≡ item.lease_token) × (item.attempt_count + 1 < max) × (now ≤ at)
Permitted now max item (mark_failed id error at token) =
    (id ≡ item.id) × (some token ≡ item.lease_token) × (at ≡ now)
Permitted now max item (release id token) = (id ≡ item.id) × (some token ≡ item.lease_token)
Permitted now max item _ = ⊥

-- The calls of a driver for its items, and whether it returns. If it returns, it has served every item
-- in turn: all calls for it are permitted for it, at most one is a send, and one is a write. If not,
-- it has served some items so, and has ended among the calls for the next.
pub data Handled (now max : ℕ) : List OutboxItem → List Call → Bool → Type 0 where
  done : Handled now max [] [] true
  ended :
      (item : OutboxItem) (items : List OutboxItem) (own : List Call)
      → All (Permitted now max item) own
      → sends own ≤ 1
      → writes own ≤ 1
      → Handled now max (item ∷ items) own false
  next :
      {returned : Bool} (item : OutboxItem) (items : List OutboxItem) (own later : List Call)
      → All (Permitted now max item) own
      → sends own ≤ 1
      → writes own ≡ 1
      → Handled now max items later returned
      → Handled now max (item ∷ items) (own ++ later) returned

pub length-filter-append :
    {A : Type 0} (p : A → Bool) (xs ys : List A)
    → length (filter p (xs ++ ys)) ≡ length (filter p xs) + length (filter p ys)
length-filter-append p [] ys = omega arith
length-filter-append p (x ∷ xs) ys = ground (arith, length-filter-append p xs ys)

later-by : (now : ℕ) (r : Result Failure ℕ) (at : ℕ) → later_by now r ≡ ok at → now ≤ at
later-by now (ok delay) at h = ground arith
later-by now (err e) at h = cc

-- A retry is never put into the past.
retry-later :
    (jitter : ℕ → Option ℕ) (now attempt : ℕ) (error : SendError) (at : ℕ)
    → next_retry_at jitter now attempt error ≡ ok at
    → now ≤ at
unfolding next_retry_at
retry-later jitter now attempt (throttled (some d)) at h = ground arith
retry-later jitter now attempt (throttled none) at h = later-by now _ at h
retry-later jitter now attempt (unavailable _) at h = later-by now _ at h
retry-later jitter now attempt (protocol_error _) at h = later-by now _ at h
retry-later jitter now attempt (dedup_conflict _) at h = later-by now _ at h
retry-later jitter now attempt (rejected _ _) at h = later-by now _ at h
retry-later jitter now attempt (other_error _ _) at h = cc

module _ (now max : ℕ) (item : OutboxItem) where
  abbrev pub Within : ℕ → ℕ → List Call → Type 0
  Within s w calls = All (Permitted now max item) calls × (sends calls ≤ s) × (writes calls ≤ w)

  -- After any calls so far, the step makes at most `s` sends and `w` writes, all permitted.
  unfoldable pub Makes : ℕ → ℕ → {A : Type 0} → Act A → Type 0
  Makes s w m = (history : List Call) → Within s w (m history).0

  module _ {A B : Type 0} where
    after_Within :
        (s w s' w' : ℕ) (history : List Call) (r : List Call × Result Failure A) (f : A → Act B)
        → Within s w r.0
        → ((a : A) → Makes s' w' (f a))
        → Within (s + s') (w + w') (after_act history r f).0
    unfolding Makes
    after_Within s w s' w' history (calls, err e) f (p, a, b) g =
        (p, omega (arith, a), omega (arith, b))
    after_Within s w s' w' history (calls, ok x) f (p, a, b) g =
        let later : List Call = (f x (history ++ calls)).0 in
        let (p', a', b') = g x (history ++ calls) in
        (
          All-append (Permitted now max item) calls later p p',
          omega (arith, a, a', length-filter-append is_send calls later),
          omega (arith, b, b', length-filter-append (λ call. not (is_send call)) calls later),
        )

    bind-Makes :
        (s w s' w' : ℕ) (m : Act A) (f : A → Act B)
        → Makes s w m
        → ((a : A) → Makes s' w' (f a))
        → Makes (s + s') (w + w') (m >>= f)
    unfolding Makes ◌>>=◌
    bind-Makes s w s' w' m f h g history =
        after_Within s w s' w' history (m history) f (h history) g

  weaken-Makes :
      {A : Type 0} (s w s' w' : ℕ) (m : Act A) → s ≤ s' → w ≤ w' → Makes s w m → Makes s' w' m
  unfolding Makes
  weaken-Makes s w s' w' m a b h history =
      let (p, q, r) = h history in (p, omega (arith, a, q), omega (arith, b, r))

  pure-Makes : {A : Type 0} (a : A) → Makes 0 0 (pure a)
  unfolding Makes pure
  pure-Makes a history = (tt, omega arith, omega arith)

  raise-Makes : (A : Type 0) (e : Failure) → Makes 0 0 {A = A} (raise e)
  unfolding Makes raise
  raise-Makes A e history = (tt, omega arith, omega arith)

  -- a result that is lifted, with its equation
  lift-Makes :
      {A B : Type 0} (s w : ℕ) (r : Result Failure A) (f : A → Act B)
      → ((a : A) → r ≡ ok a → Makes s w (f a))
      → Makes s w (lift r >>= f)
  unfolding Makes ◌>>=◌ lift pure raise
  lift-Makes s w (ok a) f h history = h a refl (history ++ [])
  lift-Makes s w (err e) f h history = (tt, omega arith, omega arith)

  write-Makes :
      (environment : Environment) (call : Call)
      → Permitted now max item call
      → is_send call ≡ false
      → Makes 0 1 (port_write environment call)
  unfolding Makes port_write
  write-Makes environment call p q history = ((p, tt), ground (arith, q), ground (arith, q))

  send-Makes :
      (environment : Environment)
      → item.payload.dedup_key ≡ some item.dedup_key
      → Makes 1 0 (call_send environment item.payload)
  unfolding Makes call_send
  send-Makes environment p history = (((refl, p), tt), omega arith, omega arith)

  outcome-Makes :
      (environment : Environment) (call : Call) (outcome : Outcome)
      → Permitted now max item call
      → is_send call ≡ false
      → Makes 0 1 (write_outcome environment call outcome)
  outcome-Makes environment call outcome p q =
      weaken-Makes (0 + 0) (1 + 0) 0 1 _ (omega arith) (omega arith)
        (bind-Makes 0 1 0 0 _ _ (write-Makes environment call p q) (λ written. pure-Makes _))

  if-Makes :
      {A : Type 0} (s w : ℕ) (b : Bool) (m n : Act A)
      → (b ≡ true → Makes s w m)
      → (b ≡ false → Makes s w n)
      → Makes s w (if b then m else n)
  if-Makes s w true m n h g = h refl
  if-Makes s w false m n h g = g refl

  module _ (environment : Environment) (jitter : ℕ → Option ℕ) (token : String)
      (t : some token ≡ item.lease_token) where
    retry_later-Makes :
        (error : SendError)
        → item.attempt_count + 1 < max
        → Makes 0 1
            (retry_later environment jitter now max item error token (item.attempt_count + 1))
    unfolding retry_later
    retry_later-Makes error h = lift-Makes 0 1 _ _ λ at p. lift-Makes 0 1 _ _ λ code _.
        outcome-Makes environment _ _
          (refl, t, h, retry-later jitter now (item.attempt_count + 1) error at p) refl

    exhaust-Makes :
        (error : SendError)
        → Makes 0 1 (retry_or_exhaust environment jitter now max item error token)
    unfolding retry_or_exhaust
    exhaust-Makes error =
        if-Makes 0 1 (leb max (item.attempt_count + 1)) _ _
          (λ p. outcome-Makes environment _ _ (refl, t, refl) refl)
          (λ p. retry_later-Makes error (ground arith))

    classified-Makes :
        (error : SendError) (decision : Result Failure SendDecision)
        → Makes 0 1 (handle_classified environment jitter now max item error token decision)
    unfolding handle_classified
    classified-Makes error (err e) =
        weaken-Makes 0 0 0 1 _ (omega arith) (omega arith) (raise-Makes Outcome e)
    classified-Makes error (ok retry) = exhaust-Makes error
    classified-Makes error (ok fail) =
        lift-Makes 0 1 _ _ λ code _. outcome-Makes environment _ _ (refl, t, refl) refl

    pub after_send-Makes :
        (reply : SendReply) → Makes 0 1 (after_send environment jitter now max item token reply)
    unfolding after_send handle_send_failure
    after_send-Makes (send_raised error) = classified-Makes error (classify_send_error error)
    after_send-Makes (sent message_id) =
        if-Makes 0 1 (message_id == "") _ _
          (λ p. weaken-Makes (0 + 0) (1 + 0) 0 1 _ (omega arith) (omega arith) (
            bind-Makes 0 1 0 0 _ _ (write-Makes environment _ (refl, t) refl)
              (λ written. raise-Makes Outcome _)))
          (λ p. outcome-Makes environment _ _ (refl, t, refl) refl)

    pub process_item-Makes : Makes 1 1 (process_item environment jitter now max item token)
    unfolding process_item
    process_item-Makes =
        if-Makes 1 1 (not (item.payload.dedup_key == some item.dedup_key)) _ _
          (λ p.
            weaken-Makes 0 1 1 1 _ (omega arith) (omega arith)
              (outcome-Makes environment _ _ (refl, t, refl) refl))
          (λ p. weaken-Makes (1 + 0) (0 + 1) 1 1 _ (omega arith) (omega arith) (
            bind-Makes 1 0 0 1 _ _
              (send-Makes environment
                ((==_iff item.payload.dedup_key (some item.dedup_key)).0 (ground (arith, p))))
              after_send-Makes))
