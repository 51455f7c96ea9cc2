-- ===== src/Outbox/Completion.antt =====
-- backend/enterprise_platform/notification_outbox.py: how many calls that are no sends the steps for
-- one item make.
use easy_frame.Prelude.{
  ℕ, ◌+◌, String, Bool, true, false, not, ◌≡◌, refl, Option, List, ◌++◌, string_eq, option_eq,
  arith, if◌then◌else◌,
}
use easy_frame.Prelude.Result.{Result, ok, err}
use easy_frame.Outbox.Calls.{
  OutboxItem, SendError, Failure, Call, SendReply, sent, send_raised, Environment, Act, after_act,
  ◌>>=◌, pure, raise, port_write, call_send,
}
use easy_frame.Outbox.Delivery.{
  SendDecision, retry, fail, classify_send_error, lift, Outcome, write_outcome, retry_later,
  retry_or_exhaust, handle_classified, handle_send_failure, after_send, process_item,
}
use easy_frame.Outbox.Handling.{is_send, writes, length-filter-append}

-- Where the step returns, it has made `w` calls that are no sends.
unfoldable pub Settles : ℕ → {A : Type 0} → Act A → Type 0
Settles w {A} m = (history : List Call) (a : A) → (m history).1 ≡ ok a → writes (m history).0 ≡ w

module _ {A B : Type 0} (w w' : ℕ) where
  after-Settles :
      (history : List Call) (r : List Call × Result Failure A) (f : A → Act B) (b : B)
      → ((a : A) → r.1 ≡ ok a → writes r.0 ≡ w)
      → ((a : A) → Settles w' (f a))
      → (after_act history r f).1 ≡ ok b
      → writes (after_act history r f).0 ≡ w + w'
  unfolding Settles
  after-Settles history (calls, err e) f b h g p = cc
  after-Settles history (calls, ok a) f b h g p = omega (
    arith,
    h a refl,
    g a (history ++ calls) b p,
    length-filter-append (λ call. not (is_send call)) calls (f a (history ++ calls)).0,
  )

  bind-Settles :
      (m : Act A) (f : A → Act B)
      → Settles w m
      → ((a : A) → Settles w' (f a))
      → Settles (w + w') (m >>= f)
  unfolding Settles ◌>>=◌
  bind-Settles m f h g history b p = after-Settles history (m history) f b (h history) g p

pure-Settles : {A : Type 0} (a : A) → Settles 0 (pure a)
unfolding Settles pure
pure-Settles a history b p = refl

raise-Settles : (A : Type 0) (w : ℕ) (e : Failure) → Settles w {A = A} (raise e)
unfolding Settles raise
raise-Settles A w e history a p = cc

lift-Settles : {A : Type 0} (r : Result Failure A) → Settles 0 (lift r)
unfolding lift
lift-Settles (ok a) = pure-Settles a
lift-Settles (err e) = raise-Settles _ 0 e

same-Settles : {A : Type 0} (v w : ℕ) (m : Act A) → v ≡ w → Settles v m → Settles w m
same-Settles v w m p h = rw p at h

if-Settles :
    {A : Type 0} (w : ℕ) (b : Bool) (m n : Act A)
    → Settles w m
    → Settles w n
    → Settles w (if b then m else n)
if-Settles w true m n h g = h
if-Settles w false m n h g = g

write-Settles :
    (environment : Environment) (call : Call)
    → is_send call ≡ false
    → Settles 1 (port_write environment call)
unfolding Settles port_write
write-Settles environment call q history a p = ground (arith, q)

send-Settles :
    (environment : Environment) (item : OutboxItem) → Settles 0 (call_send environment item.payload)
unfolding Settles call_send
send-Settles environment item history a p = refl

outcome-Settles :
    (environment : Environment) (call : Call) (outcome : Outcome)
    → is_send call ≡ false
    → Settles 1 (write_outcome environment call outcome)
outcome-Settles environment call outcome q =
    same-Settles (1 + 0) 1 _ (omega arith)
      (bind-Settles 1 0 _ _ (write-Settles environment call q) (λ written. pure-Settles _))

first-Settles :
    {A B : Type 0} (w : ℕ) (m : Act A) (f : A → Act B)
    → Settles 0 m
    → ((a : A) → Settles w (f a))
    → Settles w (m >>= f)
first-Settles w m f h g = same-Settles (0 + w) w _ (omega arith) (bind-Settles 0 w m f h g)

module _ (environment : Environment) (jitter : ℕ → Option ℕ) (now max : ℕ) (item : OutboxItem)
    (token : String) where
  retry-Settles :
      (error : SendError) → Settles 1 (retry_or_exhaust environment jitter now max item error token)
  unfolding retry_or_exhaust retry_later
  retry-Settles error = if-Settles 1 _ _ _ (outcome-Settles environment _ _ refl) (
      first-Settles 1 _ _ (lift-Settles _)
        λ at. first-Settles 1 _ _ (lift-Settles _) λ code. outcome-Settles environment _ _ refl)

  classified-Settles :
      (error : SendError) (decision : Result Failure SendDecision)
      → Settles 1 (handle_classified environment jitter now max item error token decision)
  unfolding handle_classified
  classified-Settles error (err e) = raise-Settles Outcome 1 e
  classified-Settles error (ok retry) = retry-Settles error
  classified-Settles error (ok fail) =
      first-Settles 1 _ _ (lift-Settles _) λ code. outcome-Settles environment _ _ refl

  after_send-Settles :
      (reply : SendReply) → Settles 1 (after_send environment jitter now max item token reply)
  unfolding after_send handle_send_failure
  after_send-Settles (send_raised error) = classified-Settles error (classify_send_error error)
  after_send-Settles (sent message_id) =
      if-Settles 1 _ _ _
        (same-Settles (1 + 0) 1 _ (omega arith) (
          bind-Settles 1 0 _ _ (write-Settles environment _ refl)
            (λ written. raise-Settles Outcome 0 _)))
        (outcome-Settles environment _ _ refl)

  pub item-Settles : Settles 1 (process_item environment jitter now max item token)
  unfolding process_item
  item-Settles =
      if-Settles 1 _ _ _ (outcome-Settles environment _ _ refl)
        (first-Settles 1 _ _ (send-Settles environment item) after_send-Settles)
