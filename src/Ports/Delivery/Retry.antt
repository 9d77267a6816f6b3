-- ===== src/Ports/Delivery/Retry.antt =====
-- How the failures of a delivery are counted, and that they come to an end.
use native.Mathlib.Nat.{add-zero}
use payrune.Prelude.{
  ℕ, zero, suc, ◌+◌, ◌<◌, ◌^◌, ◌==◌, false, none, some, ◌≡◌, refl, arith, if◌then◌else◌,
}
use payrune.Prelude.Int.{ℤ, pos, ◌≤ℤ◌, ◌<ℤ◌, ◌+ℤ◌, leb_ℤ, IsInt32, add32_exact}
use payrune.Text.{trim_space, trim_left, is_space, lower, to_lower}
use payrune.Result.{Result, ok, ◌>>=◌}
use payrune.Time.{Time, Duration, is_zero, add}
use payrune.Ports.Delivery.{DeliveryResult, resolve_failure}
use payrune.Ports.Error.{Error}
use payrune.Ports.Validation.{normalize_delivery_failure_reason, delivery_failed, pending, failed}

known_reason : normalize_delivery_failure_reason delivery_failed ≡ some delivery_failed
unfolding normalize_delivery_failure_reason to_lower lower trim_space trim_left is_space
known_reason = refl

module _ (id : ℤ) (max_attempts : ℤ) (retry_delay : Duration) where
  -- A failed delivery of a pending notification, that is one with fewer attempts than allowed, is
  -- resolved without an error and without a wrapped counter: it counts one attempt more, is failed
  -- for good when that reaches the limit, and is otherwise pending at a later time.
  pub resolve_failure_total :
      (current : ℤ) (now : Time)
      → pos 0 <ℤ id
      → pos 0 <ℤ retry_delay
      → is_zero now ≡ false
      → pos 0 ≤ℤ current
      → current <ℤ max_attempts
      → IsInt32 max_attempts
      → resolve_failure id current max_attempts now retry_delay delivery_failed
        ≡ ok (
            if leb_ℤ max_attempts (current +ℤ pos 1)
            then record {
              notification_id = id;
              status = failed;
              attempts = current +ℤ pos 1;
              last_failure_reason = delivery_failed;
              next_attempt_at = none;
              delivered_at = none;
            }
            else record {
              notification_id = id;
              status = pending;
              attempts = current +ℤ pos 1;
              last_failure_reason = delivery_failed;
              next_attempt_at = some (add now retry_delay);
              delivered_at = none;
            })
  unfolding resolve_failure ◌+ℤ◌
  resolve_failure_total current now h1 h2 h3 h4 h5 h6 =
      ground (arith, known_reason, add32_exact current (pos 1))

module _ (id : ℤ) (max_attempts : ℕ) (retry_delay : Duration) (now : Time) where
  -- The result of the last of n + 1 deliveries that fail one after another.
  unfoldable pub after_failures : ℕ → ℤ → Result Error DeliveryResult
  after_failures zero current =
      resolve_failure id current (pos max_attempts) now retry_delay delivery_failed
  after_failures (suc n) current =
      resolve_failure id current (pos max_attempts) now retry_delay delivery_failed >>= λ r.
      after_failures n r.attempts

  module _ (h1 : pos 0 <ℤ id) (h2 : pos 0 <ℤ retry_delay) (h3 : is_zero now ≡ false)
      (h6 : max_attempts < 2 ^ 31) where
    one_failure :
        (c : ℕ)
        → c < max_attempts
        → (r : DeliveryResult) × (resolve_failure id
              (pos c)
              (pos max_attempts)
              now
              retry_delay
              delivery_failed
            ≡ ok r)
          × (r.attempts ≡ pos (c + 1))
          × (r.status ≡ (if c + 1 == max_attempts then failed else pending))
    unfolding ◌+ℤ◌
    one_failure c h = (
      _,
      resolve_failure_total id (pos max_attempts) retry_delay (pos c) now h1 h2 h3 (omega arith)
          (omega arith) (omega arith),
      ground arith,
      ground arith,
    )

    -- Failure after failure, a notification stays pending with one attempt more each time, until the
    -- attempts reach the limit: then it is failed.
    pub after_failures_status :
        (n c : ℕ)
        → c + n < max_attempts
        → (r : DeliveryResult) × (after_failures n (pos c) ≡ ok r)
          × (r.attempts ≡ pos (c + n + 1))
          × (r.status ≡ (if c + n + 1 == max_attempts then failed else pending))
    unfolding after_failures
    after_failures_status zero c h = rw add-zero (one_failure c (omega arith))
    after_failures_status (suc n) c h =
        let (r, e, attempts, status) = one_failure c (omega arith) in
        let (last, e', attempts', status') = after_failures_status n (c + 1) (omega arith) in
        (last, rw (e, attempts) e', ground arith, ground arith)
