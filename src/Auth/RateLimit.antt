-- ===== src/Auth/RateLimit.antt =====
-- src/auth/rate-limit/rate-limit.service.ts. The map of buckets is a function.
pub mod Window
use altstay_backend.Prelude.{ℕ, ◌+◌, Option, none, some, leb, ◌==◌, if◌then◌else◌, ℤ, pos, ◌-ℤ◌}
use altstay_backend.Model.{too_many_requests, Result, ok, err}

pub record Bucket : Type 0 where
  pub count : ℕ
  pub reset_at : ℕ

abbrev pub Buckets : Type 0
Buckets = ℕ → Option Bucket

-- `this.buckets.set(key, bucket)`
abbrev pub set_bucket : ℕ → Bucket → Buckets → Buckets
set_bucket key bucket buckets other = if key == other then some bucket else buckets other

-- The bucket whose window is still running.
abbrev pub running_bucket : ℕ → Option Bucket → Option Bucket
running_bucket now none = none
running_bucket now (some bucket) = if leb bucket.reset_at now then none else some bucket

-- `consume` on the bucket that was found: the remaining attempts, or the refusal.
unfoldable pub consume_in : ℕ → ℕ → ℕ → ℕ → Option Bucket → Buckets → Result ℤ × Buckets
consume_in key limit window_ms now none buckets = (
  ok (pos limit -ℤ pos 1),
  set_bucket key (record { count = 1; reset_at = now + window_ms }) buckets,
)
consume_in key limit window_ms now (some bucket) buckets =
    if leb limit bucket.count then (err too_many_requests, buckets) else (
      ok (pos limit -ℤ pos (bucket.count + 1)),
      set_bucket key (record bucket { count = bucket.count + 1 }) buckets,
    )

unfoldable pub consume : ℕ → ℕ → ℕ → ℕ → Buckets → Result ℤ × Buckets
unfolding consume_in
consume key limit window_ms now buckets =
    consume_in key limit window_ms now (running_bucket now (buckets key)) buckets
