-- ===== src/Auth/RateLimit/Window.antt =====
-- How many calls a window lets through (src/auth/rate-limit/rate-limit.service.ts).
use altstay_backend.Prelude.{
  ℕ, ◌+◌, ◌≤◌, ◌<◌, max, ◌≡◌, refl, ◌∙◌, ◌⊎◌, inl, inr, true, false, none, some, List, [], ◌∷◌,
  arith, leb, ◌==◌, if◌then◌else◌, ==_iff, Bool-cases, Option-cases, All, ℤ,
}
use altstay_backend.Model.{Result, ok, err}
use altstay_backend.Auth.RateLimit.{Bucket, Buckets, running_bucket, consume_in, consume}

-- The arguments of a call, and the clock that it reads.
pub record Hit : Type 0 where
  pub key : ℕ
  pub limit : ℕ
  pub window_ms : ℕ
  pub now : ℕ

abbrev pub run_hit : Hit → Buckets → Result ℤ × Buckets
run_hit hit buckets = consume hit.key hit.limit hit.window_ms hit.now buckets

abbrev passed : ℕ → Hit → Result ℤ → ℕ
passed key hit (ok _) = if hit.key == key then 1 else 0
passed key hit (err _) = 0

-- How many of the calls with the key pass, in the order in which they come.
unfoldable pub allowed : ℕ → List Hit → Buckets → ℕ
allowed key [] buckets = 0
allowed key (hit ∷ hits) buckets =
    passed key hit (run_hit hit buckets).0 + allowed key hits (run_hit hit buckets).1

-- The calls with the key share a limit and a window, and come within one window of a time.
abbrev pub AreWithin : ℕ → ℕ → ℕ → ℕ → List Hit → Type 0
AreWithin key limit window_ms from = All (λ hit.
    hit.key ≡ key
    → (hit.limit ≡ limit)
      × (hit.window_ms ≡ window_ms)
      × (from ≤ hit.now)
      × (hit.now < from + window_ms))

other_key :
    (key : ℕ) (hit : Hit) (buckets : Buckets)
    → (hit.key == key) ≡ false
    → ((run_hit hit buckets).1 key ≡ buckets key) × (passed key hit (run_hit hit buckets).0 ≡ 0)
unfolding consume consume_in
other_key key hit buckets e = elim (Option-cases (running_bucket hit.now (buckets hit.key))) [
  | inl n ↦ rw (n, e) (refl, refl)
  | inr (bucket, f) ↦ elim (Bool-cases (leb hit.limit bucket.count)) [
    | inl t ↦ rw (f, t) (refl, refl)
    | inr t ↦ rw (f, t, e) (refl, refl)
  ]
]

-- A hit of the key while its window runs.
own_key :
    (key limit : ℕ) (hit : Hit) (buckets : Buckets) (bucket : Bucket)
    → (hit.key == key) ≡ true
    → hit.limit ≡ limit
    → buckets key ≡ some bucket
    → hit.now < bucket.reset_at
    → ((limit ≤ bucket.count)
        × ((run_hit hit buckets).1 key ≡ some bucket)
        × (passed key hit (run_hit hit buckets).0 ≡ 0))
      ⊎ ((bucket.count < limit)
          × ((run_hit hit buckets).1 key ≡ some (record bucket { count = bucket.count + 1 }))
          × (passed key hit (run_hit hit buckets).0 ≡ 1))
unfolding consume consume_in
own_key key limit hit buckets bucket e l f r =
    let same : buckets hit.key ≡ some bucket = rw ((==_iff hit.key key).0 e) f in
    let late : leb bucket.reset_at hit.now ≡ false = ground arith in
    elim (Bool-cases (leb hit.limit bucket.count)) [
      | inl t ↦ inl (ground arith, rw (same, late, t) f, rw (same, late, t) refl)
      | inr t ↦ inr (ground arith, rw (same, late, t, e) refl, rw (same, late, t, e) refl)
    ]

module _ (key limit window_ms from : ℕ) where
  allowed-running :
      (hits : List Hit) (buckets : Buckets) (bucket : Bucket)
      → AreWithin key limit window_ms from hits
      → buckets key ≡ some bucket
      → from + window_ms ≤ bucket.reset_at
      → allowed key hits buckets + bucket.count ≤ max limit bucket.count
  unfolding allowed
  allowed-running [] buckets bucket h f r = omega arith
  allowed-running (hit ∷ hits) buckets bucket (h, hs) f r = elim (Bool-cases (hit.key == key)) [
    | inr e ↦
        let (kept, none_passed) = other_key key hit buckets e in
        let rest : allowed key hits (run_hit hit buckets).1 + bucket.count
            ≤ max limit bucket.count =
          allowed-running hits (run_hit hit buckets).1 bucket hs (kept ∙ f) r in
        omega arith
    | inl e ↦
        let (l, w, a, b) = h (ground arith) in
        elim (own_key key limit hit buckets bucket e l f (omega arith)) [
          | inl (full, kept, none_passed) ↦
              let rest : allowed key hits (run_hit hit buckets).1 + bucket.count
                  ≤ max limit bucket.count =
                allowed-running hits (run_hit hit buckets).1 bucket hs kept r in
              omega arith
          | inr (room, kept, one_passed) ↦
              let rest : allowed key hits (run_hit hit buckets).1 + (bucket.count + 1)
                  ≤ max limit (bucket.count + 1) =
                allowed-running hits (run_hit hit buckets).1
                  (record bucket { count = bucket.count + 1 }) hs kept r in
              omega arith
        ]
  ]

  first_hit :
      (hit : Hit) (buckets : Buckets)
      → (hit.key == key) ≡ true
      → buckets key ≡ none
      → ((run_hit hit buckets).1 key
          ≡ some (record { count = 1; reset_at = hit.now + hit.window_ms }))
        × (passed key hit (run_hit hit buckets).0 ≡ 1)
  unfolding consume consume_in
  first_hit hit buckets e f =
      let same : buckets hit.key ≡ none = rw ((==_iff hit.key key).0 e) f in
      (rw (same, e) refl, rw (same, e) refl)

-- Of the calls with a key that has no bucket, all with one limit and window length and within one
-- window of a time, at most the limit pass, or one when the limit is 0, whatever other calls come between.
pub allowed_bounded :
    (key limit window_ms from : ℕ) (hits : List Hit) (buckets : Buckets)
    → AreWithin key limit window_ms from hits
    → buckets key ≡ none
    → allowed key hits buckets ≤ max limit 1
unfolding allowed
allowed_bounded key limit window_ms from [] buckets h f = omega arith
allowed_bounded key limit window_ms from (hit ∷ hits) buckets (h, hs) f =
    elim (Bool-cases (hit.key == key)) [
      | inr e ↦
          let (kept, none_passed) = other_key key hit buckets e in
          let rest : allowed key hits (run_hit hit buckets).1 ≤ max limit 1 =
            allowed_bounded key limit window_ms from hits (run_hit hit buckets).1 hs (kept ∙ f) in
          omega arith
      | inl e ↦
          let (l, w, a, b) = h (ground arith) in
          let (kept, one_passed) = first_hit key limit window_ms from hit buckets e f in
          let rest : allowed key hits (run_hit hit buckets).1 + 1 ≤ max limit 1 =
            allowed-running key limit window_ms from hits (run_hit hit buckets).1
              (record { count = 1; reset_at = hit.now + hit.window_ms }) hs kept (omega arith) in
          omega arith
    ]
