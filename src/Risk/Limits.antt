-- ===== src/Risk/Limits.antt =====
-- What the policies of risk/src/lib.rs let through.
use orderbook_replay_lab.Base.{
  ℕ, ◌+◌, ◌-◌, ◌/◌, ◌≤◌, ◌<◌, ◌≡◌, refl, sym, subst, ◌∙◌, ◌⊎◌, inl, inr, Bool, true, false, List,
  [], ◌∷◌, arith, ltb, leb, ◌==◌, if◌then◌else◌, Bool-cases, length, All, u64_mod, add_u64, nat_eq,
  text_eq,
}
use orderbook_replay_lab.Trading.{Intent}
use orderbook_replay_lab.Api.{ContextSnapshot}
use orderbook_replay_lab.Risk.Defs.{
  RiskAction, RateLimitPolicy, new_rate_limit, roll_window, charge, rate_limit, is_order_intent,
}

-- A call of a policy: its context and its intent.
abbrev pub Call : Type 0
Call = ContextSnapshot × Intent

abbrev pub bucket_of : Call → ℕ
bucket_of c = c.0.ts_ns / 1_000_000_000

abbrev pub is_allow : RiskAction → Bool
is_allow (RiskAction.allow i) = true
is_allow (RiskAction.reject reason) = false
is_allow (RiskAction.transform i) = false

-- How many calls in a row the rate limit allows.
unfoldable pub allowed : List Call → RateLimitPolicy → ℕ
allowed [] r = 0
allowed (c ∷ cs) r =
    let (action, r') = rate_limit c.0 c.1 r in (if is_allow action then 1 else 0) + allowed cs r'

abbrev pub min_ℕ : ℕ → ℕ → ℕ
min_ℕ m n = if leb m n then m else n

is_order_intent-true : (i : Intent) → is_order_intent i ≡ true
is_order_intent-true (Intent.place_limit symbol side price qty tif tag) = refl
is_order_intent-true (Intent.cancel id) = refl
is_order_intent-true (Intent.replace id p q) = refl

-- The cells before a call in a bucket: of that bucket, or without a count.
abbrev Ready : ℕ → RateLimitPolicy → Type 0
Ready b r = (r.window_bucket ≡ b) ⊎ (r.count ≡ 0)

roll-count : (b : ℕ) (r : RateLimitPolicy) → Ready b r → (roll_window b r).count ≡ r.count
roll-count b r h = ground arith

roll-bucket : (b : ℕ) (r : RateLimitPolicy) → (roll_window b r).window_bucket ≡ b
roll-bucket b r = ground arith

roll-max : (b : ℕ) (r : RateLimitPolicy) → (roll_window b r).max_per_sec ≡ r.max_per_sec
roll-max b r = ground arith

rate_limit-charge :
    (c : Call) (r : RateLimitPolicy)
    → (r.max_per_sec == 0) ≡ false
    → rate_limit c.0 c.1 r ≡ charge c.1 (roll_window (bucket_of c) r)
unfolding rate_limit
rate_limit-charge c r some_room = rw (is_order_intent-true c.1, some_room) refl

rate_limit-zero :
    (c : Call) (r : RateLimitPolicy)
    → (r.max_per_sec == 0) ≡ true
    → rate_limit c.0 c.1 r ≡ (RiskAction.reject "rate limit exceeded", r)
unfolding rate_limit
rate_limit-zero c r zero_limit = rw (is_order_intent-true c.1, zero_limit) refl

charge-room :
    (i : Intent) (w : RateLimitPolicy)
    → w.max_per_sec < u64_mod
    → w.count < w.max_per_sec
    → charge i w ≡ (RiskAction.allow i, record w { count = w.count + 1 })
unfolding charge add_u64
charge-room i w fits room = ground arith

charge-full :
    (i : Intent) (w : RateLimitPolicy)
    → w.max_per_sec + 1 < u64_mod
    → w.count ≡ w.max_per_sec
    → charge i w ≡ (RiskAction.reject "rate limit exceeded", w)
unfolding charge add_u64
charge-full i w fits full = ground arith

rate_limit-room :
    (c : Call) (r : RateLimitPolicy)
    → Ready (bucket_of c) r
    → r.max_per_sec < u64_mod
    → r.count < r.max_per_sec
    → rate_limit c.0 c.1 r
      ≡ (RiskAction.allow c.1, record r { window_bucket = bucket_of c; count = r.count + 1 })
rate_limit-room c r h fits room =
    rate_limit-charge c r (ground arith)
    ∙ charge-room c.1 (roll_window (bucket_of c) r) (omega (arith, roll-max (bucket_of c) r))
        (omega (arith, roll-max (bucket_of c) r, roll-count (bucket_of c) r h))
    ∙ ground
        (arith, roll-max (bucket_of c) r, roll-count (bucket_of c) r h, roll-bucket (bucket_of c) r)

rate_limit-full :
    (c : Call) (r : RateLimitPolicy)
    → Ready (bucket_of c) r
    → r.max_per_sec + 1 < u64_mod
    → r.count ≡ r.max_per_sec
    → (is_allow (rate_limit c.0 c.1 r).0 ≡ false)
      × (Ready (bucket_of c) (rate_limit c.0 c.1 r).1)
      × ((rate_limit c.0 c.1 r).1.count ≡ r.count)
      × ((rate_limit c.0 c.1 r).1.max_per_sec ≡ r.max_per_sec)
rate_limit-full c r h fits full = elim (Bool-cases (r.max_per_sec == 0)) [
  | inl nil ↦ rw (rate_limit-zero c r nil) (refl, h, refl, refl)
  | inr some_room ↦
      rw
        (
          rate_limit-charge c r some_room,
          charge-full c.1 (roll_window (bucket_of c) r) (omega (arith, roll-max (bucket_of c) r))
              (omega (arith, full, roll-max (bucket_of c) r, roll-count (bucket_of c) r h)),
        )
        (
          refl,
          inl (roll-bucket (bucket_of c) r),
          roll-count (bucket_of c) r h,
          roll-max (bucket_of c) r,
        )
]

-- The calls of one bucket that are still allowed are those that the count leaves.
allowed-left :
    (cs : List Call) (b : ℕ) (r : RateLimitPolicy)
    → All (λ c. bucket_of c ≡ b) cs
    → Ready b r
    → r.max_per_sec + 1 < u64_mod
    → r.count ≤ r.max_per_sec
    → allowed cs r ≡ min_ℕ (length cs) (r.max_per_sec - r.count)
unfolding allowed
allowed-left [] b r same h fits le = ground arith
allowed-left (c ∷ cs) b r (at, same) h fits le =
    let ready = subst (λ x. Ready x r) (sym at) h in
    elim (Bool-cases (ltb r.count r.max_per_sec)) [
      | inl room ↦
          rw
            (
              rate_limit-room c r ready (omega arith) (ground (arith, room)),
              allowed-left cs b (record r { window_bucket = bucket_of c; count = r.count + 1 }) same
                  (inl at) fits (ground (arith, room)),
            )
            (ground (arith, room))
      | inr full ↦
          (let step = rate_limit-full c r ready fits (ground (arith, full)) in
            let r' = (rate_limit c.0 c.1 r).1 in
            let rest =
              allowed-left cs b r' same (subst (λ x. Ready x r') at step.1) (omega (arith, step.3))
                (ground (arith, step.2, step.3, full)) in
            rw (step.0, rest, step.2, step.3) (ground (arith, full)))
    ]

-- Of any calls whose times lie in the same second of the clock, that is, have the same whole number
-- of seconds, a new rate limit allows exactly as many as its limit, or all of them if there are
-- fewer. Nothing is said of calls on both sides of a second's end, where a new count starts. The
-- limit is below the largest number of the machine.
pub allowed-in_second :
    (cs : List Call) (second max_per_sec : ℕ)
    → All (λ c. bucket_of c ≡ second) cs
    → max_per_sec + 1 < u64_mod
    → allowed cs (new_rate_limit max_per_sec) ≡ min_ℕ (length cs) max_per_sec
unfolding new_rate_limit
allowed-in_second cs second max_per_sec same fits =
    allowed-left cs second (new_rate_limit max_per_sec) same (inr refl) fits (omega arith)
    ∙ ground arith
