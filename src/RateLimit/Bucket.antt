-- ===== src/RateLimit/Bucket.antt =====
-- The bucket of a key in api/ratelimit.py (backend/src/docos), over exact numbers in place of floats.
-- Time is counted in ticks, tokens in shares of which `whole` make one token, so that a tick refills
-- `rate` shares: with `ticks` of them to the second, `whole` is 60 * ticks.
use cross_format_documment.Base.{
  ℕ, ◌+◌, ◌-◌, ◌*◌, min, String, none, some, Bool, true, false, ltb, if◌then◌else◌,
}
use cross_format_documment.Base.Maps.{Map, empty, put}

pub record Bucket : Type 0 where
  pub tokens : ℕ
  pub last : ℕ

abbrev pub whole : ℕ → ℕ
whole ticks = 60 * ticks

-- `_state.get(key, (float(burst), now))`
abbrev pub bucket_of : Map Bucket → String → ℕ → ℕ → ℕ → Bucket
bucket_of state key ticks burst now = elim (state key) [
  | none ↦ record { tokens = burst * whole ticks; last = now }
  | some b ↦ b
]

unfoldable pub refilled : ℕ → ℕ → ℕ → ℕ → Bucket → ℕ
refilled ticks rate burst now b = min (burst * whole ticks) (b.tokens + (now - b.last) * rate)

-- Whether one token is there, and the bucket afterwards.
unfoldable pub draw : ℕ → ℕ → ℕ → ℕ → Bucket → Bool × Bucket
unfolding refilled
draw ticks rate burst now b =
    let tokens = refilled ticks rate burst now b in
    if ltb tokens (whole ticks)
    then (false, record { tokens = tokens; last = now })
    else (true, record { tokens = tokens - whole ticks; last = now })

unfoldable pub allow : ℕ → Map Bucket → String → ℕ → ℕ → ℕ → Bool × Map Bucket
unfolding draw
allow ticks state key rate burst now =
    let (allowed, b) = draw ticks rate burst now (bucket_of state key ticks burst now) in
    (allowed, put state key b)

-- `reset`
abbrev pub no_buckets : Map Bucket
no_buckets = empty
