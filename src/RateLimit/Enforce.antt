-- ===== src/RateLimit/Enforce.antt =====
-- The dependencies of api/ratelimit.py (backend/src/docos) that throttle requests.
use cross_format_documment.Base.{ℕ, max, String, Option, none, some, Bool, not, ◌||◌, if◌then◌else◌}
use cross_format_documment.Base.Http.{Http, reply, fail, guard}
use cross_format_documment.Base.Text.{join}
use cross_format_documment.Base.Maps.{Map}
use cross_format_documment.Access.Owner.{Actor}
use cross_format_documment.RateLimit.Bucket.{Bucket, allow}

pub record Limits : Type 0 where
  pub rate_limit_enabled : Bool
  pub rate_limit_uploads_per_min : ℕ
  pub rate_limit_ops_per_min : ℕ
  pub rate_limit_auth_per_min : ℕ
  pub rate_limit_portal_per_min : ℕ

-- `_client_key`, of the host of `request.client` where there is one
abbrev pub client_key : Option String → String
client_key none = "unknown"
client_key (some host) = host

module _ (ticks : ℕ) (limits : Limits) where
  -- Both buckets are drawn from, whatever the first one says.
  unfoldable pub enforce_both : ℕ → String → String → Map Bucket → ℕ → Map Bucket × Http (Unit {0})
  unfolding allow
  enforce_both rate session_bucket client_bucket state now =
      let burst = max rate 1 in
      let (session_allowed, after) = allow ticks state session_bucket rate burst now in
      let (client_allowed, both) = allow ticks after client_bucket rate burst now in
      if limits.rate_limit_enabled
      then (both, if not session_allowed || not client_allowed then fail 429 else reply tt)
      else (state, reply tt)

  unfoldable pub enforce_one : ℕ → String → Map Bucket → ℕ → Map Bucket × Http (Unit {0})
  unfolding allow
  enforce_one rate client_bucket state now =
      let (allowed, after) = allow ticks state client_bucket rate (max rate 1) now in
      if limits.rate_limit_enabled then (after, guard allowed 429) else (state, reply tt)

  unfoldable pub enforce_upload_rate :
      Map Bucket → Option String → Actor → ℕ → Map Bucket × Http (Unit {0})
  unfolding enforce_both
  enforce_upload_rate state client actor now =
      enforce_both limits.rate_limit_uploads_per_min (join "upload:session:" actor.session_id)
        (join "upload:client:" (client_key client)) state now

  unfoldable pub enforce_op_rate :
      Map Bucket → Option String → Actor → ℕ → Map Bucket × Http (Unit {0})
  unfolding enforce_both
  enforce_op_rate state client actor now =
      enforce_both limits.rate_limit_ops_per_min (join "op:session:" actor.session_id)
        (join "op:client:" (client_key client)) state now

  unfoldable pub enforce_auth_rate : Map Bucket → Option String → ℕ → Map Bucket × Http (Unit {0})
  unfolding enforce_one
  enforce_auth_rate state client now =
      enforce_one limits.rate_limit_auth_per_min (join "auth:client:" (client_key client)) state now

  unfoldable pub enforce_portal_rate : Map Bucket → Option String → ℕ → Map Bucket × Http (Unit {0})
  unfolding enforce_one
  enforce_portal_rate state client now =
      enforce_one limits.rate_limit_portal_per_min (join "portal:client:" (client_key client)) state
        now
