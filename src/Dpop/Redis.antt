-- ===== src/Dpop/Redis.antt =====
-- dpop/redisreplay/cache.go: the cache of proof identifiers in Redis.
-- `Redis` stands for the client and the server behind it: `SetNX` at an instant with a key, a value and
-- a time to live; `digest` for the base64 text of the SHA-256 sum.
pub mod SingleUse
mod Tests
use mcp_auth_go.Prelude.{
  Str, str, is_empty, Bool, true, false, not, List, ◌∷◌, ◌++◌, Time, Duration, pos, positive, sub,
  ltb_ℤ, if◌then◌else◌,
}
use mcp_auth_go.Core.Errors.{GoError, Result, ok, fail, new_error, fail_if, ◌>>=◌, ◌>>◌}
use mcp_auth_go.Dpop.Replay.{ReplayCache, replay_key}

-- `unset` stands for every other number.
pub data FailMode : Type 0 where
  unset fail_open fail_closed : FailMode

-- `String`.
unfoldable pub fail_mode_text : FailMode → Str
fail_mode_text fail_open = str "fail_open"
fail_mode_text fail_closed = str "fail_closed"
fail_mode_text unset = str "fail_unset"

-- `mode == FailClosed`.
unfoldable pub is_closed : FailMode → Bool
is_closed fail_closed = true
is_closed fail_open = false
is_closed unset = false

is_unset : FailMode → Bool
is_unset unset = true
is_unset fail_open = false
is_unset fail_closed = false

pub record RedisConfig : Type 0 where
  -- `Client` and `Logger` are not nil.
  pub client : Bool
  pub fail_mode : FailMode
  pub key_prefix : Str
  pub logger : Bool
  pub op_timeout : Duration

pub record RedisReplayCache : Type 0 where
  pub fail_mode : FailMode
  pub key_prefix : Str
  pub logger : Bool
  pub op_timeout : Duration

abbrev pub millisecond : Duration
millisecond = pos 1000000

unfoldable pub new_redis_cache : RedisConfig → Result RedisReplayCache
unfolding is_unset
new_redis_cache cfg = do
  fail_if (not cfg.client) (new_error "redisreplay: Config.Client is required")
  fail_if (is_unset cfg.fail_mode)
      (new_error "redisreplay: Config.FailMode is required (FailOpen or FailClosed)")
  ok (record {
    fail_mode = cfg.fail_mode;
    key_prefix = if is_empty cfg.key_prefix then str "dpop:replay:" else cfg.key_prefix;
    logger = cfg.logger;
    op_timeout = if positive cfg.op_timeout then cfg.op_timeout else pos 100000000;
  })

pub record Redis : Type 1 where
  pub State : Type 0
  pub set_nx : State → Time → Duration → Str → Str → Duration → State × Result Bool

-- A line of the log.
pub record Warning : Type 0 where
  pub err : GoError
  pub fail_mode : Str

unfoldable pub redis_key : (Str → Str) → RedisReplayCache → Str → Str → Str
redis_key digest c jti htu = c.key_prefix ++ digest (replay_key jti htu)

-- The answer to what `SetNX` returned.
unfoldable pub resolve : RedisReplayCache → List Warning → Result Bool → List Warning × Bool
resolve c log (fail err) = (
  if c.logger then record { err = err; fail_mode = fail_mode_text c.fail_mode } ∷ log else log,
  is_closed c.fail_mode,
)
resolve c log (ok set) = (log, not set)

module _ (rd : Redis) (digest : Str → Str) where
  unfoldable pub redis_seen_before :
      RedisReplayCache
      → rd.State × List Warning
      → Time
      → Str
      → Str
      → Time
      → (rd.State × List Warning) × Bool
  redis_seen_before c (st, log) now jti htu exp =
      let ttl = sub exp now in
      if ltb_ℤ ttl millisecond
      then ((st, log), false)
      else let (st', res) =
          rd.set_nx st now c.op_timeout (redis_key digest c jti htu) (str "1") ttl in
        let (log', answer) = resolve c log res in ((st', log'), answer)

  abbrev pub redis_replay_cache : RedisReplayCache → ReplayCache
  redis_replay_cache c = record {
    State = rd.State × List Warning;
    seen_before = redis_seen_before c;
  }
