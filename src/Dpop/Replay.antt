-- ===== src/Dpop/Replay.antt =====
-- dpop/replay.go: the cache of proof identifiers. `SeenBefore` runs under the cache's mutex, and the
-- instant that its clock reads is an argument.
pub mod SingleUse
pub mod Keys
pub mod Register
mod Tests
use mcp_auth_go.Prelude.{
  ℕ, Str, Bool, true, false, not, none, some, [], ◌∷◌, ◌++◌, GoMap, lookup, insert, delete_if,
  length, Time, before, ltb, if◌then◌else◌,
}

-- The interface `ReplayCache`: a state, and `SeenBefore` at an instant, with the jti, the htu and
-- the expiry.
pub record ReplayCache : Type 1 where
  pub State : Type 0
  pub seen_before : State → Time → Str → Str → Time → State × Bool

abbrev pub replay_sweep_threshold : ℕ
replay_sweep_threshold = 1024

pub record MemoryReplayCache : Type 0 where
  pub seen : GoMap Time

unfoldable pub new_memory_replay_cache : MemoryReplayCache
new_memory_replay_cache = record { seen = [] }

-- `jti + "|" + htu`.
abbrev pub replay_key : Str → Str → Str
replay_key jti htu = jti ++ b'|' ∷ htu

-- The inline sweep of what has expired, once the map is large.
unfoldable pub sweep : Time → GoMap Time → GoMap Time
sweep now seen =
    if ltb replay_sweep_threshold (length seen)
    then delete_if (λ exp. not (before now exp)) seen
    else seen

-- The first sight of a key.
unfoldable pub record_key : MemoryReplayCache → Time → Str → Time → MemoryReplayCache × Bool
record_key c now key exp = (record c { seen = sweep now (insert key exp c.seen) }, false)

unfoldable pub seen_before : MemoryReplayCache → Time → Str → Str → Time → MemoryReplayCache × Bool
seen_before c now jti htu exp =
    let key = replay_key jti htu in
    elim (lookup key c.seen) [
      | none ↦ record_key c now key exp
      | some prev ↦ if before now prev then (c, true) else record_key c now key exp
    ]

abbrev pub memory_replay_cache : ReplayCache
memory_replay_cache = record { State = MemoryReplayCache; seen_before = seen_before }

unfoldable pub nop_seen_before : Unit {0} → Time → Str → Str → Time → Unit {0} × Bool
nop_seen_before c now jti htu exp = (c, false)

abbrev pub nop_replay_cache : ReplayCache
nop_replay_cache = record { State = Unit {0}; seen_before = nop_seen_before }
