-- ===== src/Dpop/Replay/SingleUse.antt =====
-- dpop/replay.go: a recorded proof is a replay until it expires, and nothing else is.
use mcp_auth_go.Prelude.{
  ◌≤◌, Str, eq_iff, eq_refl, Bool, true, false, not, none, some, List, [], ◌∷◌, GoMap, lookup,
  insert, delete_if, length, Time, before, ltb, ◌≡◌, ◌⊎◌, inl, inr, arith, IsMap, All, Any,
  Bool-cases, Option-cases, lookup-insert, lookup-delete_if, insert-IsMap, delete_if-IsMap,
}
use mcp_auth_go.Dpop.Replay.{
  MemoryReplayCache, new_memory_replay_cache, replay_key, sweep, record_key, seen_before,
  replay_sweep_threshold,
}

-- A call of `SeenBefore`.
pub record Sight : Type 0 where
  pub now : Time
  pub jti : Str
  pub htu : Str
  pub exp : Time

abbrev pub key_of : Sight → Str
key_of s = replay_key s.jti s.htu

abbrev pub see : MemoryReplayCache → Sight → MemoryReplayCache × Bool
see c s = seen_before c s.now s.jti s.htu s.exp

-- A run of calls.
unfoldable pub sights : MemoryReplayCache → List Sight → MemoryReplayCache
sights c [] = c
sights c (s ∷ rest) = sights (see c s).0 rest

-- The key is recorded with an expiry after `now`.
abbrev pub current : GoMap Time → Time → Str → Bool
current seen now key = elim (lookup key seen) [ none ↦ false | some exp ↦ before now exp ]

sweep-IsMap : (now : Time) (seen : GoMap Time) → IsMap seen → IsMap (sweep now seen)
unfolding sweep
sweep-IsMap now seen d = elim (Bool-cases (ltb replay_sweep_threshold (length seen))) [
  | inl large ↦ rw large (delete_if-IsMap _ seen d)
  | inr small ↦ rw small d
]

-- A sweep loses no entry that has not expired.
lookup-sweep :
    (now : Time) (key : Str) (exp : Time) (seen : GoMap Time)
    → IsMap seen
    → lookup key seen ≡ some exp
    → before now exp ≡ true
    → lookup key (sweep now seen) ≡ some exp
unfolding sweep
lookup-sweep now key exp seen d found young =
    ground (arith, lookup-delete_if (λ e. not (before now e)) key seen d)

pub seen_before-IsMap : (c : MemoryReplayCache) (s : Sight) → IsMap c.seen → IsMap (see c s).0.seen
unfolding seen_before record_key
seen_before-IsMap c s d = ground (
  arith,
  insert-IsMap (key_of s) s.exp c.seen d,
  sweep-IsMap s.now (insert (key_of s) s.exp c.seen),
)

-- A call keeps every entry that has not expired at its instant.
see-keeps :
    (c : MemoryReplayCache) (s : Sight) (key : Str) (exp : Time)
    → IsMap c.seen
    → lookup key c.seen ≡ some exp
    → before s.now exp ≡ true
    → lookup key (see c s).0.seen ≡ some exp
unfolding seen_before record_key
see-keeps c s key exp d found young = ground (
  arith,
  eq_iff (key_of s) key,
  lookup-insert (key_of s) key s.exp c.seen,
  insert-IsMap (key_of s) s.exp c.seen d,
  lookup-sweep s.now key exp (insert (key_of s) s.exp c.seen),
)

sights-IsMap :
    (c : MemoryReplayCache) (calls : List Sight) → IsMap c.seen → IsMap (sights c calls).seen
unfolding sights
sights-IsMap c [] d = d
sights-IsMap c (s ∷ calls) d = sights-IsMap (see c s).0 calls (seen_before-IsMap c s d)

sights-keeps :
    (c : MemoryReplayCache) (calls : List Sight) (key : Str) (exp : Time)
    → IsMap c.seen
    → lookup key c.seen ≡ some exp
    → All (λ s. before s.now exp ≡ true) calls
    → lookup key (sights c calls).seen ≡ some exp
unfolding sights
sights-keeps c [] key exp d found young = found
sights-keeps c (s ∷ calls) key exp d found young =
    sights-keeps (see c s).0 calls key exp (seen_before-IsMap c s d)
      (see-keeps c s key exp d found young.0) young.1

-- The answer is whether the key is recorded with an expiry after the instant of the call.
pub see-current :
    (c : MemoryReplayCache) (s : Sight) → (see c s).1 ≡ current c.seen s.now (key_of s)
unfolding seen_before record_key
see-current c s = ground arith

-- After a call at an instant before its expiry the key is recorded, whatever the answer was.
see-recorded :
    (c : MemoryReplayCache) (s : Sight)
    → IsMap c.seen
    → before s.now s.exp ≡ true
    → (see c s).1 ≡ false
    → lookup (key_of s) (see c s).0.seen ≡ some s.exp
unfolding seen_before record_key
see-recorded c s d young first = ground (
  arith,
  eq_refl (key_of s),
  lookup-insert (key_of s) (key_of s) s.exp c.seen,
  insert-IsMap (key_of s) s.exp c.seen d,
  lookup-sweep s.now (key_of s) s.exp (insert (key_of s) s.exp c.seen),
)

-- An entry after a call was there before it, or is what the call records.
lookup-see :
    (c : MemoryReplayCache) (s : Sight) (key : Str) (exp : Time)
    → IsMap c.seen
    → lookup key (see c s).0.seen ≡ some exp
    → (lookup key c.seen ≡ some exp) ⊎ ((key_of s ≡ key) × (s.exp ≡ exp))
unfolding seen_before record_key sweep
lookup-see c s key exp d found = ground (
  arith,
  eq_iff (key_of s) key,
  lookup-insert (key_of s) key s.exp c.seen,
  insert-IsMap (key_of s) s.exp c.seen d,
  lookup-delete_if (λ e. not (before s.now e)) key (insert (key_of s) s.exp c.seen),
)

abbrev pub Recorded : Str → Time → Sight → Type 0
Recorded key exp s = (key_of s ≡ key) × (s.exp ≡ exp)

lookup-sights :
    (c : MemoryReplayCache) (calls : List Sight) (key : Str) (exp : Time)
    → IsMap c.seen
    → lookup key (sights c calls).seen ≡ some exp
    → (lookup key c.seen ≡ some exp) ⊎ Any (Recorded key exp) calls
unfolding sights
lookup-sights c [] key exp d found = inl found
lookup-sights c (s ∷ calls) key exp d found = ground (
  arith,
  lookup-sights (see c s).0 calls key exp (seen_before-IsMap c s d) found,
  lookup-see c s key exp d,
)

-- The calls of a service on a new cache.
abbrev pub served : List Sight → MemoryReplayCache
served history = sights new_memory_replay_cache history

served-IsMap : (history : List Sight) → IsMap (served history).seen
unfolding new_memory_replay_cache
served-IsMap history = sights-IsMap new_memory_replay_cache history tt

-- A proof that was new is a replay from then on until it expires: after any history, any number
-- of further calls at instants before its expiry, with whatever keys, and however often the map
-- is swept, a call with its key before that expiry answers true.
pub seen_before_twice :
    (history : List Sight) (first : Sight) (between : List Sight) (again : Sight)
    → before first.now first.exp ≡ true
    → (see (served history) first).1 ≡ false
    → All (λ s. before s.now first.exp ≡ true) between
    → key_of again ≡ key_of first
    → before again.now first.exp ≡ true
    → (see (sights (see (served history) first).0 between) again).1 ≡ true
seen_before_twice history first between again young new later same in_time =
    let c = (see (served history) first).0 in
    let kept =
      sights-keeps c between (key_of first) first.exp
        (seen_before-IsMap (served history) first (served-IsMap history))
        (see-recorded (served history) first (served-IsMap history) young new) later in
    ground (arith, see-current (sights c between) again, kept)

-- A call that answers true was preceded by a call with its key, whose expiry is still to come.
pub seen_before_sound :
    (history : List Sight) (s : Sight)
    → (see (served history) s).1 ≡ true
    → (exp : Time) × (before s.now exp ≡ true) × Any (Recorded (key_of s) exp) history
unfolding new_memory_replay_cache lookup
seen_before_sound history s h = elim (Option-cases (lookup (key_of s) (served history).seen)) [
  | inl missing ↦ absurd (ground (arith, see-current (served history) s))
  | inr (exp, found) ↦ (
    exp,
    ground (arith, see-current (served history) s),
    ground (arith, lookup-sights new_memory_replay_cache history (key_of s) exp tt found),
  )
]

All-delete_if : (p : Time → Bool) (m : GoMap Time) → All (λ e. p e.1 ≡ false) (delete_if p m)
unfolding delete_if
All-delete_if p [] = tt
All-delete_if p ((j, w) ∷ m) = ground (arith, All-delete_if p m)

abbrev pub Unexpired : Time → GoMap Time → Type 0
Unexpired now seen = All (λ e. not (before now e.1) ≡ false) seen

sweep-bounded :
    (now : Time) (seen : GoMap Time)
    → (length (sweep now seen) ≤ replay_sweep_threshold) ⊎ Unexpired now (sweep now seen)
unfolding sweep
sweep-bounded now seen = elim (Bool-cases (ltb replay_sweep_threshold (length seen))) [
  | inl large ↦ rw large (inr (All-delete_if (λ e. not (before now e)) seen))
  | inr small ↦ rw small (inl (ground arith))
]

pub seen-see :
    (c : MemoryReplayCache) (s : Sight)
    → (see c s).1 ≡ false
    → (see c s).0.seen ≡ sweep s.now (insert (key_of s) s.exp c.seen)
unfolding seen_before record_key
seen-see c s new = ground arith

-- After a call that records, the map holds at most 1024 entries, or no entry that has expired.
pub seen_before-bounded :
    (c : MemoryReplayCache) (s : Sight)
    → (see c s).1 ≡ false
    → (length (see c s).0.seen ≤ replay_sweep_threshold) ⊎ Unexpired s.now (see c s).0.seen
seen_before-bounded c s new =
    rw (seen-see c s new) (sweep-bounded s.now (insert (key_of s) s.exp c.seen))
