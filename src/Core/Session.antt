-- ===== src/Core/Session.antt =====
-- session.go: the in-memory session store. Each method runs under the store's mutex, so a run of
-- the store is a sequence of calls. The id that `newID` draws is an argument of `open`.
pub mod Cap
pub mod Liveness
mod Tests
use mcp_auth_go.Prelude.{
  ℕ, Str, ◌==◌, is_empty, Bool, false, ◌&&◌, Option, none, some, List, [], ◌∷◌, GoMap, lookup,
  insert, delete, delete_if, count_if, Time, Duration, sub, ltb_ℤ, positive, ltb, leb,
  if◌then◌else◌, ℤ, pos,
}
use mcp_auth_go.Core.Errors.{
  GoError, new_error, to_error, Result, ok, fail, err_session_limit_exceeded,
}

pub record SessionConfig : Type 0 where
  pub timeout : Duration
  pub max_concurrent_per_user : ℤ

-- `memorySession`.
pub record MemorySession : Type 0 where
  pub user_id : Str
  pub last_seen : Time

pub record MemoryStore : Type 0 where
  pub cfg : SessionConfig
  pub sessions : GoMap MemorySession

abbrev pub err_invalid_session : GoError
err_invalid_session = new_error "auth: invalid or expired session"

unfoldable pub new_memory_session_store : SessionConfig → MemoryStore
new_memory_session_store cfg = record { cfg = cfg; sessions = [] }

-- `now.Sub(sess.lastSeen) > timeout`.
abbrev pub is_stale : Duration → Time → MemorySession → Bool
is_stale timeout now sess = ltb_ℤ timeout (sub now sess.last_seen)

abbrev pub is_of : Str → MemorySession → Bool
is_of user sess = sess.user_id == user

-- `reapForUserLocked`.
unfoldable pub reap_for_user : MemoryStore → Str → Time → MemoryStore
reap_for_user s user now =
    if positive s.cfg.timeout
    then record s {
      sessions = delete_if (λ sess. is_of user sess && is_stale s.cfg.timeout now sess) s.sessions;
    }
    else s

-- `countForUserLocked`.
unfoldable pub count_for_user : MemoryStore → Str → ℕ
count_for_user s user = count_if (is_of user) s.sessions

-- `max > 0 && n >= max`.
abbrev pub at_cap : ℤ → ℕ → Bool
at_cap (pos max) n = ltb 0 max && leb max n
at_cap _ n = false

unfoldable pub open_session : MemoryStore → Str → Time → Str → MemoryStore × Result Str
open_session s user now id =
    if is_empty user
    then (s, fail (new_error "auth: empty userID"))
    else let s' = reap_for_user s user now in
      if at_cap s.cfg.max_concurrent_per_user (count_for_user s' user)
      then (s', fail (to_error err_session_limit_exceeded))
      else (
        record s' { sessions = insert id (record { user_id = user; last_seen = now }) s'.sessions },
        ok id,
      )

unfoldable pub touch : MemoryStore → Str → Time → MemoryStore × Option GoError
touch s id now = elim (lookup id s.sessions) [
  | none ↦ (s, some err_invalid_session)
  | some sess ↦
      if positive s.cfg.timeout && is_stale s.cfg.timeout now sess
      then (record s { sessions = delete id s.sessions }, some err_invalid_session)
      else (record s { sessions = insert id (record sess { last_seen = now }) s.sessions }, none)
]

unfoldable pub close : MemoryStore → Str → MemoryStore
close s id = record s { sessions = delete id s.sessions }

unfoldable pub count : MemoryStore → Str → Time → MemoryStore × ℕ
count s user now = let s' = reap_for_user s user now in (s', count_for_user s' user)

pub data Call : Type 0 where
  opens : Str → Str → Call
  touches : Str → Call
  closes : Str → Call
  counts : Str → Call

-- A call at an instant.
unfoldable pub step : MemoryStore → Time × Call → MemoryStore
step s (now, opens user id) = (open_session s user now id).0
step s (now, touches id) = (touch s id now).0
step s (now, closes id) = close s id
step s (now, counts user) = (count s user now).0

unfoldable pub run : MemoryStore → List (Time × Call) → MemoryStore
run s [] = s
run s (c ∷ calls) = run (step s c) calls
