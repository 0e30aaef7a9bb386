-- ===== src/Core/Session/Liveness.antt =====
-- session.go: which sessions are live, and what each method makes of them.
use mcp_auth_go.Prelude.{
  ℕ, Str, eq_iff, eq_refl, Bool, true, false, ◌&&◌, not, Option, none, some, List, [], ◌∷◌, GoMap,
  lookup, count_if, Time, if◌then◌else◌, ◌≡◌, ◌≢◌, refl, ap, fun_ext, ◌∙◌, ◌↔◌, arith, inl, inr,
  Option-cases, lookup-insert, lookup-delete, lookup-delete_if, count_if-delete_if,
}
use mcp_auth_go.Core.Errors.{GoError, to_error, Result, ok, fail, err_session_limit_exceeded}
use mcp_auth_go.Core.Session.{
  SessionConfig, MemorySession, MemoryStore, err_invalid_session, is_of, reap_for_user,
  count_for_user, at_cap, open_session, touch, close, count, Call, opens, touches, closes, counts,
  step, run,
}
use mcp_auth_go.Core.Session.Cap.{
  Inv, has_expired, reap_for_user_lem, open_session_cases, cfg-reap_for_user, cfg-step, step-Inv,
}

-- The session of an id, unless its timeout has fired.
abbrev pub live : MemoryStore → Time → Str → Option MemorySession
live s now id = elim (lookup id s.sessions) [
  | none ↦ none
  | some sess ↦ if has_expired s.cfg now sess then none else some sess
]

-- How many live sessions a user has.
abbrev pub live_count : MemoryStore → Time → Str → ℕ
live_count s now user =
    count_if (λ sess. is_of user sess && not (has_expired s.cfg now sess)) s.sessions

-- `Touch` succeeds exactly on a live session, which is then last seen at `now`; it changes no
-- other session; and an id that it refuses is gone.
pub touch_lem :
    (s : MemoryStore) (id : Str) (now : Time)
    → (((touch s id now).1 ≡ none) ↔ (live s now id ≢ none))
      × ((sess : MemorySession)
          → live s now id ≡ some sess
          → lookup id (touch s id now).0.sessions ≡ some (record sess { last_seen = now }))
      × ((e : GoError)
          → (touch s id now).1 ≡ some e
          → (e ≡ err_invalid_session) × (lookup id (touch s id now).0.sessions ≡ none))
      × ((other : Str)
          → id ≢ other
          → lookup other (touch s id now).0.sessions ≡ lookup other s.sessions)
unfolding touch
touch_lem s id now = (
  (λ h. ground arith, λ h. ground arith),
  λ sess h.
      ground (arith, eq_refl id, lookup-insert id id (record sess { last_seen = now }) s.sessions),
  λ e h. (ground arith, ground (arith, eq_refl id, lookup-delete id id s.sessions)),
  λ other ne. elim (Option-cases (lookup id s.sessions)) [
    | inl missing ↦ ground arith
    | inr (sess, found) ↦ ground (
      arith,
      eq_iff id other,
      lookup-delete id other s.sessions,
      lookup-insert id other (record sess { last_seen = now }) s.sessions,
    )
  ],
)

lookup-reap_for_user :
    (s : MemoryStore) (user : Str) (now : Time) (id : Str)
    → Inv s
    → lookup id (reap_for_user s user now).sessions ≡ elim (lookup id s.sessions) [
      | none ↦ none
      | some sess ↦ if is_of user sess && has_expired s.cfg now sess then none else some sess
    ]
lookup-reap_for_user s user now id v =
    rw reap_for_user_lem (lookup-delete_if _ id s.sessions v.distinct)

count_if-cong :
    (p q : MemorySession → Bool) (m : GoMap MemorySession)
    → ((sess : MemorySession) → p sess ≡ q sess)
    → count_if p m ≡ count_if q m
count_if-cong p q m h = ap (λ r. count_if r m) (fun_ext h)

count-reap_for_user :
    (s : MemoryStore) (user : Str) (now : Time)
    → count_for_user (reap_for_user s user now) user ≡ live_count s now user
unfolding count_for_user
count-reap_for_user s user now = rw reap_for_user_lem (
    count_if-delete_if (is_of user) _ s.sessions
    ∙ count_if-cong _ _ s.sessions (λ sess. ground arith))

-- `Count` returns the number of the user's live sessions, and no session that is live at that
-- instant is lost.
pub count_lem :
    (s : MemoryStore) (user : Str) (now : Time)
    → Inv s
    → ((count s user now).1 ≡ live_count s now user)
      × ((id : Str) → live (count s user now).0 now id ≡ live s now id)
unfolding count
count_lem s user now v = (
  count-reap_for_user s user now,
  λ id. ground (arith, lookup-reap_for_user s user now id v, cfg-reap_for_user s user now),
)

-- What `Open` promises of its new store and its result.
pub record Opened (s : MemoryStore) (user : Str) (now : Time) (id : Str)
    (r : MemoryStore × Result Str) : Type 0 where
  pub refused :
      user ≢ []
      → at_cap s.cfg.max_concurrent_per_user (live_count s now user) ≡ true
      → r.1 ≡ fail (to_error err_session_limit_exceeded)
  pub admitted :
      (r.1 ≡ ok id)
      ↔ ((user ≢ []) × (at_cap s.cfg.max_concurrent_per_user (live_count s now user) ≡ false))
  pub opened :
      r.1 ≡ ok id → lookup id r.0.sessions ≡ some (record { user_id = user; last_seen = now })
  pub kept : (other : Str) → id ≢ other → live r.0 now other ≡ live s now other

-- `Open` admits exactly a non-empty user whose live sessions are below the cap, or who has no cap,
-- and refuses a non-empty user at the cap with `session_limit_exceeded`. On success the drawn id
-- is a session of the user's, seen at `now`. No live session of another id is lost or changed.
pub open_session-Opened :
    (s : MemoryStore) (user : Str) (now : Time) (id : Str)
    → Inv s
    → Opened s user now id (open_session s user now id)
open_session-Opened s user now id v =
    open_session_cases (Opened s user now id) s user now id
      (λ e. record {
        refused = λ n full. absurd (n e);
        admitted = ((λ h. cc), λ h. absurd (h.0 e));
        opened = λ h. cc;
        kept = λ other ne. refl;
      })
      (λ n full. record {
        refused = λ n' f. refl;
        admitted = ((λ h. cc), λ h. ground (arith, count-reap_for_user s user now));
        opened = λ h. cc;
        kept = λ other ne.
            ground (arith, lookup-reap_for_user s user now other v, cfg-reap_for_user s user now);
      })
      (λ n room. record {
        refused = λ n' f. ground (arith, count-reap_for_user s user now);
        admitted = ((λ h. (n, ground (arith, count-reap_for_user s user now))), λ h. refl);
        opened = λ h. ground (
          arith,
          eq_refl id,
          lookup-insert id id (record { user_id = user; last_seen = now })
              (reap_for_user s user now).sessions,
        );
        kept = λ other ne. ground (
          arith,
          eq_iff id other,
          lookup-insert id other (record { user_id = user; last_seen = now })
              (reap_for_user s user now).sessions,
          lookup-reap_for_user s user now other v,
          cfg-reap_for_user s user now,
        );
      })

-- The call leaves the session of this id alone: it neither closes, touches nor draws it.
abbrev pub Spares : Str → Call → Type 0
Spares id (opens user drawn) = drawn ≢ id
Spares id (touches i) = i ≢ id
Spares id (closes i) = i ≢ id
Spares id (counts user) = Unit {0}

-- Every call of the sequence spares the id and is made before its timeout fires.
abbrev pub Spare : SessionConfig → Str → MemorySession → List (Time × Call) → Type 0
Spare cfg id sess [] = Unit {0}
Spare cfg id sess ((now, c) ∷ calls) =
    (Spares id c × (has_expired cfg now sess ≡ false)) × Spare cfg id sess calls

step-keeps :
    (s : MemoryStore) (now : Time) (c : Call) (id : Str) (sess : MemorySession)
    → Inv s
    → lookup id s.sessions ≡ some sess
    → Spares id c
    → has_expired s.cfg now sess ≡ false
    → lookup id (step s (now, c)).sessions ≡ some sess
unfolding step close count
step-keeps s now (opens user drawn) id sess v found spared young =
    ground
      (arith, (open_session-Opened s user now drawn v).kept id, cfg-step s (now, opens user drawn))
step-keeps s now (touches i) id sess v found spared young = (touch_lem s i now).3 id spared ∙ found
step-keeps s now (closes i) id sess v found spared young =
    ground (arith, eq_iff i id, lookup-delete i id s.sessions)
step-keeps s now (counts user) id sess v found spared young =
    ground (arith, lookup-reap_for_user s user now id v)

-- A session is kept, with its user and its last-seen time, by every sequence of calls, of its own
-- user and of others, that spares its id and is made before its timeout fires.
pub run-keeps :
    (calls : List (Time × Call)) (s : MemoryStore) (id : Str) (sess : MemorySession)
    → Inv s
    → lookup id s.sessions ≡ some sess
    → Spare s.cfg id sess calls
    → lookup id (run s calls).sessions ≡ some sess
unfolding run
run-keeps [] s id sess v found spare = found
run-keeps ((now, c) ∷ calls) s id sess v found spare =
    run-keeps calls (step s (now, c)) id sess (step-Inv s (now, c) v)
      (step-keeps s now c id sess v found spare.0.0 spare.0.1) (rw (cfg-step s (now, c)) spare.1)
