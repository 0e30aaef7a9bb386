-- ===== src/Core/Session/Cap.antt =====
-- session.go: the cap on the sessions of one user, over every sequence of calls.
use mcp_auth_go.Prelude.{
  ℕ, ◌≤◌, ◌<◌, Str, eq_iff, Bool, true, false, ◌&&◌, List, [], ◌∷◌, lookup, insert, delete_if,
  count_if, Time, positive, pos, ◌≡◌, refl, ◌∙◌, arith, IsMap, count_if-insert-le,
  count_if-delete-le, count_if-delete_if-le, insert-IsMap, delete-IsMap, delete_if-IsMap,
  count_if-insert_same, delete_if_none, Bool-cases, Option-cases, inl, inr, ◌≢◌,
}
use mcp_auth_go.Core.Errors.{new_error, to_error, Result, ok, fail, err_session_limit_exceeded}
use mcp_auth_go.Core.Session.{
  SessionConfig, MemorySession, MemoryStore, new_memory_session_store, is_of, is_stale,
  reap_for_user, count_for_user, at_cap, open_session, touch, close, count, Call, opens, touches,
  closes, counts, step, run,
}

-- The ids are distinct, and no user holds more sessions than a positive cap allows.
pub record Inv (s : MemoryStore) : Type 0 where
  pub distinct : IsMap s.sessions
  pub capped :
      (user : Str) (max : ℕ)
      → s.cfg.max_concurrent_per_user ≡ pos max
      → 0 < max
      → count_if (is_of user) s.sessions ≤ max

-- The session's timeout has fired.
abbrev pub has_expired : SessionConfig → Time → MemorySession → Bool
has_expired cfg now sess = positive cfg.timeout && is_stale cfg.timeout now sess

-- Sweeping is deleting the user's sessions whose timeout has fired, also where none can.
pub reap_for_user_lem :
    (s : MemoryStore) (user : Str) (now : Time)
    → reap_for_user s user now ≡ record s {
      sessions = delete_if (λ sess. is_of user sess && has_expired s.cfg now sess) s.sessions;
    }
unfolding reap_for_user
reap_for_user_lem s user now = elim (Bool-cases (positive s.cfg.timeout)) [
  | inl on ↦ rw on refl
  | inr off ↦ rw off (
      rw
        (delete_if_none (λ sess. is_of user sess && (false && is_stale s.cfg.timeout now sess))
          s.sessions (λ sess. ground arith))
        refl)
]

reap_for_user-Inv :
    (s : MemoryStore) (user : Str) (now : Time) → Inv s → Inv (reap_for_user s user now)
reap_for_user-Inv s user now v = rw reap_for_user_lem (record {
  distinct = delete_if-IsMap _ s.sessions v.distinct;
  capped = λ other max e h.
      omega (arith, v.capped other max e h, count_if-delete_if-le (is_of other) _ s.sessions);
})

abbrev session : Str → Time → MemorySession
session user now = record { user_id = user; last_seen = now }

-- One more session of `user` in a store where the cap leaves room for it.
insert-capped :
    (s : MemoryStore) (user other id : Str) (now : Time) (max : ℕ)
    → Inv s
    → at_cap s.cfg.max_concurrent_per_user (count_for_user s user) ≡ false
    → s.cfg.max_concurrent_per_user ≡ pos max
    → 0 < max
    → count_if (is_of other) (insert id (session user now) s.sessions) ≤ max
unfolding count_for_user
insert-capped s user other id now max v room e h = ground (
  arith,
  eq_iff user other,
  v.capped other max e h,
  count_if-insert-le (is_of other) id (session user now) s.sessions,
)

admit-Inv :
    (s : MemoryStore) (user id : Str) (now : Time)
    → Inv s
    → at_cap s.cfg.max_concurrent_per_user (count_for_user s user) ≡ false
    → Inv (record s { sessions = insert id (session user now) s.sessions })
admit-Inv s user id now v room = record {
  distinct = insert-IsMap id (session user now) s.sessions v.distinct;
  capped = λ other max e h. insert-capped s user other id now max v room e h;
}

-- What `Open` does, on each of its three branches.
pub open_session_cases {ℓ} :
    (P : MemoryStore × Result Str → Type ℓ) (s : MemoryStore) (user : Str) (now : Time) (id : Str)
    → (user ≡ [] → P (s, fail (new_error "auth: empty userID")))
    → (user ≢ []
        → at_cap s.cfg.max_concurrent_per_user (count_for_user (reap_for_user s user now) user)
          ≡ true
        → P (reap_for_user s user now, fail (to_error err_session_limit_exceeded)))
    → (user ≢ []
        → at_cap s.cfg.max_concurrent_per_user (count_for_user (reap_for_user s user now) user)
          ≡ false
        → P (
          record (reap_for_user s user now) {
            sessions = insert id (session user now) (reap_for_user s user now).sessions;
          },
          ok id,
        ))
    → P (open_session s user now id)
unfolding open_session
open_session_cases P s [] now id empty full room = empty refl
open_session_cases P s (c ∷ user) now id empty full room =
    elim (Bool-cases (
      at_cap s.cfg.max_concurrent_per_user
        (count_for_user (reap_for_user s (c ∷ user) now) (c ∷ user)))) [
          | inl at ↦ rw at (full (λ e. cc) at)
          | inr below ↦ rw below (room (λ e. cc) below)
        ]

pub cfg-reap_for_user :
    (s : MemoryStore) (user : Str) (now : Time) → (reap_for_user s user now).cfg ≡ s.cfg
cfg-reap_for_user s user now = rw reap_for_user_lem refl

open_session-Inv :
    (s : MemoryStore) (user : Str) (now : Time) (id : Str)
    → Inv s
    → Inv (open_session s user now id).0
open_session-Inv s user now id v =
    open_session_cases (λ r. Inv r.0) s user now id (λ e. v)
      (λ n full. reap_for_user-Inv s user now v)
      (λ n room.
        admit-Inv (reap_for_user s user now) user id now (reap_for_user-Inv s user now v)
          (simp cfg-reap_for_user room))

close-Inv : (s : MemoryStore) (id : Str) → Inv s → Inv (close s id)
unfolding close
close-Inv s id v = record {
  distinct = delete-IsMap id s.sessions v.distinct;
  capped = λ user max e h.
      omega (arith, v.capped user max e h, count_if-delete-le (is_of user) id s.sessions);
}

touch-Inv : (s : MemoryStore) (id : Str) (now : Time) → Inv s → Inv (touch s id now).0
unfolding touch close
touch-Inv s id now v = elim (Option-cases (lookup id s.sessions)) [
  | inl missing ↦ rw (missing, touch) v
  | inr (sess, found) ↦
      rw (found, touch)
        (elim (Bool-cases (has_expired s.cfg now sess)) [
          | inl old ↦ rw old (close-Inv s id v)
          | inr young ↦ rw young (record {
            distinct = insert-IsMap id (record sess { last_seen = now }) s.sessions v.distinct;
            capped = λ user max e h.
                rw
                  (count_if-insert_same (is_of user) id (record sess { last_seen = now }) sess
                    s.sessions found refl)
                  (v.capped user max e h);
          })
        ])
]

pub step-Inv : (s : MemoryStore) (c : Time × Call) → Inv s → Inv (step s c)
unfolding step close count
step-Inv s (now, opens user id) v = open_session-Inv s user now id v
step-Inv s (now, touches id) v = touch-Inv s id now v
step-Inv s (now, closes id) v = close-Inv s id v
step-Inv s (now, counts user) v = reap_for_user-Inv s user now v

cfg-open_session :
    (s : MemoryStore) (user : Str) (now : Time) (id : Str)
    → (open_session s user now id).0.cfg ≡ s.cfg
cfg-open_session s user now id =
    open_session_cases (λ r. r.0.cfg ≡ s.cfg) s user now id (λ e. refl)
      (λ n full. cfg-reap_for_user s user now) (λ n room. cfg-reap_for_user s user now)

pub cfg-step : (s : MemoryStore) (c : Time × Call) → (step s c).cfg ≡ s.cfg
unfolding step touch close count
cfg-step s (now, opens user id) = cfg-open_session s user now id
cfg-step s (now, touches id) = ground arith
cfg-step s (now, closes id) = refl
cfg-step s (now, counts user) = cfg-reap_for_user s user now

pub cfg-run : (s : MemoryStore) (calls : List (Time × Call)) → (run s calls).cfg ≡ s.cfg
unfolding run
cfg-run s [] = refl
cfg-run s (c ∷ calls) = cfg-run (step s c) calls ∙ cfg-step s c

pub run-Inv : (s : MemoryStore) (calls : List (Time × Call)) → Inv s → Inv (run s calls)
unfolding run
run-Inv s [] v = v
run-Inv s (c ∷ calls) v = run-Inv (step s c) calls (step-Inv s c v)

pub new_memory_session_store-Inv : (cfg : SessionConfig) → Inv (new_memory_session_store cfg)
unfolding new_memory_session_store count_if
new_memory_session_store-Inv cfg = record { distinct = tt; capped = λ user max e h. omega arith }

-- After any sequence of calls on a new store, whatever ids `newID` draws and however the clock
-- runs, the ids are distinct and no user holds more sessions than a positive cap.
pub run-new_memory_session_store :
    (cfg : SessionConfig) (calls : List (Time × Call)) (user : Str) (max : ℕ)
    → cfg.max_concurrent_per_user ≡ pos max
    → 0 < max
    → IsMap (run (new_memory_session_store cfg) calls).sessions
      × (count_for_user (run (new_memory_session_store cfg) calls) user ≤ max)
unfolding count_for_user new_memory_session_store
run-new_memory_session_store cfg calls user max e h =
    let v = run-Inv _ calls (new_memory_session_store-Inv cfg) in
    (v.distinct, v.capped user max (rw (cfg-run _ calls) (cfg_new e)) h)
  where
    cfg_new :
        cfg.max_concurrent_per_user ≡ pos max
        → (new_memory_session_store cfg).cfg.max_concurrent_per_user ≡ pos max
    cfg_new e = e
