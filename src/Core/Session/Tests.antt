-- ===== src/Core/Session/Tests.antt =====
-- session.go: runs of the store, and the theorems at concrete inputs.
use mcp_auth_go.Prelude.{
  Str, str, ◌==◌, ne_of_test, none, some, List, [], ◌∷◌, lookup, insert, delete, delete_if,
  count_if, sub, Time, pos, ◌≡◌, ◌≤◌, refl, IsMap, arith, ◌-ℤ◌,
}
use mcp_auth_go.Core.Errors.{ok, fail, to_error, err_session_limit_exceeded}
use mcp_auth_go.Core.Session.{
  SessionConfig, MemoryStore, new_memory_session_store, reap_for_user, count_for_user, open_session,
  touch, close, count, Call, opens, closes, counts, step, run,
}
use mcp_auth_go.Core.Session.Cap.{
  Inv, new_memory_session_store-Inv, run-Inv, run-new_memory_session_store,
}
use mcp_auth_go.Core.Session.Liveness.{
  live_count, touch_lem, count_lem, Opened, open_session-Opened, run-keeps,
}

store_code : Unit {0}
unfolding new_memory_session_store reap_for_user count_for_user open_session touch close count step
    run lookup insert delete delete_if count_if sub ◌==◌ ◌-ℤ◌
store_code = tt

-- Two sessions each, with a timeout of 30.
abbrev two_each : SessionConfig
two_each = record { timeout = pos 30; max_concurrent_per_user = pos 2 }

abbrev ann : Str
ann = str "ann"

abbrev history : List (Time × Call)
history =
    (pos 0, opens ann (str "s1"))
    ∷ (pos 5, opens ann (str "s2"))
    ∷ (pos 6, opens (str "bob") (str "s3"))
    ∷ []

abbrev busy : MemoryStore
busy = run (new_memory_session_store two_each) history

busy-Inv : Inv busy
busy-Inv =
    run-Inv (new_memory_session_store two_each) history (new_memory_session_store-Inv two_each)

-- A third session is refused until the first has timed out.
opens_test :
    ((open_session busy ann (pos 20) (str "s4")).1 ≡ fail (to_error err_session_limit_exceeded))
    × ((open_session busy ann (pos 31) (str "s4")).1 ≡ ok (str "s4"))
    × ((count busy ann (pos 31)).1 ≡ 1)
    × ((touch busy (str "s1") (pos 30)).1 ≡ none)
    × ((count (touch busy (str "s1") (pos 30)).0 ann (pos 40)).1 ≡ 1)
unfolding store_code
opens_test = (refl, refl, refl, refl, refl)

run-new_memory_session_store_example : IsMap busy.sessions × (count_for_user busy ann ≤ 2)
run-new_memory_session_store_example =
    run-new_memory_session_store two_each history ann 2 refl (omega arith)

touch_lem_example : (touch busy (str "s1") (pos 30)).1 ≡ none
unfolding store_code
touch_lem_example = (touch_lem busy (str "s1") (pos 30)).0.1 (λ e. cc)

count_lem_example : (count busy ann (pos 31)).1 ≡ live_count busy (pos 31) ann
count_lem_example = (count_lem busy ann (pos 31) busy-Inv).0

open_session-Opened_example :
    Opened busy ann (pos 20) (str "s4") (open_session busy ann (pos 20) (str "s4"))
open_session-Opened_example = open_session-Opened busy ann (pos 20) (str "s4") busy-Inv

abbrev later_calls : List (Time × Call)
later_calls =
    (pos 20, opens ann (str "s4")) ∷ (pos 35, closes (str "s1")) ∷ (pos 35, counts ann) ∷ []

run-keeps_example :
    lookup (str "s2") (run busy later_calls).sessions
    ≡ some (record { user_id = ann; last_seen = pos 5 })
unfolding store_code
run-keeps_example =
    run-keeps later_calls busy (str "s2") (record { user_id = ann; last_seen = pos 5 }) busy-Inv
      refl ((ne_of_test _ _ refl, refl), ((ne_of_test _ _ refl, refl), ((tt, refl), tt)))
