-- ===== src/Dpop/Replay/Tests.antt =====
-- dpop/replay.go: the theorems at a cache with one recorded proof.
use mcp_auth_go.Prelude.{
  Str, str, ◌==◌, lookup, insert, [], ◌∷◌, pos, before, ◌≡◌, refl, true, false, List, arith, length,
  ◌≤◌, ◌⊎◌,
}
use mcp_auth_go.Dpop.Replay.{
  new_memory_replay_cache, sweep, record_key, seen_before, replay_sweep_threshold,
}
use mcp_auth_go.Dpop.Replay.SingleUse.{
  Sight, see, sights, served, Unexpired, seen_before_twice, seen_before_sound, seen_before-bounded,
}
use mcp_auth_go.Dpop.Replay.Register.{replay_answers, register_answers, seen_before-register}

replay_code : Unit {0}
unfolding new_memory_replay_cache sweep record_key seen_before lookup insert ◌==◌ sights
replay_code = tt

abbrev sight_at : Str → Sight
sight_at jti = record { now = pos 1; jti = jti; htu = str "https://a/x"; exp = pos 9 }

seen_before_twice_example :
    (see
      (sights
        (see (served (sight_at (str "p") ∷ [])) (sight_at (str "q"))).0
        (sight_at (str "r") ∷ []))
      (sight_at (str "q"))).1
    ≡ true
unfolding replay_code
seen_before_twice_example =
    seen_before_twice (sight_at (str "p") ∷ []) (sight_at (str "q")) (sight_at (str "r") ∷ [])
      (sight_at (str "q")) refl refl (refl, tt) refl refl

seen_again : (see (served (sight_at (str "p") ∷ [])) (sight_at (str "p"))).1 ≡ true
unfolding replay_code
seen_again = refl

seen_before_sound_sample :
    before (pos 1) (seen_before_sound (sight_at (str "p") ∷ []) (sight_at (str "p")) seen_again).0
    ≡ true
seen_before_sound_sample =
    (seen_before_sound (sight_at (str "p") ∷ []) (sight_at (str "p")) seen_again).1

seen_before-bounded_example :
    (length (see new_memory_replay_cache (sight_at (str "p"))).0.seen ≤ replay_sweep_threshold)
    ⊎ Unexpired (pos 1) (see new_memory_replay_cache (sight_at (str "p"))).0.seen
unfolding replay_code
seen_before-bounded_example = seen_before-bounded new_memory_replay_cache (sight_at (str "p")) refl

abbrev three_sights : List Sight
three_sights = sight_at (str "p") ∷ sight_at (str "q") ∷ sight_at (str "p") ∷ []

third_is_replay : replay_answers new_memory_replay_cache three_sights ≡ false ∷ false ∷ true ∷ []
unfolding replay_code replay_answers
third_is_replay = refl

seen_before-register_example :
    replay_answers new_memory_replay_cache three_sights ≡ register_answers [] three_sights
seen_before-register_example =
    seen_before-register (pos 0) three_sights (omega arith, (omega arith, (omega arith, tt)))
