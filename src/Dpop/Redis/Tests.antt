-- ===== src/Dpop/Redis/Tests.antt =====
-- dpop/redisreplay: the theorems at a server that keeps its keys in a map, and fails in one world.
use mcp_auth_go.Prelude.{
  Str, str, ◌==◌, eq_iff, Bool, true, false, not, none, some, [], ◌∷◌, GoMap, lookup, insert,
  lookup-insert, Time, Duration, pos, ◌+ℤ◌, ◌-ℤ◌, ◌≤ℤ◌, sub, before, ltb_ℤ, ltb_ℤ_iff, +ℤ_parts,
  ◌≡◌, refl, inl, arith,
}
use mcp_auth_go.Core.Errors.{Result, ok, fail, new_error}
use mcp_auth_go.Dpop.Replay.SingleUse.{Sight}
use mcp_auth_go.Dpop.Redis.{
  fail_closed, is_closed, millisecond, RedisReplayCache, Redis, redis_key, resolve,
  redis_seen_before,
}
use mcp_auth_go.Dpop.Redis.SingleUse.{
  IsSetNx, redis_see, redis_sights, redis_see_iff, redis_seen_before_twice,
}

abbrev held : GoMap Time → Time → Str → Bool
held st t key = elim (lookup key st) [ none ↦ false | some exp ↦ before t exp ]

-- The command at a time to live below a millisecond, at a key that is there, and at another.
set_key : Bool → Bool → GoMap Time → Time → Str → GoMap Time × Result Bool
set_key true there st exp key = (st, fail (new_error "ERR invalid expire time"))
set_key false true st exp key = (st, ok false)
set_key false false st exp key = (insert key exp st, ok true)

abbrev set_key_at : GoMap Time → Time → Str → Duration → GoMap Time × Result Bool
set_key_at st at key ttl = set_key (ltb_ℤ ttl millisecond) (held st at key) st (at +ℤ ttl) key

abbrev server : Redis
server = record {
  State = GoMap Time;
  set_nx = λ st at wait key value ttl. set_key_at st at key ttl;
}

server_told :
    (bad there set : Bool) (st : GoMap Time) (exp : Time) (key : Str)
    → (set_key bad there st exp key).1 ≡ ok set
    → there ≡ not set
unfolding set_key
server_told true there set st exp key h = cc
server_told false true true st exp key h = cc
server_told false true false st exp key h = refl
server_told false false true st exp key h = refl
server_told false false false st exp key h = cc

server_stored :
    (bad there : Bool) (st : GoMap Time) (exp t : Time) (key : Str)
    → (set_key bad there st exp key).1 ≡ ok true
    → t +ℤ millisecond ≤ℤ exp
    → held (set_key bad there st exp key).0 t key ≡ true
unfolding set_key
server_stored true there st exp t key h k = cc
server_stored false true st exp t key h k = cc
server_stored false false st exp t key h k =
    ground
      (arith, eq_iff key key, lookup-insert key key exp st, ltb_ℤ_iff t exp, +ℤ_parts t millisecond)

server_stays :
    (bad there : Bool) (st : GoMap Time) (at t : Time) (ttl : Duration) (key k : Str)
    → ltb_ℤ ttl millisecond ≡ bad
    → held st at key ≡ there
    → held st t k ≡ true
    → held (set_key bad there st (at +ℤ ttl) key).0 t k ≡ true
unfolding set_key
server_stays true there st at t ttl key k b e h = h
server_stays false true st at t ttl key k b e h = h
server_stays false false st at t ttl key k b e h =
    ground (arith, eq_iff key k, lookup-insert key k (at +ℤ ttl) st, +ℤ_parts at ttl)

abbrev server-IsSetNx : IsSetNx server
server-IsSetNx = record {
  holds = held;
  told = λ st at wait key value ttl set h. server_told _ _ set st (at +ℤ ttl) key h;
  stored = λ st at wait key value ttl t h k. server_stored _ _ st (at +ℤ ttl) t key h k;
  stays = λ st at wait key value ttl t k h. server_stays _ _ st at t ttl key k refl refl h;
}

redis_code : Unit {0}
unfolding redis_seen_before redis_sights resolve redis_key is_closed set_key lookup insert sub ◌==◌
    ◌+ℤ◌ ◌-ℤ◌
redis_code = tt

abbrev digest : Str → Str
digest s = b'#' ∷ s

abbrev strict : RedisReplayCache
strict = record {
  fail_mode = fail_closed;
  key_prefix = str "p:";
  logger = true;
  op_timeout = pos 5;
}

abbrev sight_at : Time → Sight
sight_at now = record { now = now; jti = str "j"; htu = str "https://a/x"; exp = pos 9000000 }

redis_see_iff_sample :
    (redis_see server digest strict
      (redis_see server digest strict ([], []) (sight_at (pos 1))).0
      (sight_at (pos 2))).1
    ≡ true
unfolding redis_code
redis_see_iff_sample =
    (redis_see_iff server digest strict
        (redis_see server digest strict ([], []) (sight_at (pos 1))).0.0 [] (sight_at (pos 2))).1
      (refl, inl refl)

redis_seen_before_twice_example :
    (redis_see server digest strict
      (redis_sights server digest strict
        (redis_see server digest strict ([], []) (sight_at (pos 1))).0
        (sight_at (pos 3) ∷ []))
      (sight_at (pos 8000000))).1
    ≡ true
unfolding redis_code
redis_seen_before_twice_example =
    redis_seen_before_twice server digest server-IsSetNx strict ([], []) (sight_at (pos 1))
      (sight_at (pos 3) ∷ []) (sight_at (pos 8000000)) refl (omega arith) (omega arith) refl refl
      refl refl (omega arith)
