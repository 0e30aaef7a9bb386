-- ===== src/Dpop/Redis/SingleUse.antt =====
-- dpop/redisreplay/cache.go: a recorded proof is a replay until the last millisecond of its life, on a
-- server whose `SET NX` with a time to live does what its documentation says.
use mcp_auth_go.Prelude.{
  Str, str, Bool, true, false, not, List, [], ◌∷◌, Time, Duration, ◌+ℤ◌, ◌-ℤ◌, ◌≤ℤ◌, sub, ltb_ℤ,
  max_duration, +ℤ_parts, -ℤ_parts, pos_part, neg_part, ◌+◌, ◌≡◌, refl, sym, ap, subst, ◌∙◌, ◌↔◌,
  ◌⊎◌, inl, inr, arith, Bool-cases,
}
use mcp_auth_go.Core.Errors.{GoError, Result, ok, fail}
use mcp_auth_go.Core.Errors.Laws.{Result-cases}
use mcp_auth_go.Dpop.Replay.SingleUse.{Sight}
use mcp_auth_go.Dpop.Redis.{
  is_closed, millisecond, RedisReplayCache, Redis, Warning, redis_key, resolve, redis_seen_before,
}

-- What the documentation of `SET key value NX PX ttl` says of a server that evicts nothing: `holds` is
-- whether a key is there at an instant, should no other command come before. A reply tells whether the
-- key was there; a command that set it leaves it there for its time to live, in milliseconds; and
-- no command, not one that is reported as failed either, takes away a key that is there.
pub record IsSetNx (rd : Redis) : Type 0 where
  pub holds : rd.State → Time → Str → Bool
  pub told :
      (st : rd.State) (at : Time) (wait : Duration) (key value : Str) (ttl : Duration) (set : Bool)
      → (rd.set_nx st at wait key value ttl).1 ≡ ok set
      → holds st at key ≡ not set
  pub stored :
      (st : rd.State) (at : Time) (wait : Duration) (key value : Str) (ttl : Duration) (t : Time)
      → (rd.set_nx st at wait key value ttl).1 ≡ ok true
      → t +ℤ millisecond ≤ℤ at +ℤ ttl
      → holds (rd.set_nx st at wait key value ttl).0 t key ≡ true
  pub stays :
      (st : rd.State) (at : Time) (wait : Duration) (key value : Str) (ttl : Duration) (t : Time)
      (k : Str)
      → holds st t k ≡ true
      → holds (rd.set_nx st at wait key value ttl).0 t k ≡ true

resolve_iff :
    (c : RedisReplayCache) (log : List Warning) (res : Result Bool)
    → ((resolve c log res).1 ≡ true)
      ↔ ((res ≡ ok false) ⊎ ((err : GoError) × (res ≡ fail err) × (is_closed c.fail_mode ≡ true)))
unfolding resolve
resolve_iff c log (ok true) = (λ h. cc, λ h. elim h [ inl e ↦ cc | inr (err, e, m) ↦ cc ])
resolve_iff c log (ok false) = (λ h. inl refl, λ h. refl)
resolve_iff c log (fail err) =
    (λ h. inr (err, refl, h), λ h. elim h [ inl e ↦ cc | inr (err', e, m) ↦ m ])

late_iff :
    (exp now : Time) → (ltb_ℤ (sub exp now) millisecond ≡ false) ↔ (now +ℤ millisecond ≤ℤ exp)
unfolding sub
late_iff exp now = (
  λ h. ground (arith, -ℤ_parts exp now, +ℤ_parts now millisecond),
  λ h. ground (arith, -ℤ_parts exp now, +ℤ_parts now millisecond),
)

-- A difference that is not cut off leads back to the later instant.
+ℤ-sub :
    (exp now : Time)
    → now ≤ℤ exp
    → exp ≤ℤ now +ℤ max_duration
    → pos_part (now +ℤ sub exp now) + neg_part exp ≡ pos_part exp + neg_part (now +ℤ sub exp now)
unfolding sub
+ℤ-sub exp now h k =
    ground (arith, -ℤ_parts exp now, +ℤ_parts now (exp -ℤ now), +ℤ_parts now max_duration)

before-expiry :
    (exp now t : Time)
    → now +ℤ millisecond ≤ℤ exp
    → exp ≤ℤ now +ℤ max_duration
    → t +ℤ millisecond ≤ℤ exp
    → t +ℤ millisecond ≤ℤ now +ℤ sub exp now
before-expiry exp now t lives near h =
    let past : now ≤ℤ exp = ground (arith, +ℤ_parts now millisecond) in
    let back = +ℤ-sub exp now past near in ground (arith, back)

module _ (rd : Redis) (digest : Str → Str) where
  abbrev pub redis_see :
      RedisReplayCache → rd.State × List Warning → Sight → (rd.State × List Warning) × Bool
  redis_see c st s = redis_seen_before rd digest c st s.now s.jti s.htu s.exp

  -- The reply of the server to a call that asks it.
  abbrev pub redis_reply : RedisReplayCache → rd.State → Sight → rd.State × Result Bool
  redis_reply c st s =
      rd.set_nx st s.now c.op_timeout (redis_key digest c s.jti s.htu) (str "1") (sub s.exp s.now)

  redis_see-early :
      (c : RedisReplayCache) (st : rd.State) (log : List Warning) (s : Sight)
      → ltb_ℤ (sub s.exp s.now) millisecond ≡ true
      → redis_see c (st, log) s ≡ ((st, log), false)
  unfolding redis_seen_before
  redis_see-early c st log s e = rw (e, redis_seen_before) refl

  redis_see-asked :
      (c : RedisReplayCache) (st : rd.State) (log : List Warning) (s : Sight)
      → ltb_ℤ (sub s.exp s.now) millisecond ≡ false
      → redis_see c (st, log) s ≡ (
        ((redis_reply c st s).0, (resolve c log (redis_reply c st s).1).0),
        (resolve c log (redis_reply c st s).1).1,
      )
  unfolding redis_seen_before
  redis_see-asked c st log s e = rw (e, redis_seen_before) refl

  -- A proof that expires within the millisecond, or has expired, is let pass without the server; for
  -- any other the answer is that the key was there, or that the server failed and the mode is closed.
  pub redis_see_iff :
      (c : RedisReplayCache) (st : rd.State) (log : List Warning) (s : Sight)
      → ((redis_see c (st, log) s).1 ≡ true) ↔ (
          (ltb_ℤ (sub s.exp s.now) millisecond ≡ false)
          × (((redis_reply c st s).1 ≡ ok false)
              ⊎ ((err : GoError) × ((redis_reply c st s).1 ≡ fail err)
                  × (is_closed c.fail_mode ≡ true))))
  redis_see_iff c st log s = elim (Bool-cases (ltb_ℤ (sub s.exp s.now) millisecond)) [
    | inl e ↦ (λ h. cc (ap (λ x. x.1) (redis_see-early c st log s e), h), λ h. cc (e, h.0))
    | inr e ↦
        let d = ap (λ x. x.1) (redis_see-asked c st log s e) in
        let (to, from) = resolve_iff c log (redis_reply c st s).1 in
        (λ h. (e, to (sym d ∙ h)), λ (f, h). d ∙ from h)
  ]

  -- A run of calls.
  unfoldable pub redis_sights :
      RedisReplayCache → rd.State × List Warning → List Sight → rd.State × List Warning
  redis_sights c st [] = st
  redis_sights c st (s ∷ rest) = redis_sights c (redis_see c st s).0 rest

  module _ (laws : IsSetNx rd) where
    see-stays :
        (c : RedisReplayCache) (st : rd.State × List Warning) (s : Sight) (t : Time) (k : Str)
        → laws.holds st.0 t k ≡ true
        → laws.holds (redis_see c st s).0.0 t k ≡ true
    see-stays c (st, log) s t k h = elim (Bool-cases (ltb_ℤ (sub s.exp s.now) millisecond)) [
      | inl e ↦ rw (ap (λ x. x.0.0) (redis_see-early c st log s e)) h
      | inr e ↦
          rw (ap (λ x. x.0.0) (redis_see-asked c st log s e)) (laws.stays st s.now _ _ _ _ t k h)
    ]

    sights-stays :
        (c : RedisReplayCache) (st : rd.State × List Warning) (calls : List Sight) (t : Time)
        (k : Str)
        → laws.holds st.0 t k ≡ true
        → laws.holds (redis_sights c st calls).0 t k ≡ true
    unfolding redis_sights
    sights-stays c st [] t k h = h
    sights-stays c st (s ∷ calls) t k h =
        sights-stays c (redis_see c st s).0 calls t k (see-stays c st s t k h)

    -- A key that is there makes a call a replay, where an error refuses too.
    see-held :
        (c : RedisReplayCache) (st : rd.State × List Warning) (s : Sight)
        → is_closed c.fail_mode ≡ true
        → ltb_ℤ (sub s.exp s.now) millisecond ≡ false
        → laws.holds st.0 s.now (redis_key digest c s.jti s.htu) ≡ true
        → (redis_see c st s).1 ≡ true
    see-held c (st, log) s closed e h = elim (Result-cases (redis_reply c st s).1) [
      | inl (true, r) ↦ cc (laws.told st s.now _ _ _ _ true r, h)
      | inl (false, r) ↦ (redis_see_iff c st log s).1 (e, inl r)
      | inr (err, r) ↦ (redis_see_iff c st log s).1 (e, inr (err, r, closed))
    ]

    see-new :
        (c : RedisReplayCache) (st : rd.State × List Warning) (s : Sight)
        → is_closed c.fail_mode ≡ true
        → ltb_ℤ (sub s.exp s.now) millisecond ≡ false
        → (redis_see c st s).1 ≡ false
        → (redis_reply c st.0 s).1 ≡ ok true
    see-new c (st, log) s closed e h = elim (Result-cases (redis_reply c st s).1) [
      | inl (true, r) ↦ r
      | inl (false, r) ↦ cc ((redis_see_iff c st log s).1 (e, inl r), h)
      | inr (err, r) ↦ cc ((redis_see_iff c st log s).1 (e, inr (err, r, closed)), h)
    ]

    -- Where errors refuse too, a proof that was new is a replay from then on, until the last millisecond
    -- of its life: after any further calls, with whatever replies and errors of the server, a call
    -- with its identifier and URL at least a millisecond before it expires answers true. What is
    -- assumed is that the server keeps its word on `SET NX`, that the proof had at least a millisecond to
    -- live, and that it expires within 292 years.
    pub redis_seen_before_twice :
        (c : RedisReplayCache) (st : rd.State × List Warning) (first : Sight) (between : List Sight)
        (again : Sight)
        → is_closed c.fail_mode ≡ true
        → first.now +ℤ millisecond ≤ℤ first.exp
        → first.exp ≤ℤ first.now +ℤ max_duration
        → (redis_see c st first).1 ≡ false
        → again.jti ≡ first.jti
        → again.htu ≡ first.htu
        → again.exp ≡ first.exp
        → again.now +ℤ millisecond ≤ℤ again.exp
        → (redis_see c (redis_sights c (redis_see c st first).0 between) again).1 ≡ true
    redis_seen_before_twice c (st, log) first between again closed lives near new jti htu exp
          in_time =
        let early = (late_iff first.exp first.now).1 lives in
        let key = redis_key digest c first.jti first.htu in
        let set = see-new c (st, log) first closed early new in
        let stored : laws.holds (redis_see c (st, log) first).0.0 again.now key ≡ true =
          rw (ap (λ x. x.0.0) (redis_see-asked c st log first early)) (
            laws.stored st first.now c.op_timeout key (str "1") (sub first.exp first.now) again.now
              set
              (before-expiry first.exp first.now again.now lives near
                (subst (λ x. again.now +ℤ millisecond ≤ℤ x) exp in_time))) in
        let later = redis_sights c (redis_see c (st, log) first).0 between in
        let held = sights-stays c (redis_see c (st, log) first).0 between again.now key stored in
        see-held c later again closed ((late_iff again.exp again.now).1 in_time)
          (rw (jti, htu) held)
