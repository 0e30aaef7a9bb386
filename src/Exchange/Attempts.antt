-- ===== src/Exchange/Attempts.antt =====
-- exchange/exchanger.go: how often the server is asked, and when a token is served again.
use mcp_auth_go.Prelude.{
  ℕ, suc, Str, str, ◌==◌, eq_refl, is_empty, Bool, true, false, ◌&&◌, not, Option, none, some, [],
  ◌∷◌, lookup, lookup-insert, Time, ◌+ℤ◌, ◌<ℤ◌, ◌-ℤ◌, ltb_ℤ_iff, +ℤ_parts, -ℤ_parts, eqb,
  if◌then◌else◌, ◌≡◌, ◌≢◌, refl, sym, ap, subst, ◌∙◌, ◌⊎◌, inl, inr, arith,
}
use mcp_auth_go.Core.Errors.{Result, ok, fail}
use mcp_auth_go.Exchange.Cache.{Token, MemoryCache, memory_cache, get, set, is_fresh}
use mcp_auth_go.Exchange.Forms.{Request, Form, exchange_form}
use mcp_auth_go.Exchange.{
  TokenResponse, Reply, unbuilt, unsigned, unanswered, answered, Exchanger, cache_key, Step, done,
  again, judge, step, do_from, do_request, record_granted, cached, store, fetch, exchange,
}

pub done-ne : (res : Result Token) (nonce : Str) → done res ≢ again nonce
done-ne res nonce = λ h. cc

abbrev Done : Step → Type 0
Done s = (res : Result Token) × (s ≡ done res)

if-Done : (b : Bool) (s u : Step) → Done s → Done u → Done (if b then s else u)
if-Done true s u h k = h
if-Done false s u h k = k

else-Done : (b : Bool) (s u : Step) → b ≡ false → Done u → Done (if b then s else u)
else-Done true s u e k = cc
else-Done false s u e k = k

never : (a b c : Bool) → c ≡ false → (a && b && c) ≡ false
never true true c h = h
never true false c h = refl
never false b c h = refl

later : (n : ℕ) → eqb (suc n) 0 ≡ false
later n = ground arith

judge-Done :
    (attempt status : ℕ) (nonce : Str) (b : TokenResponse) (now : Time)
    → Done (judge (suc attempt) status nonce b now)
unfolding judge
judge-Done attempt status nonce b now =
    if-Done _ _ _ (_, refl)
      (else-Done _ _ _
        (never (b.error == str "use_dpop_nonce") (not (is_empty nonce)) _ (later attempt))
        (_, refl))

body-Done :
    (attempt status : ℕ) (nonce : Str) (body : Result TokenResponse) (now : Time)
    → Done (step (suc attempt) (answered status nonce body) now)
unfolding step
body-Done attempt status nonce (ok b) now =
    if-Done _ _ _ (_, refl) (judge-Done attempt status nonce b now)
body-Done attempt status nonce (fail e) now = if-Done _ _ _ (_, refl) (_, refl)

-- After the first attempt there is no other.
pub step-done :
    (attempt : ℕ) (reply : Reply) (now : Time)
    → (res : Result Token) × (step (suc attempt) reply now ≡ done res)
unfolding step
step-done attempt (unbuilt err) now = (_, refl)
step-done attempt (unsigned err) now = (_, refl)
step-done attempt (unanswered err) now = (_, refl)
step-done attempt (answered status nonce body) now = body-Done attempt status nonce body now

present-test : (s : Str) → s ≢ [] → is_empty s ≡ false
present-test [] h = absurd (h refl)
present-test (c ∷ s) h = refl

Step-cases :
    (s : Step) → ((res : Result Token) × (s ≡ done res)) ⊎ ((nonce : Str) × (s ≡ again nonce))
Step-cases (done res) = inl (res, refl)
Step-cases (again nonce) = inr (nonce, refl)

module _ {W : Type 0} where
  -- A result after one attempt, or after two of which the second carries the server's nonce.
  abbrev pub Attempted : Exchanger W → W → Form → Time → W × Result Token → Type 0
  Attempted x w form now result =
      let (w1, first) = x.server w form [] in
      ((res : Result Token) × (step 0 first now ≡ done res) × (result ≡ (w1, res)))
      ⊎ ((nonce : Str) × (res : Result Token) × (step 0 first now ≡ again nonce)
          × (step 1 (x.server w1 form nonce).1 now ≡ done res)
          × (result ≡ ((x.server w1 form nonce).0, res)))

  -- A request to the server takes one attempt or two.
  pub do_request-Attempted :
      (x : Exchanger W) (w : W) (form : Form) (now : Time)
      → Attempted x w form now (do_request x w form now)
  unfolding do_request do_from
  do_request-Attempted x w form now =
      let first = x.server w form [] in
      elim (Step-cases (step 0 first.1 now)) [
        | inl (res, e) ↦ inl (res, e, rw (e, do_from))
        | inr (nonce, e) ↦
            let second = x.server first.0 form nonce in
            let (res, f) = step-done 0 second.1 now in inr (nonce, res, e, f, rw (e, f, do_from))
      ]

get-hit :
    (c : MemoryCache) (key : Str) (tok : Token) (exp now : Time)
    → lookup key c.items ≡ some tok
    → tok.expires_at ≡ some exp
    → now +ℤ c.leeway <ℤ exp
    → get c now key ≡ (c, some tok)
unfolding get is_fresh
get-hit c key tok exp now found e young =
    ground (arith, ltb_ℤ_iff now (exp -ℤ c.leeway), -ℤ_parts exp c.leeway, +ℤ_parts now c.leeway)

get-leeway : (c : MemoryCache) (key : Str) (now : Time) → (get c now key).0.leeway ≡ c.leeway
unfolding get
get-leeway c key now = ground arith

miss-eq :
    (x : MemoryCache × Option Token)
    → x.1 ≡ none
    → ◌≡◌ {A = MemoryCache × Option Token} x (x.0, none)
miss-eq (c, o) h = cc

cached-eq :
    (c : MemoryCache) (req : Request) (clock : Time)
    → req.subject ≢ []
    → cached memory_cache c req clock ≡ get c clock (cache_key req)
unfolding cached
cached-eq c req clock caller = rw (present-test req.subject caller)

store-eq :
    (c : MemoryCache) (req : Request) (tok : Token) (exp : Time)
    → req.subject ≢ []
    → tok.expires_at ≡ some exp
    → store memory_cache c req tok ≡ set c (cache_key req) tok
unfolding store
store-eq c req tok exp caller e = simp (present-test req.subject caller, e)

module _ {W : Type 0} where
  fetch-eq :
      (x : Exchanger W) (w w1 : W) (c : MemoryCache) (req : Request) (now : Time) (tok : Token)
      → do_request x w (exchange_form req) now ≡ (w1, ok tok)
      → fetch memory_cache x w c req now
        ≡ (record_granted x w1 req tok now, store memory_cache c req tok, ok tok)
  unfolding fetch
  fetch-eq x w w1 c req now tok granted = rw (ap (λ y. y.1) granted, fetch, ap (λ y. y.0) granted)

  -- The first exchange of a request with a subject, which the cache misses and the server grants.
  exchange-granted :
      (x : Exchanger W) (w w1 : W) (c : MemoryCache) (req : Request) (now clock : Time)
      (tok : Token) (exp : Time)
      → req.subject_token ≢ []
      → req.subject ≢ []
      → (get c clock (cache_key req)).1 ≡ none
      → do_request x w (exchange_form req) now ≡ (w1, ok tok)
      → tok.expires_at ≡ some exp
      → exchange memory_cache x w c req now clock ≡ (
        record_granted x w1 req tok now,
        set (get c clock (cache_key req)).0 (cache_key req) tok,
        ok tok,
      )
  unfolding exchange
  exchange-granted x w w1 c req now clock tok exp present caller miss granted e = rw (
    present-test req.subject_token present,
    ap (λ y. y.1) (cached-eq c req clock caller) ∙ miss,
    ap (λ y. y.0) (cached-eq c req clock caller),
    fetch-eq x w w1 (get c clock (cache_key req)).0 req now tok granted,
    store-eq (get c clock (cache_key req)).0 req tok exp caller e,
  )

  exchange-hit :
      (x : Exchanger W) (w : W) (c : MemoryCache) (req : Request) (now clock : Time) (tok : Token)
      → req.subject_token ≢ []
      → req.subject ≢ []
      → get c clock (cache_key req) ≡ (c, some tok)
      → exchange memory_cache x w c req now clock ≡ (record_granted x w req tok now, c, ok tok)
  unfolding exchange
  exchange-hit x w c req now clock tok present caller hit = rw (
    present-test req.subject_token present,
    ap (λ y. y.1) (cached-eq c req clock caller ∙ hit),
    ap (λ y. y.0) (cached-eq c req clock caller ∙ hit),
  )

  -- Once the server has granted a token with an expiry to a request with a subject, a request with
  -- the same key, at an instant before the leeway of that expiry, gets the same token without the
  -- server being asked: the world changes by the audit record alone, and the cache not at all.
  pub exchange-exchange :
      (x : Exchanger W) (w w1 w2 : W) (c : MemoryCache) (req req' : Request)
      (now clock now' clock' : Time) (tok : Token) (exp : Time)
      → req.subject_token ≢ []
      → req.subject ≢ []
      → (get c clock (cache_key req)).1 ≡ none
      → do_request x w (exchange_form req) now ≡ (w1, ok tok)
      → tok.expires_at ≡ some exp
      → req'.subject_token ≢ []
      → req'.subject ≢ []
      → cache_key req' ≡ cache_key req
      → clock' +ℤ c.leeway <ℤ exp
      → (let c' = (exchange memory_cache x w c req now clock).1 in
          exchange memory_cache x w2 c' req' now' clock'
          ≡ (record_granted x w2 req' tok now', c', ok tok))
  unfolding set
  exchange-exchange x w w1 w2 c req req' now clock now' clock' tok exp present caller miss granted e
        present' caller' same young =
      let key = cache_key req in
      let c1 = (get c clock key).0 in
      let c' = set c1 key tok in
      let first : (exchange memory_cache x w c req now clock).1 ≡ c' =
        ap (λ y. y.1)
          (exchange-granted x w w1 c req now clock tok exp present caller miss granted e) in
      let found : lookup key c'.items ≡ some tok =
        ground (arith, eq_refl key, lookup-insert key key tok c1.items) in
      let hit : get c' clock' (cache_key req') ≡ (c', some tok) = rw same (
        get-hit c' key tok exp clock' found e
          (subst (λ l. clock' +ℤ l <ℤ exp) (sym (get-leeway c key clock)) young)) in
      rw first (exchange-hit x w2 c' req' now' clock' tok present' caller' hit)
