-- ===== src/Dpop/Verifier/Algorithms.antt =====
-- dpop/verifier.go: the algorithms that a configured verifier accepts, and its other defaults.
use mcp_auth_go.Prelude.{
  Str, str, eq_iff, is_nil, true, false, List, [], ◌∷◌, GoMap, lookup, insert, is_some,
  lookup-insert, pos, ◌≤ℤ◌, second, if◌then◌else◌, ◌≡◌, ◌↔◌, ◌⊎◌, Has, arith, ◌≢◌,
}
use mcp_auth_go.Dpop.Verifier.{
  Config, default_algs, never_permitted, alg_set, new_verifier, alg_allowed,
}

lookup-alg_set :
    (a : Str) (algs : List Str) (set : GoMap (Unit {0}))
    → (is_some (lookup a (alg_set algs set)) ≡ true)
      ↔ ((Has a algs × (never_permitted a ≡ false)) ⊎ (is_some (lookup a set) ≡ true))
unfolding alg_set
lookup-alg_set a [] set = ground arith
lookup-alg_set a (b ∷ algs) set = ground (
  arith,
  eq_iff b a,
  lookup-insert b a tt set,
  lookup-alg_set a algs (if never_permitted b then set else insert b tt set),
)

-- The algorithms that the configuration asks for.
abbrev pub asked : Config → List Str
asked cfg = if is_nil cfg.alg_allow then default_algs else cfg.alg_allow

-- A configured verifier accepts exactly the algorithms that its configuration lists, or the
-- default ones where it lists none, without `none` and the symmetric ones; and its leeway is a
-- second at least.
pub new_verifier-algs :
    (cfg : Config) (a : Str)
    → ((alg_allowed (new_verifier cfg) a ≡ true) ↔ (
        Has a (asked cfg)
        × (a ≢ str "none")
        × (a ≢ str "HS256")
        × (a ≢ str "HS384")
        × (a ≢ str "HS512")))
      × (pos second ≤ℤ (new_verifier cfg).iat_leeway)
unfolding new_verifier alg_allowed lookup never_permitted
new_verifier-algs cfg a = (
  ground (
    arith,
    lookup-alg_set a (asked cfg) [],
    eq_iff a (str "none"),
    eq_iff a (str "HS256"),
    eq_iff a (str "HS384"),
    eq_iff a (str "HS512"),
  ),
  ground arith,
)
