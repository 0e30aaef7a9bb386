-- ===== src/Dpop/Verifier/Tests.antt =====
-- dpop/verifier.go and dpop/proof.go: the theorems at a sample JWS whose only message is a sound
-- proof issued at second 100.
use mcp_auth_go.Prelude.{
  str, ◌==◌, ne_of_test, none, some, [], ◌∷◌, lookup, insert, pos, ◌≡◌, refl, true, false, unix,
  ◌+ℤ◌, ◌-ℤ◌, ◌≤ℤ◌, ◌⊎◌,
}
use mcp_auth_go.Core.Errors.{GoError, is_error, is_cause}
use mcp_auth_go.Dpop.Nonce.{NonceSource}
use mcp_auth_go.Dpop.Replay.{
  MemoryReplayCache, new_memory_replay_cache, memory_replay_cache, seen_before, record_key, sweep,
}
use mcp_auth_go.Dpop.Replay.SingleUse.{sights}
use mcp_auth_go.Dpop.Verifier.{
  Jws, require, ProofClaims, Config, Verifier, Input, never_permitted, alg_set, new_verifier,
  alg_allowed, ath, strip_url, verified_claims, bound_claims, checked, replay_check, check_proof,
  enforce, bad_proof,
}
use mcp_auth_go.Dpop.Verifier.Algorithms.{new_verifier-algs}
use mcp_auth_go.Dpop.Verifier.Enforcement.{enforce_admits}
use mcp_auth_go.Dpop.Verifier.Answers.{Stale, Challenges, Disproves, enforce_refuses}
use mcp_auth_go.Dpop.Verifier.Replay.{expiry, enforce_twice}

verifier_code : Unit {0}
unfolding never_permitted alg_set new_verifier alg_allowed ath strip_url verified_claims
    bound_claims checked replay_check check_proof enforce lookup insert ◌==◌ unix ◌+ℤ◌ ◌-ℤ◌ is_error
    is_cause new_memory_replay_cache seen_before record_key sweep sights
verifier_code = tt

abbrev claims_of_p : ProofClaims
claims_of_p = record {
  jti = str "j";
  htm = str "POST";
  htu = str "https://a/x";
  iat = pos 100;
  ath = str "tok";
  nonce = [];
}

abbrev sample : Jws
sample = record {
  Key = Unit {0};
  Message = Unit {0};
  parse = λ p. some tt;
  signatures = λ m. (str "dpop+jwt", str "ES256", some tt) ∷ [];
  payload = λ m. [];
  is_private_key = λ k. some false;
  verify = λ p alg k. true;
  thumbprint = λ k. some (str "jkt");
  unmarshal = λ p. some claims_of_p;
  sha256 = λ s. s;
  base64 = λ s. s;
  parse_url = λ s. some (record { raw_query = []; fragment = []; base = s });
  url_string = λ u. u.base;
}

abbrev config : Config
config = record { mode = require; iat_leeway = pos 0; alg_allow = []; nonce = none }

abbrev v : Verifier
v = record {
  mode = require;
  iat_leeway = pos 60000000000;
  alg_allow = (str "ES256", tt) ∷ [];
  nonce = none;
}

-- A source that has every nonce stale.
abbrev stale : NonceSource
stale = record { issue = λ now. str "n"; validate = λ nonce now. false }

abbrev request : Input
request = record {
  proofs = str "p" ∷ [];
  method = str "POST";
  url = str "https://a/x";
  access_token = str "tok";
  bound_jkt = str "jkt";
}

abbrev seen : MemoryReplayCache
seen = record { seen = (str "j|https://a/x", pos 160000000000) ∷ [] }

admission :
    enforce sample memory_replay_cache v new_memory_replay_cache request
      (unix (pos 100))
      (unix (pos 100))
    ≡ (seen, none)
unfolding verifier_code
admission = refl

new_verifier-algs_example : pos 1000000000 ≤ℤ (new_verifier config).iat_leeway
new_verifier-algs_example = (new_verifier-algs config (str "ES256")).1

enforce_admits_example :
    enforce sample memory_replay_cache v new_memory_replay_cache request
      (unix (pos 100))
      (unix (pos 100))
    ≡ (seen, none)
unfolding verifier_code
enforce_admits_example =
    (enforce_admits sample memory_replay_cache v new_memory_replay_cache seen request
        (unix (pos 100)) (unix (pos 100))).1
      ((enforce_admits sample memory_replay_cache v new_memory_replay_cache seen request
          (unix (pos 100)) (unix (pos 100))).0
        admission)

-- The same request again is refused, since the proof has been seen.
abbrev replayed : GoError
replayed = bad_proof "dpop proof replayed"

enforce_refuses_example :
    (Stale sample memory_replay_cache v request (unix (pos 101))
      × Challenges replayed
      × (seen ≡ seen))
    ⊎ ((¬ Stale sample memory_replay_cache v request (unix (pos 101))) × Disproves replayed)
unfolding verifier_code
enforce_refuses_example =
    enforce_refuses sample memory_replay_cache v seen seen request (unix (pos 101)) (unix (pos 101))
      replayed refl

-- At the very instant of its expiry the proof is admitted again.
enforce_twice_example :
    (expiry v claims_of_p ≤ℤ unix (pos 160)) × (unix (pos 160) ≤ℤ expiry v claims_of_p)
unfolding verifier_code
enforce_twice_example =
    enforce_twice sample v (str "p") claims_of_p tt [] [] seen seen request request (unix (pos 100))
      (unix (pos 100)) (unix (pos 160)) (unix (pos 160)) refl refl refl (ne_of_test _ _ refl)
      (ne_of_test _ _ refl) refl tt refl refl
