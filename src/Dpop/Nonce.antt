-- ===== src/Dpop/Nonce.antt =====
-- dpop/nonce.go: the stateless nonces. HMAC-SHA256, base64url and the random bytes are parameters.
pub mod Window
mod Tests
use mcp_auth_go.Prelude.{
  ℕ, zero, suc, ◌+◌, ◌*◌, ◌/◌, ◌%◌, Str, str, ◌==◌, Bool, false, ◌||◌, not, Option, none, some, [],
  ◌∷◌, ◌++◌, eqb, length, take, drop, Time, Duration, ℤ, pos, negsuc, ◌+ℤ◌, sub, ltb, ltb_ℤ,
  positive, after, unix, unix_seconds, if◌then◌else◌,
}
use mcp_auth_go.Core.Errors.{errorf, int_arg, Result, ok, fail}

-- The interface `NonceSource`: what `Issue` returns at an instant, and `Validate`.
pub record NonceSource : Type 0 where
  pub issue : Time → Str
  pub validate : Str → Time → Bool

-- `hmac.New(sha256.New, secret)` over a payload, and `base64.RawURLEncoding`.
pub record NonceCodec : Type 0 where
  pub hmac_sha256 : Str → Str → Str
  pub encode : Str → Str
  pub decode : Str → Option Str

abbrev pub nonce_ts_len : ℕ
nonce_ts_len = 8

abbrev pub nonce_rand_len : ℕ
nonce_rand_len = 16

abbrev pub nonce_payload : ℕ
nonce_payload = 24

abbrev pub nonce_len : ℕ
nonce_len = 56

abbrev pub nonce_min_secret : ℕ
nonce_min_secret = 32

abbrev pub nonce_default_tl : Duration
nonce_default_tl = pos 300000000000

abbrev pub nonce_future_tl : Duration
nonce_future_tl = pos 5000000000

abbrev pub max_int64 : ℕ
max_int64 = 9223372036854775807

pub record SignedNonce : Type 0 where
  pub secret : Str
  pub lifetime : Duration

unfoldable pub new_signed_nonce : Str → Duration → Result SignedNonce
new_signed_nonce secret lifetime =
    if ltb (length secret) nonce_min_secret
    then fail (
        errorf (str "dpop: nonce secret must be at least %d bytes, got %d")
          (int_arg nonce_min_secret ∷ int_arg (length secret) ∷ []))
    else ok (record {
      secret = secret;
      lifetime = if positive lifetime then lifetime else nonce_default_tl;
    })

-- `binary.BigEndian.PutUint64`, for any number of bytes.
unfoldable pub put_uint : ℕ → ℕ → Str
put_uint zero n = []
put_uint (suc k) n = put_uint k (n / 256) ++ (n % 256) ∷ []

-- `binary.BigEndian.Uint64`, of the bytes read so far and the rest.
unfoldable pub uint : ℕ → Str → ℕ
uint acc [] = acc
uint acc (b ∷ bytes) = uint (acc * 256 + b) bytes

module _ (c : NonceCodec) where
  -- `mac`.
  abbrev pub mac : SignedNonce → Str → Str
  mac s payload = c.hmac_sha256 s.secret payload

  -- `random` is what `rand.Read` yields, `none` if it fails.
  issue_at : SignedNonce → ℕ → Option Str → Str
  issue_at s sec none = []
  issue_at s sec (some random) =
      let payload = put_uint nonce_ts_len sec ++ random in c.encode (payload ++ mac s payload)

  unfoldable pub issue : SignedNonce → Option Str → Time → Str
  unfolding issue_at
  issue s random now = elim (unix_seconds now) [ pos sec ↦ issue_at s sec random | negsuc _ ↦ [] ]

  -- The window test on a timestamp.
  unfoldable pub in_window : SignedNonce → Time → Time → Bool
  in_window s issued now =
      if ltb_ℤ s.lifetime (sub now issued)
      then false
      else not (after issued (now +ℤ nonce_future_tl))

  validate_raw : SignedNonce → Str → Time → Bool
  unfolding in_window
  validate_raw s raw now =
      let payload = take nonce_payload raw in
      let ts = uint 0 (take nonce_ts_len payload) in
      if not (eqb (length raw) nonce_len) || not (drop nonce_payload raw == mac s payload)
      then false
      else if ltb max_int64 ts
      then false
      else in_window s (unix (pos ts)) now

  unfoldable pub validate : SignedNonce → Str → Time → Bool
  unfolding validate_raw
  validate s nonce now = elim (c.decode nonce) [ none ↦ false | some raw ↦ validate_raw s raw now ]

  -- A `SignedNonce` as a `NonceSource`, in a request where `rand.Read` yields `random`.
  abbrev pub signed_nonce_source : SignedNonce → Option Str → NonceSource
  signed_nonce_source s random = record { issue = issue s random; validate = validate s }
