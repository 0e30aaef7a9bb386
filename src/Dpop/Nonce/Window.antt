-- ===== src/Dpop/Nonce/Window.antt =====
-- dpop/nonce.go: which nonces are accepted, and when.
use mcp_auth_go.Prelude.{
  ℕ, zero, suc, ◌+◌, ◌*◌, ◌/◌, ◌%◌, ◌^◌, ◌≤◌, ◌<◌, Str, eq_iff, eq_refl, true, some, [], ◌∷◌, ◌++◌,
  length, length-append, take, drop, take-append, drop-append, take-drop-append, Time, pos, ◌+ℤ◌,
  ◌≤ℤ◌, ◌<ℤ◌, sub_iff, unix, unix_seconds, max_duration, min_duration, ◌≡◌, refl, sym, ap, ◌∙◌, ◌↔◌,
  arith, Option-cases, inl, inr,
}
use native.Mathlib.Nat.{pow-suc}
use mcp_auth_go.Dpop.Nonce.{
  NonceCodec, SignedNonce, nonce_ts_len, nonce_payload, nonce_len, nonce_future_tl, max_int64,
  put_uint, uint, mac, issue_at, issue, in_window, validate_raw, validate,
}

length-put_uint : (k n : ℕ) → length (put_uint k n) ≡ k
unfolding put_uint
length-put_uint zero n = refl
length-put_uint (suc k) n =
    omega
      (arith, length-append (put_uint k (n / 256)) ((n % 256) ∷ []), length-put_uint k (n / 256))

uint-concat : (acc b : ℕ) (bytes : Str) → uint acc (bytes ++ b ∷ []) ≡ uint acc bytes * 256 + b
unfolding uint
uint-concat acc b [] = refl
uint-concat acc b (d ∷ bytes) = uint-concat (acc * 256 + d) b bytes

-- Reading back the bytes of a number that they can hold.
pub uint-put_uint : (k n : ℕ) → n < 256 ^ k → uint 0 (put_uint k n) ≡ n
unfolding put_uint uint
uint-put_uint zero n h = omega arith
uint-put_uint (suc k) n h =
    uint-concat 0 (n % 256) (put_uint k (n / 256))
    ∙ omega (arith, uint-put_uint k (n / 256) (omega (arith, pow-suc 256 k)))

-- A timestamp lies in the window exactly when it is at most the lifetime ago and at most five
-- seconds ahead.
in_window_iff :
    (c : NonceCodec) (s : SignedNonce) (issued now : Time)
    → s.lifetime <ℤ max_duration
    → min_duration ≤ℤ s.lifetime
    → (in_window c s issued now ≡ true)
      ↔ ((now ≤ℤ s.lifetime +ℤ issued) × (issued ≤ℤ now +ℤ nonce_future_tl))
unfolding in_window
in_window_iff c s issued now h k = ground (arith, sub_iff s.lifetime now issued h k)

-- What the model assumes of the two codecs.
pub record IsCodec (c : NonceCodec) : Type 0 where
  pub decode-encode : (bytes : Str) → c.decode (c.encode bytes) ≡ some bytes
  pub length-hmac : (secret payload : Str) → length (c.hmac_sha256 secret payload) ≡ 32

module _ (c : NonceCodec) (is_codec : IsCodec c) where
  validate_raw-minted :
      (s : SignedNonce) (stamp random : Str) (now : Time)
      → length stamp ≡ nonce_ts_len
      → length random ≡ 16
      → uint 0 stamp ≤ max_int64
      → validate_raw c s ((stamp ++ random) ++ mac c s (stamp ++ random)) now
        ≡ in_window c s (unix (pos (uint 0 stamp))) now
  unfolding validate_raw
  validate_raw-minted s stamp random now ts rs small =
      let payload = stamp ++ random in
      let tag = mac c s payload in
      let p : length payload ≡ 24 = omega (arith, length-append stamp random) in
      let t : take 24 (payload ++ tag) ≡ payload =
        ap (λ n. take n (payload ++ tag)) (sym p) ∙ take-append payload tag in
      let d : drop 24 (payload ++ tag) ≡ tag =
        ap (λ n. drop n (payload ++ tag)) (sym p) ∙ drop-append payload tag in
      let u : take 8 payload ≡ stamp =
        ap (λ n. take n payload) (sym ts) ∙ take-append stamp random in
      let w : length (payload ++ tag) ≡ 56 =
        omega (arith, length-append payload tag, is_codec.length-hmac s.secret payload) in
      rw (w, t, d, u, eq_refl tag) (ground arith)

  validate-issue_at :
      (s : SignedNonce) (random : Str) (now : Time) (sec : ℕ)
      → length random ≡ 16
      → sec ≤ max_int64
      → validate c s (issue_at c s sec (some random)) now ≡ in_window c s (unix (pos sec)) now
  unfolding validate issue_at
  validate-issue_at s random now sec rs small =
      let stamp = put_uint 8 sec in
      let read : uint 0 stamp ≡ sec = uint-put_uint 8 sec (omega arith) in
      rw (is_codec.decode-encode, validate)
        (validate_raw-minted s stamp random now (length-put_uint 8 sec) rs (omega (arith, read))
          ∙ ap (λ n. in_window c s (unix (pos n)) now) read)

  -- A nonce issued at an instant from the epoch on is accepted exactly at the instants from five
  -- seconds before the second in which it was issued until its lifetime after it.
  pub validate-issue :
      (s : SignedNonce) (random : Str) (issued now : Time) (sec : ℕ)
      → length random ≡ 16
      → unix_seconds issued ≡ pos sec
      → sec ≤ max_int64
      → s.lifetime <ℤ max_duration
      → pos 0 ≤ℤ s.lifetime
      → (validate c s (issue c s (some random) issued) now ≡ true)
        ↔ ((now ≤ℤ s.lifetime +ℤ unix (pos sec)) × (unix (pos sec) ≤ℤ now +ℤ nonce_future_tl))
  unfolding issue
  validate-issue s random issued now sec rs at small h k =
      rw (at, issue, validate-issue_at s random now sec rs small)
        (in_window_iff c s (unix (pos sec)) now h (omega arith))

-- What an accepted nonce is: the encoding of a payload with its authentication code under the
-- secret, stamped with a second whose instant is in the window.
pub record IsMinted (c : NonceCodec) (s : SignedNonce) (nonce : Str) (now : Time) : Type 0 where
  pub payload : Str
  pub decoded : c.decode nonce ≡ some (payload ++ mac c s payload)
  pub whole : length (payload ++ mac c s payload) ≡ nonce_len
  pub small : uint 0 (take nonce_ts_len payload) ≤ max_int64
  pub fresh : in_window c s (unix (pos (uint 0 (take nonce_ts_len payload)))) now ≡ true

validate_raw-IsMinted :
    (c : NonceCodec) (s : SignedNonce) (nonce raw : Str) (now : Time)
    → c.decode nonce ≡ some raw
    → validate_raw c s raw now ≡ true
    → IsMinted c s nonce now
unfolding validate_raw
validate_raw-IsMinted c s nonce raw now e h =
    let tag : drop nonce_payload raw ≡ mac c s (take nonce_payload raw) =
      (eq_iff (drop nonce_payload raw) (mac c s (take nonce_payload raw))).0 (ground arith) in
    let built : raw ≡ take nonce_payload raw ++ mac c s (take nonce_payload raw) =
      sym (take-drop-append nonce_payload raw) ∙ ap (λ t. take nonce_payload raw ++ t) tag in
    record {
      payload = take nonce_payload raw;
      decoded = e ∙ ap some built;
      whole = ap length (sym built) ∙ ground arith;
      small = ground arith;
      fresh = ground arith;
    }

-- `Validate` accepts nothing but a nonce whose code is valid under the secret and whose stamp lies
-- in the window; whatever does not decode, is of another length or carries another code is
-- refused.
pub validate-IsMinted :
    (c : NonceCodec) (s : SignedNonce) (nonce : Str) (now : Time)
    → validate c s nonce now ≡ true
    → IsMinted c s nonce now
unfolding validate
validate-IsMinted c s nonce now h = elim (Option-cases (c.decode nonce)) [
  | inl bad ↦ absurd (ground arith)
  | inr (raw, e) ↦ validate_raw-IsMinted c s nonce raw now e (ground arith)
]
