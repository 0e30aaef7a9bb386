-- ===== src/Core/SessionId.antt =====
-- session_id.go: the default ids of sessions. The random bytes are an argument; encoding/hex is
-- modelled, as the ids depend on it.
use mcp_auth_go.Prelude.{
  ℕ, ◌+◌, ◌-◌, ◌*◌, ◌/◌, ◌%◌, ◌<◌, Str, [], ◌∷◌, length, ltb, if◌then◌else◌, ◌≡◌, refl, arith, All,
}

-- A digit of `0123456789abcdef`.
unfoldable pub hex_digit : ℕ → ℕ
hex_digit d = if ltb d 10 then b'0' + d else b'a' + (d - 10)

-- `hex.EncodeToString`.
unfoldable pub hex_encode : Str → Str
hex_encode [] = []
hex_encode (b ∷ buf) = hex_digit (b / 16) ∷ hex_digit (b % 16) ∷ hex_encode buf

-- `randomSessionID`, where the operating system has given these bytes.
unfoldable pub random_session_id : Str → Str
random_session_id buf = hex_encode buf

abbrev pub IsBytes : Str → Type 0
IsBytes buf = All (λ b. b < 256) buf

digit-eq : (a b : ℕ) → a < 16 → b < 16 → hex_digit a ≡ hex_digit b → a ≡ b
unfolding hex_digit
digit-eq a b h k e = ground arith

hex_encode-eq : (s t : Str) → IsBytes s → IsBytes t → hex_encode s ≡ hex_encode t → s ≡ t
unfolding hex_encode
hex_encode-eq [] [] h k e = refl
hex_encode-eq [] (b ∷ t) h k e = cc
hex_encode-eq (a ∷ s) [] h k e = cc
hex_encode-eq (a ∷ s) (b ∷ t) h k e =
    let high : a / 16 ≡ b / 16 =
      digit-eq (a / 16) (b / 16) (omega (arith, h.0)) (omega (arith, k.0)) (cc) in
    let low : a % 16 ≡ b % 16 = digit-eq (a % 16) (b % 16) (omega arith) (omega arith) (cc) in
    let first : a ≡ b = omega (arith, high, low) in
    let rest = hex_encode-eq s t h.1 k.1 (cc) in cc (first, rest)

length-hex_encode : (s : Str) → length (hex_encode s) ≡ 2 * length s
unfolding hex_encode
length-hex_encode [] = refl
length-hex_encode (b ∷ s) = omega (arith, length-hex_encode s)

-- An id has 32 characters, and different random bytes give different ids.
pub random_session_id_lem :
    (buf buf' : Str)
    → IsBytes buf
    → IsBytes buf'
    → length buf ≡ 16
    → (length (random_session_id buf) ≡ 32)
      × (random_session_id buf ≡ random_session_id buf' → buf ≡ buf')
unfolding random_session_id
random_session_id_lem buf buf' h k l =
    (omega (arith, length-hex_encode buf, l), hex_encode-eq buf buf' h k)
