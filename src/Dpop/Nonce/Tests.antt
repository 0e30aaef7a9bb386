-- ===== src/Dpop/Nonce/Tests.antt =====
-- dpop/nonce.go: the theorems at a codec that encodes nothing and a code of zeros.
use mcp_auth_go.Prelude.{
  Str, ◌==◌, some, [], ◌∷◌, ◌++◌, pos, ◌≡◌, refl, true, unix, unix_seconds, sub, ◌+ℤ◌, ◌-ℤ◌, arith,
}
use mcp_auth_go.Dpop.Nonce.{
  NonceCodec, SignedNonce, put_uint, uint, issue_at, issue, in_window, validate_raw, validate,
}
use mcp_auth_go.Dpop.Nonce.Window.{
  IsCodec, IsMinted, validate-issue, validate-IsMinted, uint-put_uint,
}

nonce_code : Unit {0}
unfolding put_uint uint issue_at issue in_window validate_raw validate unix unix_seconds sub ◌+ℤ◌
    ◌-ℤ◌ ◌==◌
nonce_code = tt

abbrev sixteen : Str
sixteen = 1 ∷ 2 ∷ 3 ∷ 4 ∷ 5 ∷ 6 ∷ 7 ∷ 8 ∷ 9 ∷ 1 ∷ 2 ∷ 3 ∷ 4 ∷ 5 ∷ 6 ∷ 7 ∷ []

abbrev codec : NonceCodec
codec = record {
  hmac_sha256 = λ secret payload. sixteen ++ sixteen;
  encode = λ s. s;
  decode = λ s. some s;
}

codec-IsCodec : IsCodec codec
codec-IsCodec = record { decode-encode = λ bytes. refl; length-hmac = λ secret payload. refl }

abbrev source : SignedNonce
source = record { secret = sixteen ++ sixteen; lifetime = pos 300000000000 }

validate-issue_example :
    validate codec source (issue codec source (some sixteen) (unix (pos 100))) (unix (pos 400))
    ≡ true
unfolding nonce_code
validate-issue_example =
    (validate-issue codec codec-IsCodec source sixteen (unix (pos 100)) (unix (pos 400)) 100 refl
        refl (omega arith) (omega arith) (omega arith)).1
      (omega arith, omega arith)

validate-IsMinted_example :
    IsMinted codec source (issue codec source (some sixteen) (unix (pos 100))) (unix (pos 400))
validate-IsMinted_example =
    validate-IsMinted codec source (issue codec source (some sixteen) (unix (pos 100)))
      (unix (pos 400)) validate-issue_example

bytes_of_258 : uint 0 (put_uint 2 258) ≡ 258
bytes_of_258 = uint-put_uint 2 258 (omega arith)
