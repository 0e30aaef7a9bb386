-- ===== src/Core/Errors/Laws.antt =====
-- errors.go: what `With` keeps, and what `Is` and `As` see through a chain of causes.
use mcp_auth_go.Prelude.{
  Bool, false, Option, none, eq_refl, eq_iff, ◌≡◌, refl, ◌⊎◌, inl, inr, ◌↔◌, true, some, arith,
}
use mcp_auth_go.Core.Errors.{
  GoError, Result, ok, fail, fail_if, check, ◌>>=◌, AuthError, with_cause, reject, as_auth_error,
  is_error, is_cause,
}

-- A copy of an error made by `With` is matched by `Is` against a target exactly when the codes
-- agree or the new cause matches, and `As` finds the copy, whose code, message, document and
-- status are those of the original.
pub is_error-with_cause :
    (t e : AuthError) (c : GoError)
    → ((is_error t (reject e c) ≡ true) ↔ ((e.code ≡ t.code) ⊎ (is_error t c ≡ true)))
      × (as_auth_error (reject e c) ≡ some (with_cause e c))
      × ((with_cause e c).code ≡ e.code)
      × ((with_cause e c).message ≡ e.message)
      × ((with_cause e c).http_status ≡ e.http_status)
unfolding is_error is_cause as_auth_error
is_error-with_cause t e c = (
  (λ h. ground (arith, eq_iff e.code t.code), λ h. ground (arith, eq_iff e.code t.code)),
  refl,
  refl,
  refl,
  refl,
)

pub is_error-reject : (e : AuthError) (c : GoError) → is_error e (reject e c) ≡ true
unfolding is_error is_cause
is_error-reject e c = ground (arith, eq_refl e.code)

-- Inversion of a chain of steps that succeeds.
pub >>=-eq-ok {ℓ κ} :
    {S : Type ℓ} {T : Type κ} (r : Result S) (rest : (x : S) → Result T) {y : T}
    → (r >>= rest) ≡ ok y
    → (x : S) × (r ≡ ok x) × (rest x ≡ ok y)
>>=-eq-ok (fail e) rest h = cc
>>=-eq-ok (ok x) rest h = (x, refl, h)

pub fail_if-eq-ok : (b : Bool) (e : GoError) (u : Unit {0}) → fail_if b e ≡ ok u → b ≡ false
fail_if-eq-ok true e u h = cc
fail_if-eq-ok false e u h = refl

pub check-eq-ok : (o : Option GoError) (u : Unit {0}) → check o ≡ ok u → o ≡ none
check-eq-ok none u h = refl
check-eq-ok (some e) u h = cc

pub Result-cases {ℓ} :
    {A : Type ℓ} (r : Result A) → ((a : A) × (r ≡ ok a)) ⊎ ((e : GoError) × (r ≡ fail e))
Result-cases (ok a) = inl (a, refl)
Result-cases (fail e) = inr (e, refl)
