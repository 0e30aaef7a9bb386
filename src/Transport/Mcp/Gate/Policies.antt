-- ===== src/Transport/Mcp/Gate/Policies.antt =====
-- transport/mcpauth/toolgate.go: which policy governs a tool, and what it says of a caller.
use mcp_auth_go.Prelude.{
  Str, Option, none, some, lookup, ◌≡◌, sym, subst, ◌∙◌, ◌↔◌, ◌⊎◌, inl, inr, Option-cases,
}
use mcp_auth_go.Core.Errors.{GoError}
use mcp_auth_go.Core.Claims.{Claims}
use mcp_auth_go.Core.Context.{Ctx}
use mcp_auth_go.Core.Policy.{Authorizer}
use mcp_auth_go.Transport.Mcp.Tokens.{claims_from_context}
use mcp_auth_go.Transport.Mcp.Gate.{ToolGate, policy_for, evaluate}

pub no_claims : {A : Type 0} (o : Option A) (a : A) → o ≡ none → o ≡ some a → ⊥
no_claims o a e f = cc

module _ {W : Type 0} where
  -- The policy of a tool is the one that the map has for it, and the default where it has none.
  abbrev pub Governs : ToolGate W → Str → Option Authorizer → Type 0
  Governs g tool policy =
      (lookup tool g.policies ≡ some policy)
      ⊎ ((lookup tool g.policies ≡ none) × (g.default ≡ policy))

  -- No policy governs the tool, or one that lets the claims pass.
  abbrev pub Permits : ToolGate W → Ctx → Claims → Str → Type 0
  Permits g ctx claims tool =
      Governs g tool none
      ⊎ ((policy : Authorizer) × Governs g tool (some policy) × (policy ctx claims ≡ none))

  -- The policy that governs the tool refuses the claims with this error.
  abbrev pub Forbids : ToolGate W → Ctx → Claims → Str → GoError → Type 0
  Forbids g ctx claims tool err =
      (policy : Authorizer) × Governs g tool (some policy) × (policy ctx claims ≡ some err)

  policy_for-Governs : (g : ToolGate W) (tool : Str) → Governs g tool (policy_for g tool)
  unfolding policy_for
  policy_for-Governs g tool = elim (Option-cases (lookup tool g.policies)) [
    | inl e ↦ inr (e, rw (e, policy_for))
    | inr (p, e) ↦ inl (rw (e, policy_for))
  ]

  Governs-policy_for :
      (g : ToolGate W) (tool : Str) (policy : Option Authorizer)
      → Governs g tool policy
      → policy_for g tool ≡ policy
  unfolding policy_for
  Governs-policy_for g tool policy h = elim h [
    | inl e ↦ rw (e, policy_for)
    | inr (e, d) ↦ rw (e, policy_for, d)
  ]

  evaluate-none :
      (g : ToolGate W) (ctx : Ctx) (claims : Claims) (tool : Str)
      → policy_for g tool ≡ none
      → evaluate g ctx claims tool ≡ none
  unfolding evaluate
  evaluate-none g ctx claims tool e = rw (e, evaluate)

  evaluate-some :
      (g : ToolGate W) (ctx : Ctx) (claims : Claims) (tool : Str) (p : Authorizer)
      → policy_for g tool ≡ some p
      → evaluate g ctx claims tool ≡ p ctx claims
  unfolding evaluate
  evaluate-some g ctx claims tool p e = rw (e, evaluate)

  pub evaluate-Permits :
      (g : ToolGate W) (ctx : Ctx) (claims : Claims) (tool : Str)
      → (evaluate g ctx claims tool ≡ none) ↔ Permits g ctx claims tool
  evaluate-Permits g ctx claims tool = (
    λ h. elim (Option-cases (policy_for g tool)) [
      | inl e ↦ inl (subst (Governs g tool) e (policy_for-Governs g tool))
      | inr (p, e) ↦ inr (
        p,
        subst (Governs g tool) e (policy_for-Governs g tool),
        sym (evaluate-some g ctx claims tool p e) ∙ h,
      )
    ],
    λ h. elim h [
      | inl u ↦ evaluate-none g ctx claims tool (Governs-policy_for g tool none u)
      | inr (p, u, pass) ↦
          evaluate-some g ctx claims tool p (Governs-policy_for g tool (some p) u) ∙ pass
    ],
  )

  pub evaluate-Forbids :
      (g : ToolGate W) (ctx : Ctx) (claims : Claims) (tool : Str) (err : GoError)
      → evaluate g ctx claims tool ≡ some err
      → Forbids g ctx claims tool err
  evaluate-Forbids g ctx claims tool err h = elim (Option-cases (policy_for g tool)) [
    | inl e ↦ absurd (no_claims _ err (evaluate-none g ctx claims tool e) h)
    | inr (p, e) ↦ (
      p,
      subst (Governs g tool) e (policy_for-Governs g tool),
      sym (evaluate-some g ctx claims tool p e) ∙ h,
    )
  ]

  -- The context has claims, and the tool's policy lets them call it.
  abbrev pub Callable : ToolGate W → Ctx → Claims → Str → Type 0
  Callable g ctx claims tool = (claims_from_context ctx ≡ some claims) × Permits g ctx claims tool
