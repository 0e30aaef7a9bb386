-- ===== src/Transport/Mcp/Gate/Laws.antt =====
-- transport/mcpauth/toolgate.go: a call reaches its tool exactly when the policy lets it, and a
-- list shows exactly the tools that can be called.
use mcp_auth_go.Prelude.{
  Str, str, ◌==◌, Bool, true, false, Option, none, some, List, [], ◌∷◌, Time, keep, is_some, not,
  ◌≡◌, refl, sym, ap, subst, ◌∙◌, ◌↔◌, ◌⊎◌, inl, inr, Has, Option-cases, Bool-cases,
}
use mcp_auth_go.Core.Errors.{GoError, new_error}
use mcp_auth_go.Core.Claims.{Claims}
use mcp_auth_go.Core.Context.{Ctx}
use mcp_auth_go.Audit.{Event, granted, denied}
use mcp_auth_go.Transport.Mcp.Tokens.{claims_from_context}
use mcp_auth_go.Transport.Mcp.Gate.Policies.{
  no_claims, Forbids, Callable, Permits, evaluate-Permits, evaluate-Forbids,
}
use mcp_auth_go.Transport.Mcp.Gate.Records.{
  Tells, TellsUnknown, Disclosed, Recorded, refusal-Disclosed, tool_event-Tells,
  unauthenticated_event-TellsUnknown, record_event-Recorded,
}
use mcp_auth_go.Transport.Mcp.Gate.{
  Params, call_tool_params, Tool, list_tools_result, McpResult, Handler, ToolGate,
  err_unauthenticated, reason_of, denial, tool_event, unauthenticated_event, evaluate, record_event,
  gate_call, visible, filter_result, filter_list, gate,
}

Bool-ne : true ≡ false → ⊥
Bool-ne h = cc

Has-keep :
    {A : Type 0} (p : A → Bool) (a : A) (l : List A) → Has a (keep p l) ↔ (Has a l × (p a ≡ true))
Has-keep p a [] = (λ h. absurd h, λ h. absurd h.0)
Has-keep p a (b ∷ l) =
    let (f, g) = Has-keep p a l in
    elim (Bool-cases (p b)) [
      | inl e ↦ rw e (
        λ h. elim h [ inl s ↦ (inl s, ap p (sym s) ∙ e) | inr t ↦ (inr (f t).0, (f t).1) ],
        λ (h, k). elim h [ inl s ↦ inl s | inr t ↦ inr (g (t, k)) ],
      )
      | inr e ↦ rw e (
        λ h. (inr (f h).0, (f h).1),
        λ (h, k). elim h [ inl s ↦ absurd (Bool-ne (sym k ∙ ap p (sym s) ∙ e)) | inr t ↦ g (t, k) ],
      )
    ]

same_claims : {A : Type 0} (o : Option A) (a b : A) → o ≡ some a → o ≡ some b → a ≡ b
same_claims o a b e f = cc

passes : {A : Type 0} (o : Option A) → not (is_some o) ≡ true → o ≡ none
passes none h = refl
passes (some a) h = cc

module _ {W : Type 0} where
  -- The answers to a call. The claims may call the tool, and it gets the call behind the record; the
  -- policy refuses the claims, and the record and the answer disclose the refusal; or there are no
  -- claims.
  abbrev pub CallAnswer :
      ToolGate W
      → Handler W
      → Time
      → W
      → Ctx
      → Str
      → Str
      → W × Option McpResult × Option GoError
      → Type 0
  CallAnswer g next now w ctx tool args call =
      (e : Event) × (w' : W) × Recorded g w e w'
      × (((claims : Claims) × Callable g ctx claims tool
            × Tells claims tool granted [] now e
            × (call ≡ next w' ctx (str "tools/call") (call_tool_params tool args)))
          ⊎ (((claims : Claims) × (err : GoError) × (reason : Str) × (answer : GoError)
                × (claims_from_context ctx ≡ some claims)
                × Forbids g ctx claims tool err
                × Disclosed err reason answer
                × Tells claims tool denied reason now e
                × (call ≡ (w', none, some answer)))
              ⊎ ((claims_from_context ctx ≡ none)
                  × TellsUnknown tool now e
                  × (call
                      ≡ (w', none, some (new_error "forbidden: request is not authenticated"))))))

  -- A call of a tool makes one record, which goes to the sink of the gate if there is one, and is then
  -- answered in one of three ways. With claims that the tool's policy lets pass, or for which there is
  -- no policy, the record says `granted`, and the call reaches the tool as it is. With claims that the
  -- policy refuses, the record says `denied` with the code of the first library error in the refusal,
  -- and the answer is that error's message without its cause; if there is no such error, both are
  -- `forbidden`. Without claims, the record says `denied` and `unauthenticated`, and the answer is a
  -- fixed error. A record names the tool, the instant, and the subject, issuer, scopes and address of
  -- the claims.
  pub gate_call-cases :
      (g : ToolGate W) (next : Handler W) (now : Time) (w : W) (ctx : Ctx) (tool args : Str)
      → CallAnswer g next now w ctx tool args
          (gate g next now w ctx (str "tools/call") (call_tool_params tool args))
  unfolding gate gate_call err_unauthenticated ◌==◌
  gate_call-cases g next now w ctx tool args = elim (Option-cases (claims_from_context ctx)) [
    | inl e ↦
        let event = unauthenticated_event tool now in
        (
          event,
          record_event g w event,
          record_event-Recorded g w event,
          inr (inr (e, unauthenticated_event-TellsUnknown tool now, rw (e, gate_call))),
        )
    | inr (claims, e) ↦ elim (Option-cases (evaluate g ctx claims tool)) [
      | inl f ↦
          let event = tool_event claims tool granted [] now in
          (
            event,
            record_event g w event,
            record_event-Recorded g w event,
            inl (
              claims,
              (e, (evaluate-Permits g ctx claims tool).0 f),
              tool_event-Tells claims tool granted [] now,
              rw (e, f, gate_call),
            ),
          )
      | inr (err, f) ↦
          let event = tool_event claims tool denied (reason_of err) now in
          (
            event,
            record_event g w event,
            record_event-Recorded g w event,
            inr (
                inl (
                  claims,
                  err,
                  reason_of err,
                  denial err,
                  e,
                  evaluate-Forbids g ctx claims tool err f,
                  refusal-Disclosed err,
                  tool_event-Tells claims tool denied (reason_of err) now,
                  rw (e, f, gate_call),
                )),
          )
    ]
  ]

  -- The tools that a caller sees.
  Has-visible :
      (g : ToolGate W) (ctx : Ctx) (tool : Tool) (tools : List Tool)
      → Has tool (visible g ctx tools)
        ↔ (Has tool tools × ((claims : Claims) × Callable g ctx claims tool.name))
  unfolding visible
  Has-visible g ctx tool tools = elim (Option-cases (claims_from_context ctx)) [
    | inl e ↦
        let none_seen : visible g ctx tools ≡ [] = rw (e, visible) in
        (
          λ h. absurd (subst (λ x. Has tool x) none_seen h),
          λ (_, (claims, (f, _))). absurd (no_claims (claims_from_context ctx) claims e f),
        )
    | inr (claims, e) ↦
        let seen : visible g ctx tools
            ≡ keep (λ t. not (is_some (evaluate g ctx claims t.name))) tools =
          rw (e, visible) in
        let (f, k) = Has-keep (λ t. not (is_some (evaluate g ctx claims t.name))) tool tools in
        (
          λ h.
              let (member, pass) = f (subst (λ x. Has tool x) seen h) in
              (
                member,
                (
                  claims,
                  (
                    e,
                    (evaluate-Permits g ctx claims tool.name).0
                        (passes (evaluate g ctx claims tool.name) pass),
                  ),
                ),
              ),
          λ (member, (claims', (e', pass))).
              let same : claims' ≡ claims =
                same_claims (claims_from_context ctx) claims' claims e' e in
              let pass' : evaluate g ctx claims tool.name ≡ none =
                (evaluate-Permits g ctx claims tool.name).1
                  (subst (λ c. Permits g ctx c tool.name) same pass) in
              subst (λ x. Has tool x) (sym seen) (k (member, ap (λ o. not (is_some o)) pass')),
        )
  ]

  -- A list of tools that the server answers with reaches the caller with its meta data and its
  -- cursor, and holds exactly those of its tools for which the context has claims and a call would
  -- pass the tool's policy.
  pub gate-list :
      (g : ToolGate W) (next : Handler W) (now : Time) (w w' : W) (ctx : Ctx) (req : Params)
      (meta cursor : Str) (tools : List Tool)
      → next w ctx (str "tools/list") req ≡ (w', some (list_tools_result meta cursor tools), none)
      → (shown : List Tool) × (gate g next now w ctx (str "tools/list") req
          ≡ (w', some (list_tools_result meta cursor shown), none))
        × ((tool : Tool)
            → Has tool shown
              ↔ (Has tool tools × ((claims : Claims) × Callable g ctx claims tool.name)))
  unfolding gate filter_list filter_result ◌==◌
  gate-list g next now w w' ctx req meta cursor tools h =
      (visible g ctx tools, rw h, λ tool. Has-visible g ctx tool tools)
