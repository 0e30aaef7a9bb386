-- ===== src/Lib.antt =====
-- Verification library of mcp-auth-go: the validation of bearer tokens, proofs of possession (DPoP),
-- session limits, the HTTP and MCP transports, the audit events, the token exchange and the
-- introspection of opaque tokens.
--
-- How the parts interact. A transport takes the bearer token of a request, has a `TokenValidator`
-- (Validator, MultiValidator or the introspection's Validator) make claims of it, has the DPoP
-- verifier check the proof of possession against the claims' confirmation, and passes the claims on
-- in the context; policies and the tool gate decide on the claims; the exchange takes the caller's
-- token from the context to an authorization server.
--
-- Files and what they model, by the names of the functions there:
--   Core/Errors      errors.go: Error, its sentinels, With, Is, Unwrap, and results as values
--   Core/Claims      claims.go: claimsFromToken, scopesFromToken, splitScopes
--   Core/Context     context.go: WithClaims, ClaimsFrom, WithRawToken, RawTokenFrom
--   Core/Policy      verifier.go and authorizer.go: claim verifiers, authorizers, combinators
--   Core/Validator   validator.go and multivalidator.go: NewValidator, Validate, routing by issuer
--   Core/Session     session.go: the in-memory session store
--   Core/SessionId   session_id.go: the ids of random bytes
--   Dpop/Replay      dpop/replay.go: MemoryReplayCache
--   Dpop/Redis       dpop/redisreplay/cache.go: the replay cache in Redis, with its failure modes
--   Dpop/Nonce       dpop/nonce.go: SignedNonce
--   Dpop/Verifier    dpop/verifier.go and dpop/proof.go: NewVerifier, Enforce, checkProof
--   Transport/Wire   transport/http/middleware.go: requests, responses, requestURL, sanitizeQuoted
--   Transport/Http   transport/http: the middleware and the metadata handler
--   Transport/Mcp    transport/mcpauth: ToolGate, the token verifier, ContextBridge, challengeWriter,
--                    RequireBearerToken
--   Audit            audit/event.go and audit/sink.go: events, labels, sinks; Audit/Otel is
--                    audit/otel/sink.go
--   Exchange         exchange: Exchange, RedeemAssertion, the retry loop, TokenForCaller, MemoryCache
--   Exchange/Downstream  exchange/idjag.go: NewDownstreamProvider and Provide, and NewExchanger
--   Exchange/Proof   exchange/clientauth.go and exchange/dpop.go: the client's authentication
--   Introspection    introspection: NewValidator, Validate, the response and its claims, the
--                    authentications of the client, MemoryCache
-- Each has child modules for its proofs, and a module Tests that runs the theorems at samples.
--
-- How it is modelled. A string is its sequence of bytes; a map is an association list with one
-- entry for each key; an instant is a number of nanoseconds from the
-- Unix epoch, as an integer, and Sub saturates as it does in Go; a step that can fail returns a
-- result with the error as a value. What the program keeps in memory is passed as a state, and each
-- method that holds a mutex is one step, so that concurrent use is a sequence of calls. An instant
-- that the code reads from a clock is an argument; a request reads the clock of the middleware and that
-- of the proof verifier at one instant, and that of a cache at its own. A DPoP mode is one of the two
-- that have a name. Random bytes and fresh ids are arguments.
-- jwx, HMAC, SHA-256, base64, net/url, encoding/json, the HTTP client, Redis, the MCP SDK and the
-- rate limiter are parameters, with hypotheses named where a theorem needs one.
--
-- Bounds. The retry loop of the exchange runs on its two attempts; the loops that cut white space
-- and fields run on the length of the text, since each pass takes a byte or more. The seconds of a
-- Retry-After header are rounded up exactly, where the code goes through a float64. The lifetime of
-- an exchanged token, and the instant of an expiry in seconds, wrap around at 64 bits as they do in
-- Go.
--
-- Not modelled: the text of errors and of diagnostic logs, the panics of MustClaims and of the
-- constructors, and the helpers of tests. The key of a verdict in the cache is a parameter, a digest
-- of the token.
mod Prelude
pub mod Core
pub mod Dpop
pub mod Transport
pub mod Audit
pub mod Exchange
pub mod Introspection
