-- ===== src/Lib.antt =====
-- The verifier of x424: a resource asks for proof of a human (a requirement), a provider checks the
-- proof, and the verifier issues a result that the resource evaluates.
--
-- Parts and files:
--   * Prelude, Effects: tests, lists, options, errors, instants, maps and texts of the source
--     language, and calls that change a state and may throw.
--   * Types: src/types.ts. Wire has the wire objects, Enums the unions of strings, Values what is
--     typed `unknown`, Stores the inputs of stores.
--   * Validation: src/validation.ts, the checks of a requirement and of a proof against it.
--   * Catalog: src/catalog.ts, the catalog of methods (`define_method_catalog`).
--   * Policy: src/policy.ts, `evaluate_human_result` with one test for each of its checks.
--     Policy/Acceptable says when a result is acceptable.
--   * Stores: the in-memory stores. Nonce, Replay, Acceptance and Provider are those of
--     src/nonce-store.ts, Requirements that of src/requirement-store.ts with its tenants. The child
--     modules called Runs treat calls in any order.
--   * Keys: src/keys/managed.ts. Providers: src/provider-sdk.ts and the adapter of
--     src/types.ts; Definition has the functions that define them.
--   * Service: src/service.ts. Backends has the interfaces of the two stores that the verifier is
--     given, with the laws it relies on, and the in-memory stores as implementations; Setup the
--     constructor; Methods `register` and `satisfy`.
--   * Handoff: src/handoff.ts. Store is the in-memory store, Transitions the records that the service
--     writes, Start, Claim, Poll and Cancel its methods. Interleaving is the step relation of any
--     number of calls at a time: reads, creations, and compare-and-swaps of records that were read.
--     The child modules Interleaved relate the methods to it; the child modules Outcome say what a
--     call leaves and answers.
--   * Limits: src/ops/limits.ts.
--   * Encoding: src/encoding.ts, base64url over bytes, with `btoa` and `atob` in Base64.
--   * Canonical: src/canonical.ts and src/canonical-json.ts. Values has the values of the language,
--     Normal `normalize`, Print `JSON.stringify`; the parent has body inputs and request digests.
--   * Requirements: src/requirements.ts, `create_human_requirement`.
--   * Tokens: src/result-token.ts, the signing and the verification of result tokens.
--   * Transport: src/transport.ts, the way a requirement travels, the merging of Vary, and the URLs.
--   * Http: src/http.ts, the acceptance of a token and the answer with status 424.
--   * Resource: src/middleware/resource.ts. Options has the options and their checks, the parent the
--     challenge (`issue_challenge`) and the acceptance (`accept_human_proof`), Flow the two entry
--     points, Headers the guards on the headers of a response.
--   * Issuance: src/auth/issuance.ts. Principal has the validation of principals, over the values of
--     Canonical; Paths the paths of grants; Bearer the authenticator; the parent the authorization.
--   * Tests: examples of the theorems.
--
-- How the model corresponds to the code: names are the source's, in snake case. A class is the record
-- of its private fields, a method a function from the state to the state and what it returns. A
-- thrown `Error` is its message. A method of an in-memory store awaits nothing, and is one step. The
-- readings of the clock, random UUIDs and tokens are arguments. An instant is a number of
-- milliseconds from the epoch on; a timestamp is the text of an instant or a text that `Date.parse`
-- reads as NaN; numbers are natural numbers. `Map` is a list of entries in insertion order. Run-time
-- tests that the types make superfluous, the freezing of copies, and the field `satisfied: true` are
-- left out. A comparison in constant time is a comparison. Every loop is over a list, by
-- recursion on it; only the digits of a number take fuel, and the number itself is enough.
--
-- Parameters: `hmac` and `sha256` for the functions of Node, `sign` for the signing of a result,
-- `parse` for the platform's URL, adapters, derivers and protectors as records of functions. The
-- record `Platform` of Tokens has Ed25519, UTF-8, `JSON.parse`, and the schema and the JSON text of a
-- result; `UrlParser` of Transport has `URL`. The digest of a bearer token is an argument. The stores
-- of Resource are functions on a state: a call takes in what other requests do to the state while it
-- is awaited.
--
-- Not modelled: schemas (src/schemas.ts, declarations for a library), clients, agents, the API,
-- the strength of bearer credentials, metadata, managed deployments, the stores in PostgreSQL and
-- Redis (their SQL and Lua run elsewhere), the World ID provider and the x402 bridge (calls of other
-- services), the text of problems and logs, and command lines.
mod Prelude
pub mod Types
pub mod Validation
pub mod Catalog
pub mod Encoding
pub mod Canonical
pub mod Requirements
pub mod Tokens
pub mod Transport
pub mod Http
pub mod Resource
pub mod Issuance
pub mod Policy
mod Effects
pub mod Keys
pub mod Providers
pub mod Service
pub mod Handoff
pub mod Limits
pub mod Stores
mod Tests
