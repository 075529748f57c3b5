-- ===== src/Http/Verified.antt =====
-- What a call of `verifyHumanProofHeader` in src/http.ts that returns has done.
use x.Prelude.{ℕ, Bool, true, false, not, ◌&&◌, Option, none, some, List, ok, ◌≡◌, arith, is_some}
use x.Types.{HumanRequirement, HumanResult}
use x.Catalog.{Catalog}
use x.Policy.{evaluate_human_result}
use x.Effects.{>>=-eq-ok, throw_when-eq-ok, lift-eq-ok}
use x.Tokens.{Verifier, verify_human_result_token}
use x.Tokens.External.{Platform}
use x.Http.{Consume, consume_once, verify_human_proof_header}

-- The replay store, if there is one, answered that the result was not used before.
pub data WasUnused {S : Type 0} (result : HumanResult) (now : ℕ) : Option (Consume S) → Type 0 where
  no_store : WasUnused result now none
  first_use :
      {consume : Consume S} (s : S)
      → (consume result.result_id result.expires_at now s).1 ≡ ok true
      → WasUnused result now (some consume)

consume_once-WasUnused :
    {S : Type 0} (store : Option (Consume S)) (result given : HumanResult) (now : ℕ) (s t : S)
    → consume_once store result now s ≡ (t, ok given)
    → (given ≡ result) × WasUnused result now store
unfolding consume_once
consume_once-WasUnused none result given now s t h = (ground arith, no_store)
consume_once-WasUnused (some consume) result given now s t h =
    let (u, unused, e, h1) =
      >>=-eq-ok {A = Bool} (consume result.result_id result.expires_at now) _ s h in
    let (yes', h2) = throw_when-eq-ok (not unused) _ _ u h1 in
    (ground arith, first_use s (ground arith))

pub verify_human_proof_header_returned :
    {S : Type 0} (p : Platform) (human_proof : List ℕ) (requirement : HumanRequirement)
    (verifier : Verifier p) (catalog : Catalog) (store : Option (Consume S)) (require : Bool)
    (now : ℕ) (s t : S) (result : HumanResult)
    → verify_human_proof_header p human_proof requirement verifier catalog store require now s
      ≡ (t, ok result)
    → ((require && not (is_some store)) ≡ false)
      × (verify_human_result_token p human_proof verifier ≡ ok result)
      × ((evaluate_human_result requirement result catalog now).satisfied ≡ true)
      × WasUnused result now store
unfolding verify_human_proof_header
verify_human_proof_header_returned p human_proof requirement verifier catalog store require now s t
      result h =
    let (stored, h1) = throw_when-eq-ok (require && not (is_some store)) _ _ s h in
    let (found, verified, h2) =
      lift-eq-ok {A = HumanResult} (verify_human_result_token p human_proof verifier) _ s h1 in
    let (satisfied, h3) =
      throw_when-eq-ok (not (evaluate_human_result requirement found catalog now).satisfied) _ _ s
        h2 in
    let (same, unused) = consume_once-WasUnused store found result now s t h3 in
    rw same (stored, verified, ground arith, unused)
