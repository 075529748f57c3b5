-- ===== src/Validation/Accepted.antt =====
-- Which method src/validation.ts selects for a proof.
use x.Prelude.{◌≡◌, some, List, [], ◌∷◌, ok, arith, eq_iff, find, true, Bool, Bool-cases, inl, inr}
use x.Types.{x424_version, HumanRequirement, HumanProofSubmission, HumanMethodRequirement}
use x.Validation.{accepted_method_for_proof, is_method}
use mathlib.Core.List.{Mem, mem-cons_self, mem-cons_of_mem}

pub record IsAcceptedFor (r : HumanRequirement) (p : HumanProofSubmission)
    (m : HumanMethodRequirement) : Type 0 where
  pub version : p.version ≡ x424_version
  pub dependency : p.dependency_id ≡ r.dependency_id
  pub binding_kind : p.binding.kind ≡ r.binding.kind
  pub binding_value : p.binding.value ≡ r.binding.value
  pub provider : m.provider_id ≡ p.provider_id
  pub method : m.method_id ≡ p.method_id
  pub listed : Mem m r.accepts

pub find-true {ℓ} :
    {A : Type ℓ} (p : A → Bool) (l : List A) (a : A) → find p l ≡ some a → p a ≡ true
find-true p [] a h = ground arith
find-true p (b ∷ l) a h = ground (arith, find-true p l a)

pub find-Mem {ℓ} : {A : Type ℓ} (p : A → Bool) (l : List A) (a : A) → find p l ≡ some a → Mem a l
find-Mem p [] a h = absurd (ground arith)
find-Mem p (b ∷ l) a h = elim (Bool-cases (p b)) [
  | inl found ↦ let same : a ≡ b = ground arith in rw same mem-cons_self
  | inr other ↦ mem-cons_of_mem b (find-Mem p l a (ground arith))
]

-- A method is selected only for a proof of the supported version that names the requirement's
-- dependency and has its binding; it is one of the accepted methods and has the proof's provider
-- and method.
pub accepted_method-IsAcceptedFor :
    (r : HumanRequirement) (p : HumanProofSubmission) (m : HumanMethodRequirement)
    → accepted_method_for_proof r p ≡ ok m
    → IsAcceptedFor r p m
unfolding accepted_method_for_proof
accepted_method-IsAcceptedFor r p m h =
    let found : find (is_method p.provider_id p.method_id) r.accepts ≡ some m = ground (arith) in
    let fits = find-true (is_method p.provider_id p.method_id) r.accepts m found in
    record {
      version = ground (arith, eq_iff p.version x424_version);
      dependency = ground (arith, eq_iff p.dependency_id r.dependency_id);
      binding_kind = ground arith;
      binding_value = ground (arith, eq_iff p.binding.value r.binding.value);
      provider = ground (arith, eq_iff m.provider_id p.provider_id);
      method = ground (arith, eq_iff m.method_id p.method_id);
      listed = find-Mem (is_method p.provider_id p.method_id) r.accepts m found;
    }
