-- ===== src/Validation/Current.antt =====
-- When src/validation.ts takes a requirement to be current.
use x.Prelude.{ℕ, ◌≤◌, ◌<◌, ◌≡◌, ◌≢◌, ◌↔◌, some, [], ok, date_parse, time_ms, arith, eq_iff}
use x.Types.{x424_version, HumanRequirement}
use x.Validation.{assert_requirement_current}

pub record IsCurrent (r : HumanRequirement) (now : ℕ) : Type 0 where
  pub version : r.version ≡ x424_version
  pub named : r.dependency_id ≢ ""
  pub nonce : r.nonce ≢ ""
  pub accepting : r.accepts ≢ []
  pub created_at : date_parse r.created_at ≡ some (time_ms r.created_at)
  pub expires_at : date_parse r.expires_at ≡ some (time_ms r.expires_at)
  pub begun : time_ms r.created_at ≤ now
  pub running : now < time_ms r.expires_at

pub IsCurrent-sound :
    (r : HumanRequirement) (now : ℕ) → assert_requirement_current r now ≡ ok tt → IsCurrent r now
unfolding assert_requirement_current
IsCurrent-sound r now h =
    ground (arith, eq_iff r.version x424_version, eq_iff r.dependency_id "", eq_iff r.nonce "")

pub current_complete :
    (r : HumanRequirement) (now : ℕ) → IsCurrent r now → assert_requirement_current r now ≡ ok tt
unfolding assert_requirement_current
current_complete r now c =
    ground (arith, eq_iff r.version x424_version, eq_iff r.dependency_id "", eq_iff r.nonce "")

-- A requirement passes the check exactly if its version is the supported one, it has a dependency
-- ID, a nonce and an accepted method, both its timestamps are readable, it was created no later
-- than now and it expires after now.
pub assert_requirement_current_iff :
    (r : HumanRequirement) (now : ℕ) → (assert_requirement_current r now ≡ ok tt) ↔ IsCurrent r now
assert_requirement_current_iff r now = (IsCurrent-sound r now, current_complete r now)
