-- ===== src/Service/Methods/Once.antt =====
-- One dependency is satisfied at most once.
use x.Prelude.{
  ap, ◌∙◌, ℕ, String, Bool, true, false, ◌≡◌, ◌≤◌, ◌+◌, refl, Result, ok, err, List, [], ◌∷◌, ◌&&◌,
  ◌==◌, string_eq, if◌then◌else◌, is_ok, Bool-cases, inl, inr, ◌⊎◌, arith, eq_iff,
}
use x.Types.{HumanRequirement, HumanProofSubmission, HumanResult}
use x.Service.Backends.{NonceBackend, ReplayBackend}
use x.Service.Setup.{X424Service}
use x.Service.Methods.{register, satisfy, check_registration}
use x.Service.Methods.Parts.{satisfy-Issued, satisfy-nonces}

-- A call of the verifier, with what it reads from the clock and the source of random IDs.
pub data Call : Type 0 where
  register_call : HumanRequirement → (now : ℕ) → Call
  satisfy_call :
      HumanRequirement
      → HumanProofSubmission
      → (challenge_checked_at issued_at : ℕ) → (uuid : String) → Call

module _ (nonces : NonceBackend) (replays : ReplayBackend) (sign : HumanResult → Result String)
    (service : X424Service) where
  unfoldable pub step : nonces.State × replays.State → Call → nonces.State × replays.State
  step s (register_call r now) = (register nonces replays sign service r now s).0
  step s (satisfy_call r p t1 t2 uuid) = (satisfy nonces replays sign service r p t1 t2 uuid s).0

  -- Whether a call satisfies this dependency.
  unfoldable pub wins : String → nonces.State × replays.State → Call → Bool
  wins id s (register_call r now) = false
  wins id s (satisfy_call r p t1 t2 uuid) =
      r.dependency_id == id && is_ok (satisfy nonces replays sign service r p t1 t2 uuid s).1

  -- How many calls of a run satisfy this dependency.
  unfoldable pub count_wins : String → nonces.State × replays.State → List Call → ℕ
  count_wins id s [] = 0
  count_wins id s (c ∷ cs) = (if wins id s c then 1 else 0) + count_wins id (step s c) cs

  -- A call that returns has consumed the nonce, and leaves the nonces as the consumption did.
  consumed_of_ok :
      (s : nonces.State × replays.State) (r : HumanRequirement) (p : HumanProofSubmission)
      (t1 t2 : ℕ) (uuid : String)
      → is_ok (satisfy nonces replays sign service r p t1 t2 uuid s).1 ≡ true
      → ((nonces.consume r.dependency_id r.nonce t1 s.0).1 ≡ true)
        × ((satisfy nonces replays sign service r p t1 t2 uuid s).0.0
            ≡ (nonces.consume r.dependency_id r.nonce t1 s.0).0)
  consumed_of_ok s r p t1 t2 uuid h = go (satisfy nonces replays sign service r p t1 t2 uuid s) refl
    where
      go :
          (w : (nonces.State × replays.State) × Result (HumanResult × String))
          → satisfy nonces replays sign service r p t1 t2 uuid s ≡ w
          → ((nonces.consume r.dependency_id r.nonce t1 s.0).1 ≡ true)
            × ((satisfy nonces replays sign service r p t1 t2 uuid s).0.0
                ≡ (nonces.consume r.dependency_id r.nonce t1 s.0).0)
      go (t, ok (result, token)) e =
          let i = satisfy-Issued nonces replays sign service r p t2 uuid t1 s t result token e in
          (i.consumed, ap (λ w. w.0.0) e ∙ i.nonces_after)
      go (t, err m) e = absurd (ground (arith, e))

  IsSpent-step :
      (id : String) (s : nonces.State × replays.State) (c : Call)
      → nonces.IsSpent s.0 id
      → nonces.IsSpent (step s c).0 id
  unfolding step register
  IsSpent-step id s (register_call r now) sp =
      elim (is_checked (check_registration service r now)) [
        | inl e ↦
            rw (e, register, step)
              (nonces.IsSpent-put s.0 id r.dependency_id r.nonce r.expires_at sp)
        | inr (m, e) ↦ rw (e, register, step) sp
      ]
    where
      is_checked : (w : Result (Unit {0})) → (w ≡ ok tt) ⊎ ((m : String) × (w ≡ err m))
      is_checked (ok t) = inl refl
      is_checked (err m) = inr (m, refl)
  IsSpent-step id s (satisfy_call r p t1 t2 uuid) sp =
      elim (satisfy-nonces nonces replays sign service r p t2 uuid t1 s) [
        | inl same ↦ rw same sp
        | inr consumed ↦ rw consumed (nonces.IsSpent-consume s.0 id r.dependency_id r.nonce t1 sp)
      ]

  wins_spent :
      (id : String) (s : nonces.State × replays.State) (c : Call)
      → nonces.IsSpent s.0 id
      → wins id s c ≡ false
  unfolding wins
  wins_spent id s (register_call r now) sp = refl
  wins_spent id s (satisfy_call r p t1 t2 uuid) sp =
      elim (Bool-cases (wins id s (satisfy_call r p t1 t2 uuid))) [
        | inr lost ↦ lost
        | inl won ↦
            let same : r.dependency_id ≡ id = ground (arith, eq_iff r.dependency_id id) in
            let (taken, _) = consumed_of_ok s r p t1 t2 uuid (ground arith) in
            absurd
              (ground (arith, nonces.consume_spent s.0 r.dependency_id r.nonce t1 (rw same sp)))
      ]

  wins-IsSpent :
      (id : String) (s : nonces.State × replays.State) (c : Call)
      → wins id s c ≡ true
      → nonces.IsSpent (step s c).0 id
  unfolding wins step
  wins-IsSpent id s (register_call r now) won = absurd (ground arith)
  wins-IsSpent id s (satisfy_call r p t1 t2 uuid) won =
      let same : r.dependency_id ≡ id = ground (arith, eq_iff r.dependency_id id) in
      let (taken, left) = consumed_of_ok s r p t1 t2 uuid (ground arith) in
      let spent = nonces.consume-IsSpent s.0 r.dependency_id r.nonce t1 taken in
      rw (← same) (rw left spent)

  count_wins_spent :
      (id : String) (s : nonces.State × replays.State) (cs : List Call)
      → nonces.IsSpent s.0 id
      → count_wins id s cs ≡ 0
  unfolding count_wins
  count_wins_spent id s [] sp = refl
  count_wins_spent id s (c ∷ cs) sp =
      ground
        (arith, wins_spent id s c sp, count_wins_spent id (step s c) cs (IsSpent-step id s c sp))

  -- Whatever calls are made, in whatever order and with whatever proofs, at most one of them
  -- satisfies a given dependency.
  pub satisfied-le-one :
      (id : String) (s : nonces.State × replays.State) (cs : List Call) → count_wins id s cs ≤ 1
  unfolding count_wins
  satisfied-le-one id s [] = omega arith
  satisfied-le-one id s (c ∷ cs) = elim (Bool-cases (wins id s c)) [
    | inl won ↦ ground (arith, count_wins_spent id (step s c) cs (wins-IsSpent id s c won))
    | inr lost ↦ ground (arith, satisfied-le-one id (step s c) cs)
  ]
