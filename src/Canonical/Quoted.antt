-- ===== src/Canonical/Quoted.antt =====
-- A quoted text of `JSON.stringify` determines its text and where it ends.
use x.Prelude.{
  ℕ, List, [], ◌∷◌, ◌++◌, ◌≡◌, ◌≢◌, sym, ◌∙◌, refl, arith, String, codes, codes_injective,
}
use x.Canonical.Print.{escape, escape_all, quoted}

escape_split : (c d : ℕ) (x y : List ℕ) → escape c ++ x ≡ escape d ++ y → (c ≡ d) × (x ≡ y)
unfolding escape
escape_split c d x y h = ground arith

not_quote : (c : ℕ) (x r : List ℕ) → escape c ++ x ≢ 34 ∷ r
unfolding escape
not_quote c x r = λ h. ground arith

append_again : (a b c : List ℕ) → (a ++ b) ++ c ≡ a ++ (b ++ c)
append_again [] b c = refl
append_again (x ∷ a) b c = cc (append_again a b c)

escape_all_split :
    (a b r q : List ℕ) → escape_all a ++ (34 ∷ r) ≡ escape_all b ++ (34 ∷ q) → (a ≡ b) × (r ≡ q)
unfolding escape_all
escape_all_split [] [] r q h = (refl, ground arith)
escape_all_split [] (d ∷ b) r q h =
    absurd (not_quote d (escape_all b ++ (34 ∷ q)) r (sym (h ∙ append_again (escape d) _ _)))
escape_all_split (c ∷ a) [] r q h =
    absurd (not_quote c (escape_all a ++ (34 ∷ r)) q (sym (append_again (escape c) _ _) ∙ h))
escape_all_split (c ∷ a) (d ∷ b) r q h =
    let (heads, tails) =
      escape_split c d _ _ (sym (append_again (escape c) _ _) ∙ h ∙ append_again (escape d) _ _) in
    let (same, rest) = escape_all_split a b r q tails in (cc, rest)

pub quoted_split : (s t : String) (r q : List ℕ) → quoted s ++ r ≡ quoted t ++ q → (s ≡ t) × (r ≡ q)
unfolding quoted
quoted_split s t r q h =
    let inner : escape_all (codes s) ++ (34 ∷ r) ≡ escape_all (codes t) ++ (34 ∷ q) =
      sym (append_again (escape_all (codes s)) (34 ∷ []) r)
      ∙ tail h
      ∙ append_again (escape_all (codes t)) (34 ∷ []) q in
    let (same, rest) = escape_all_split (codes s) (codes t) r q inner in
    (codes_injective s t same, rest)
  where
    tail : {x y : List ℕ} → ◌≡◌ {A = List ℕ} (34 ∷ x) (34 ∷ y) → x ≡ y
    tail e = ground arith
