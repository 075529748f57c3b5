-- ===== src/Issuance/Covered.antt =====
-- A grant of src/auth/issuance.ts covers the paths that begin with its segments, and no others.
use x.Prelude.{
  ℕ, Bool, true, false, ◌&&◌, ◌||◌, not, some, List, [], ◌∷◌, ◌++◌, nat_beq, nat_eq, same_list,
  keep, is_empty, All, Bool-cases, inl, inr, ◌≡◌, refl, ◌∙◌, arith,
}
use x.Tokens.External.{split, first_more}
use x.Issuance.Paths.{
  begins_with, segments_of, slashed, path_of, path_covered, ends_with_slash,
  normalize_authorized_path,
}

-- The one list of segments begins with the other.
abbrev pub starts_with_segments : (segments front : List (List ℕ)) → Bool
starts_with_segments segments [] = true
starts_with_segments [] (t ∷ ts) = false
starts_with_segments (s ∷ ss) (t ∷ ts) = same_list s t && starts_with_segments ss ts

-- A segment is not empty, and has no slash.
abbrev NoSlash : List ℕ → Type 0
NoSlash segment = All (λ c. nat_beq c b'/' ≡ false) segment

abbrev IsSegment : List ℕ → Type 0
IsSegment segment = (is_empty segment ≡ false) × NoSlash segment

-- A rest of a path: nothing, or a slash and more.
abbrev IsRest : List ℕ → Type 0
IsRest [] = Unit
IsRest (c ∷ cs) = nat_beq c b'/' ≡ true

begins_with_split :
    (s t y x : List ℕ)
    → NoSlash s
    → NoSlash t
    → IsRest y
    → begins_with (s ++ y) (t ++ (b'/' ∷ x)) ≡ (same_list s t && begins_with y (b'/' ∷ x))
begins_with_split [] [] y x hs ht hy = refl
begins_with_split [] (c ∷ t) [] x hs ht hy = refl
begins_with_split [] (c ∷ t) (d ∷ y) x hs ht hy = ground arith
begins_with_split (c ∷ s) [] y x hs ht hy = ground arith
begins_with_split (c ∷ s) (d ∷ t) y x (hc, hs) (hd, ht) hy =
    ground (arith, begins_with_split s t y x hs ht hy)

same_list_split :
    (s t y x : List ℕ)
    → NoSlash s
    → NoSlash t
    → IsRest y
    → IsRest x
    → same_list (s ++ y) (t ++ x) ≡ (same_list s t && same_list y x)
same_list_split [] [] y x hs ht hy hx = refl
same_list_split [] (c ∷ t) [] x hs ht hy hx = refl
same_list_split [] (c ∷ t) (d ∷ y) x hs ht hy hx = ground arith
same_list_split (c ∷ s) [] y [] hs ht hy hx = refl
same_list_split (c ∷ s) [] y (d ∷ x) hs ht hy hx = ground arith
same_list_split (c ∷ s) (d ∷ t) y x (hc, hs) (hd, ht) hy hx =
    ground (arith, same_list_split s t y x hs ht hy hx)

slashed-IsRest : (segments : List (List ℕ)) → IsRest (slashed segments)
slashed-IsRest [] = tt
slashed-IsRest (s ∷ ss) = refl

append_again : (a b c : List ℕ) → (a ++ b) ++ c ≡ a ++ (b ++ c)
append_again [] b c = refl
append_again (x ∷ a) b c = cc (append_again a b c)

-- A slash at the end of a path, taken as a rest.
abbrev slashed_end : List (List ℕ) → List ℕ
slashed_end [] = []
slashed_end (t ∷ ts) = (t ++ slashed ts) ++ (b'/' ∷ [])

slashed_end_lem : (ts : List (List ℕ)) → slashed ts ++ (b'/' ∷ []) ≡ b'/' ∷ slashed_end ts
slashed_end_lem [] = refl
slashed_end_lem (t ∷ ts) = refl

begins_with-slashed :
    (s t : List ℕ) (ss ts : List (List ℕ))
    → NoSlash s
    → NoSlash t
    → begins_with (s ++ slashed ss) ((t ++ slashed ts) ++ (b'/' ∷ []))
      ≡ (same_list s t && begins_with (slashed ss) (slashed ts ++ (b'/' ∷ [])))
begins_with-slashed s t ss ts hs ht =
    rw (append_again t (slashed ts) (b'/' ∷ []), slashed_end_lem ts)
      (begins_with_split s t (slashed ss) (slashed_end ts) hs ht (slashed-IsRest ss))

slashed_cover :
    (a b : List (List ℕ))
    → All NoSlash a
    → All NoSlash b
    → (same_list (slashed a) (slashed b) || begins_with (slashed a) (slashed b ++ (b'/' ∷ [])))
      ≡ starts_with_segments a b
slashed_cover [] [] ha hb = refl
slashed_cover (s ∷ ss) [] ha hb = refl
slashed_cover [] (t ∷ ts) ha hb = refl
slashed_cover (s ∷ ss) (t ∷ ts) (hs, ha) (ht, hb) = ground (
  arith,
  slashed_cover ss ts ha hb,
  begins_with-slashed s t ss ts hs ht,
  same_list_split s t (slashed ss) (slashed ts) hs ht (slashed-IsRest ss) (slashed-IsRest ts),
)

ends_with_slash-append : (s y : List ℕ) → NoSlash s → ends_with_slash (s ++ y) ≡ ends_with_slash y
ends_with_slash-append [] y hs = refl
ends_with_slash-append (c ∷ []) [] (hc, hs) = hc
ends_with_slash-append (c ∷ []) (d ∷ y) (hc, hs) = refl
ends_with_slash-append (c ∷ d ∷ s) y (hc, hs) = ends_with_slash-append (d ∷ s) y hs

ends_with_slash-slashed :
    (b : List (List ℕ)) → All IsSegment b → ends_with_slash (slashed b) ≡ false
ends_with_slash-slashed [] hb = refl
ends_with_slash-slashed ([] ∷ ts) ((he, ht), hb) = cc
ends_with_slash-slashed ((c ∷ t) ∷ ts) ((he, ht), hb) =
    ends_with_slash-append (c ∷ t) (slashed ts) ht ∙ ends_with_slash-slashed ts hb

slash_no_segment :
    (t : List ℕ) (ts : List (List ℕ))
    → IsSegment t
    → same_list (slashed (t ∷ ts)) (b'/' ∷ []) ≡ false
slash_no_segment [] ts (he, ht) = cc
slash_no_segment (c ∷ t) ts (he, ht) = refl

All-NoSlash : (b : List (List ℕ)) → All IsSegment b → All NoSlash b
All-NoSlash [] hb = tt
All-NoSlash (t ∷ ts) ((he, ht), hb) = (ht, All-NoSlash ts hb)

slash_covers : (p : List ℕ) → path_covered p (b'/' ∷ []) ≡ true
unfolding path_covered
slash_covers p = refl

-- A grant's path covers a path of nonempty segments if and only if the segments begin with the
-- grant's.
pub path_covered_segments :
    (a b : List (List ℕ))
    → All IsSegment a
    → All IsSegment b
    → path_covered (path_of a) (path_of b) ≡ starts_with_segments a b
unfolding path_covered
path_covered_segments a [] ha hb = slash_covers (path_of a)
path_covered_segments [] (t ∷ ts) ha (ht, hb) =
    ground (arith, slash_no_segment t ts ht, ends_with_slash-slashed (t ∷ ts) (ht, hb))
path_covered_segments (s ∷ ss) (t ∷ ts) ha (ht, hb) =
    rw (slash_no_segment t ts ht, ends_with_slash-slashed (t ∷ ts) (ht, hb))
      (slashed_cover (s ∷ ss) (t ∷ ts) (All-NoSlash (s ∷ ss) ha) (All-NoSlash (t ∷ ts) (ht, hb)))

first_more-IsSegment :
    (c : ℕ) (parts : List (List ℕ))
    → nat_beq c b'/' ≡ false
    → All NoSlash parts
    → All NoSlash (first_more c parts)
first_more-IsSegment c [] hc h = ((hc, tt), tt)
first_more-IsSegment c (p ∷ parts) hc (hp, h) = ((hc, hp), h)

split-NoSlash : (p : List ℕ) → All NoSlash (split b'/' p)
unfolding split
split-NoSlash [] = (tt, tt)
split-NoSlash (c ∷ cs) = elim (Bool-cases (nat_beq c b'/')) [
  | inl e ↦ rw e (tt, split-NoSlash cs)
  | inr e ↦ rw e (first_more-IsSegment c (split b'/' cs) e (split-NoSlash cs))
]

keep-IsSegment :
    (parts : List (List ℕ))
    → All NoSlash parts
    → All IsSegment (keep (λ segment. not (is_empty segment)) parts)
keep-IsSegment [] h = tt
keep-IsSegment ([] ∷ parts) (hp, h) = keep-IsSegment parts h
keep-IsSegment ((c ∷ p) ∷ parts) (hp, h) = ((refl, hp), keep-IsSegment parts h)

segments_of-IsSegment : (p : List ℕ) → All IsSegment (segments_of p)
unfolding segments_of
segments_of-IsSegment p = keep-IsSegment (split b'/' p) (split-NoSlash p)

normalize_eq :
    (p : List ℕ) {q : List ℕ} → normalize_authorized_path p ≡ some q → q ≡ path_of (segments_of p)
unfolding normalize_authorized_path
normalize_eq p h = ground (arith, h)

-- When a path and the path of a grant are both accepted, the grant covers the path if and only if
-- the segments of the path begin with those of the grant: `/records` does not cover
-- `/records-evil`.
pub path_covered-normalize :
    (p g : List ℕ) {path prefix : List ℕ}
    → normalize_authorized_path p ≡ some path
    → normalize_authorized_path g ≡ some prefix
    → path_covered path prefix ≡ starts_with_segments (segments_of p) (segments_of g)
path_covered-normalize p g hp hg =
    rw (normalize_eq p hp, normalize_eq g hg)
      (path_covered_segments (segments_of p) (segments_of g) (segments_of-IsSegment p)
        (segments_of-IsSegment g))
