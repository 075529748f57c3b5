-- ===== src/Resource/Protected.antt =====
-- Whatever a protected route of src/middleware/resource.ts calls, its response stays protected.
use x.Prelude.{
  ℕ, true, false, not, Option, none, some, List, [], ◌∷◌, ◌++◌, map, Bool-cases, inl, inr, ◌≡◌,
  refl, ◌∙◌, arith, keep, is_empty, same_list, same_list_iff, nat_eq,
}
use x.Tokens.External.{split}
use x.Transport.{vary_tokens, merge_vary, trim, to_lower_case}
use x.Transport.Vary.{Varies, names, merge_vary-Varies}
use x.Resource.Headers.{
  HeaderMap, cache_control, vary, human_proof, protected_cache_control, original_set_header,
  original_remove_header, force_protected_headers, set_header, remove_header, set_headers,
  write_head, HeaderCall, set, remove, write, call, run, guarded_run,
}

-- No cache may keep the response, and it varies with the proof.
pub record IsProtected (headers : HeaderMap) : Type 0 where
  pub not_cached : headers cache_control ≡ some protected_cache_control
  pub vary_text : List ℕ
  pub varies : headers vary ≡ some vary_text
  pub names_proof : Varies human_proof vary_text

abbrev trimmed : List (List ℕ) → List (List ℕ)
trimmed values = keep (λ value. not (is_empty value)) (map trim values)

names_behind :
    (values last : List (List ℕ))
    → names (trimmed last) human_proof ≡ true
    → names (trimmed (values ++ last)) human_proof ≡ true
names_behind [] last h = h
names_behind (value ∷ values) last h = elim (Bool-cases (is_empty (trim value))) [
  | inl nothing ↦ rw nothing (names_behind values last h)
  | inr something ↦ rw something (ground (arith, names_behind values last h))
]

names_last : names (trimmed (human_proof ∷ [])) human_proof ≡ true
unfolding trim
names_last = refl

append-tokens :
    (front values : List (List ℕ))
    → names (trimmed (front ++ (values ++ (human_proof ∷ [])))) human_proof ≡ true
append-tokens front values =
    names_behind front (values ++ (human_proof ∷ []))
      (names_behind values (human_proof ∷ []) names_last)

names_tokens :
    (existing : Option (List ℕ)) (values : List (List ℕ))
    → names (vary_tokens existing (values ++ (human_proof ∷ []))) human_proof ≡ true
unfolding vary_tokens
names_tokens none values = names_behind ([] ∷ values) (human_proof ∷ []) names_last
names_tokens (some existing) values = append-tokens (split b',' existing) values

force-IsProtected : (headers : HeaderMap) → IsProtected (force_protected_headers headers)
unfolding force_protected_headers original_set_header
force-IsProtected headers = record {
  not_cached = refl;
  vary_text = merge_vary (headers vary) (human_proof ∷ []);
  varies = refl;
  names_proof =
      merge_vary-Varies (headers vary) (human_proof ∷ []) human_proof
        (names_tokens (headers vary) []);
}

set_same :
    (name value key : List ℕ) (headers : HeaderMap)
    → same_list (to_lower_case name) key ≡ true
    → original_set_header name value headers key ≡ some value
unfolding original_set_header
set_same name value key headers h = rw h refl

set_other :
    (name value key : List ℕ) (headers : HeaderMap)
    → same_list (to_lower_case name) key ≡ false
    → original_set_header name value headers key ≡ headers key
unfolding original_set_header
set_other name value key headers h = rw h refl

remove_other :
    (name key : List ℕ) (headers : HeaderMap)
    → same_list (to_lower_case name) key ≡ false
    → original_remove_header name headers key ≡ headers key
unfolding original_remove_header
remove_other name key headers h = rw h refl

cache_not_vary :
    (name : List ℕ)
    → same_list (to_lower_case name) cache_control ≡ true
    → same_list (to_lower_case name) vary ≡ false
cache_not_vary name h = rw ((same_list_iff (to_lower_case name) cache_control).0 h) refl

set_header-IsProtected :
    (name value : List ℕ) (headers : HeaderMap)
    → IsProtected headers
    → IsProtected (set_header name value headers)
unfolding set_header
set_header-IsProtected name value headers v =
    elim (Bool-cases (same_list (to_lower_case name) cache_control)) [
      | inl is_cache ↦
          rw (is_cache, set_header)
            (record {
              not_cached = set_same name protected_cache_control cache_control headers is_cache;
              vary_text = v.vary_text;
              varies =
                  set_other name protected_cache_control vary headers (cache_not_vary name is_cache)
                  ∙ v.varies;
              names_proof = v.names_proof;
            })
      | inr not_cache ↦ elim (Bool-cases (same_list (to_lower_case name) vary)) [
        | inl is_vary ↦
            let text = merge_vary (headers vary) (value ∷ human_proof ∷ []) in
            rw (not_cache, is_vary, set_header)
              (record {
                not_cached = set_other name text cache_control headers not_cache ∙ v.not_cached;
                vary_text = text;
                varies = set_same name text vary headers is_vary;
                names_proof =
                    merge_vary-Varies (headers vary) (value ∷ human_proof ∷ []) human_proof
                      (names_tokens (headers vary) (value ∷ []));
              })
        | inr not_vary ↦
            rw (not_cache, not_vary, set_header)
              (record {
                not_cached = set_other name value cache_control headers not_cache ∙ v.not_cached;
                vary_text = v.vary_text;
                varies = set_other name value vary headers not_vary ∙ v.varies;
                names_proof = v.names_proof;
              })
      ]
    ]

remove_header-IsProtected :
    (name : List ℕ) (headers : HeaderMap)
    → IsProtected headers
    → IsProtected (remove_header name headers)
unfolding remove_header
remove_header-IsProtected name headers v =
    elim (Bool-cases (same_list (to_lower_case name) cache_control)) [
      | inl is_cache ↦ rw (is_cache, remove_header) (force-IsProtected headers)
      | inr not_cache ↦ elim (Bool-cases (same_list (to_lower_case name) vary)) [
        | inl is_vary ↦ rw (not_cache, is_vary, remove_header) (force-IsProtected headers)
        | inr not_vary ↦
            rw (not_cache, not_vary, remove_header)
              (record {
                not_cached = remove_other name cache_control headers not_cache ∙ v.not_cached;
                vary_text = v.vary_text;
                varies = remove_other name vary headers not_vary ∙ v.varies;
                names_proof = v.names_proof;
              })
      ]
    ]

call-IsProtected :
    (c : HeaderCall) (headers : HeaderMap) → IsProtected headers → IsProtected (call c headers)
unfolding call write_head
call-IsProtected (set name value) headers v = set_header-IsProtected name value headers v
call-IsProtected (remove name) headers v = remove_header-IsProtected name headers v
call-IsProtected (write given) headers v = force-IsProtected (set_headers given headers)

run-IsProtected :
    (calls : List HeaderCall) (headers : HeaderMap)
    → IsProtected headers
    → IsProtected (run calls headers)
unfolding run
run-IsProtected [] headers v = v
run-IsProtected (c ∷ calls) headers v =
    run-IsProtected calls (call c headers) (call-IsProtected c headers v)

-- From any headers, whatever a protected route then sets, removes and writes, and in whatever order,
-- after each of these calls the header cache-control is `private, no-store`, and the header vary is
-- `*` or names HUMAN-PROOF, capitals aside.
pub guarded_run-IsProtected :
    (calls : List HeaderCall) (headers : HeaderMap) → IsProtected (guarded_run calls headers)
unfolding guarded_run
guarded_run-IsProtected calls headers =
    run-IsProtected calls (force_protected_headers headers) (force-IsProtected headers)
