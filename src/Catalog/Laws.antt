-- ===== src/Catalog/Laws.antt =====
-- What a catalog holds.
use x.Prelude.{
  Option-cases, Bool-cases, inl, inr, eq_refl, ◌==◌, string_eq, String, true, ◌≡◌, ◌≢◌, none, some,
  List, [], ◌∷◌, ok, arith, eq_iff, get, set, get-set, HasDistinctKeys, set-HasDistinctKeys,
  >>=-eq-ok, All,
}
use x.Types.{HumanMethodDescriptor}
use x.Catalog.{
  Catalog, method_key, is_human_method_identifier, add_method, add_methods, define_method_catalog,
}

-- A descriptor that a catalog may hold.
pub record IsWellFormed (d : HumanMethodDescriptor) : Type 0 where
  pub provider : is_human_method_identifier d.provider_id ≡ true
  pub method : is_human_method_identifier d.method_id ≡ true
  pub version : d.version ≢ ""
  pub claim : d.claim ≢ ""
  pub non_claims : d.non_claims ≢ []
  pub scopes : d.native_scope_kinds ≢ []
  pub modes : d.verification_modes ≢ []

pub record IsCatalog (c : Catalog) : Type 0 where
  pub distinct : HasDistinctKeys c
  pub keyed :
      (key : String) (d : HumanMethodDescriptor)
      → get key c ≡ some d
      → key ≡ method_key d.provider_id d.method_id
  pub well_formed : (key : String) (d : HumanMethodDescriptor) → get key c ≡ some d → IsWellFormed d

pub record Adds (c : Catalog) (d : HumanMethodDescriptor) (c' : Catalog) : Type 0 where
  pub fresh : get (method_key d.provider_id d.method_id) c ≡ none
  pub well_formed : IsWellFormed d
  pub result : c' ≡ set (method_key d.provider_id d.method_id) d c

add_method-Adds :
    (c c' : Catalog) (d : HumanMethodDescriptor) → add_method c d ≡ ok c' → Adds c d c'
unfolding add_method
add_method-Adds c c' d h = record {
  fresh = elim (Option-cases (get (method_key d.provider_id d.method_id) c)) [
    | inl missing ↦ missing
    | inr (old, there) ↦ absurd (ground arith)
  ];
  well_formed = record {
    provider = ground arith;
    method = ground arith;
    version = ground (arith, eq_iff d.version "");
    claim = ground (arith, eq_iff d.claim "");
    non_claims = ground arith;
    scopes = ground arith;
    modes = ground arith;
  };
  result = ground arith;
}

Adds-IsCatalog :
    (c c' : Catalog) (d : HumanMethodDescriptor) → IsCatalog c → Adds c d c' → IsCatalog c'
Adds-IsCatalog c c' d v a =
    let key = method_key d.provider_id d.method_id in
    rw a.result (record {
      distinct = set-HasDistinctKeys key d c v.distinct;
      keyed = λ k e stored. ground (arith, get-set key k d c, eq_iff key k, v.keyed k e);
      well_formed = λ k e stored. elim (Bool-cases (key == k)) [
        | inl same ↦ let it : d ≡ e = ground (arith, get-set key k d c) in rw (← it) a.well_formed
        | inr other ↦ v.well_formed k e (ground (arith, get-set key k d c))
      ];
    })

Adds-keeps :
    (c c' : Catalog) (d e : HumanMethodDescriptor) (k : String)
    → Adds c d c'
    → get k c ≡ some e
    → get k c' ≡ some e
Adds-keeps c c' d e k a h =
    let key = method_key d.provider_id d.method_id in
    rw a.result (ground (arith, get-set key k d c, eq_iff key k, a.fresh))

Adds-get :
    (c c' : Catalog) (d : HumanMethodDescriptor)
    → Adds c d c'
    → get (method_key d.provider_id d.method_id) c' ≡ some d
Adds-get c c' d a =
    let key = method_key d.provider_id d.method_id in
    rw a.result (ground (arith, get-set key key d c, eq_refl key))

add_methods-keeps :
    (c c' : Catalog) (ds : List HumanMethodDescriptor) (e : HumanMethodDescriptor) (k : String)
    → add_methods c ds ≡ ok c'
    → get k c ≡ some e
    → get k c' ≡ some e
unfolding add_methods
add_methods-keeps c c' [] e k h stored = let same : c ≡ c' = ground arith in rw (← same) stored
add_methods-keeps c c' (d ∷ ds) e k h stored =
    let (c1, first, rest) = >>=-eq-ok (add_method c d) (λ m. add_methods m ds) h in
    add_methods-keeps c1 c' ds e k rest
      (Adds-keeps c c1 d e k (add_method-Adds c c1 d first) stored)

-- The catalog finds the descriptor under its key.
abbrev pub IsListed : Catalog → HumanMethodDescriptor → Type 0
IsListed c d = get (method_key d.provider_id d.method_id) c ≡ some d

add_methods-IsCatalog :
    (c c' : Catalog) (ds : List HumanMethodDescriptor)
    → IsCatalog c
    → add_methods c ds ≡ ok c'
    → IsCatalog c' × All (IsListed c') ds
unfolding add_methods
add_methods-IsCatalog c c' [] v h = let same : c ≡ c' = ground arith in (rw (← same) v, tt)
add_methods-IsCatalog c c' (d ∷ ds) v h =
    let (c1, first, rest) = >>=-eq-ok (add_method c d) (λ m. add_methods m ds) h in
    let a = add_method-Adds c c1 d first in
    let (valid, listed) = add_methods-IsCatalog c1 c' ds (Adds-IsCatalog c c1 d v a) rest in
    (
      valid,
      (
        add_methods-keeps c1 c' ds d (method_key d.provider_id d.method_id) rest
            (Adds-get c c1 d a),
        listed,
      ),
    )

-- A catalog that is defined without an error has distinct keys, each entry is under its own key and
-- is well formed, and every descriptor that was given is found under its key.
pub define_method_catalog-IsCatalog :
    (ds : List HumanMethodDescriptor) (c : Catalog)
    → define_method_catalog ds ≡ ok c
    → IsCatalog c × All (IsListed c) ds
unfolding define_method_catalog get
define_method_catalog-IsCatalog ds c h =
    add_methods-IsCatalog [] c ds
      (record { distinct = tt; keyed = λ k d e. cc; well_formed = λ k d e. absurd (cc) }) h
