-- ===== src/Agent/Operations/Urls.antt =====
-- crates/odp-agent/src/client.rs, crates/odp-core/src/references.rs: on which origin the URLs lie that
-- the client makes. `UrlLaws` is what the documentation of the url crate says of the calls.
use mathlib.Core.List.{reverse, reverse-append, reverse-reverse}
use odp_rust.Prelude.{
  ℕ, ◌≡◌, ◌⊎◌, refl, ap, sym, ◌∙◌, Bool, true, false, not, ◌&&◌, Option, none, some, [], ◌∷◌, ◌++◌,
  ok, leb, ◌==◌, nat_eq, all, All, All-append, arith, Bool-cases, inl, inr,
}
use odp_rust.Prelude.Text.{
  Text, text, text_eq, starts_with, strip_prefix, trim_start_matches, trim_end_matches,
}
use odp_rust.Core.Models.{
  Operation, get_collection, get_offering, list_collection_offerings, list_collections,
  list_offerings, search_collections, search_offerings,
}
use odp_rust.Core.References.Url.{UrlLib}
use odp_rust.Core.References.{
  is_identifier_byte, path_of, or_default, require_secure_url, derive_service_origin,
}
use odp_rust.Core.References.Paths.{all-All, IsLocal, Takes}

-- A byte that no URL parser drops and that is no backslash.
abbrev pub is_path_byte : ℕ → Bool
is_path_byte b = leb 33 b && (leb b 126 && not (b == 92))

abbrev pub IsPlain : Text → Type 0
IsPlain path = All (λ b. is_path_byte b ≡ true) path

abbrev pub IsPathByte : ℕ → Type 0
IsPathByte b = is_path_byte b ≡ true

pub plain : (s : Text) → all is_path_byte s ≡ true → IsPlain s
plain s h = (all-All is_path_byte s).0 h

-- A path from the root of an origin.
abbrev pub IsRooted : Text → Type 0
IsRooted path =
    (starts_with (text "/") path ≡ true) × (starts_with (text "//") path ≡ false) × IsPlain path

module _ (url_lib : UrlLib) where
  open url_lib use {Url, parse, join, username, password, host, scheme, origin, as_str}

  abbrev pub IsAt : Url → Url → Type 0
  IsAt u v = (scheme v ≡ scheme u) × (host v ≡ host u) × (origin v ≡ origin u)

  -- The origin of an HTTP URL is its scheme, host and port, without credentials; a rooted reference
  -- stays on the origin; a URL is parsed from its spelling; a query changes nothing else.
  pub record UrlLaws (append_pair : Url → Text → Text → Url) : Type 0 where
    pub respelt : (u : Url) → parse (as_str u) ≡ ok u
    pub rooted :
        (u v : Url) (path : Text)
        → require_secure_url url_lib u ≡ ok tt
        → (path ≡ []) ⊎ IsRooted path
        → parse (origin u ++ path) ≡ ok v
        → IsAt u v × (username v ≡ []) × (password v ≡ none)
    pub joined :
        (u v : Url) (path : Text) → IsRooted path → join u path ≡ ok v → origin v ≡ origin u
    pub paired :
        (u : Url) (name value : Text)
        → IsAt u (append_pair u name value)
          × (username (append_pair u name value) ≡ username u)
          × (password (append_pair u name value) ≡ password u)

  -- A URL whose spelling has the origin.
  abbrev pub IsHome : Text → Url → Type 0
  IsHome home u = derive_service_origin url_lib (as_str u) ≡ ok home

  -- An origin that `derive_service_origin` found.
  pub record IsServed (home : Text) : Type 0 where
    pub served : Url
    pub secure : require_secure_url url_lib served ≡ ok tt
    pub at : origin served ≡ home

trim_start_matches_prefix : (c : ℕ) (s : Text) → (cut : Text) × (s ≡ cut ++ trim_start_matches c s)
unfolding trim_start_matches
trim_start_matches_prefix c [] = ([], refl)
trim_start_matches_prefix c (x ∷ s) = elim (Bool-cases (x == c)) [
  | inl same ↦
      let (cut, e) = trim_start_matches_prefix c s in
      (x ∷ cut, rw (trim_start_matches, same) (ap (λ t. x ∷ t) e))
  | inr other ↦ ([], rw (trim_start_matches, other) refl)
]

pub trim_end_matches_suffix : (c : ℕ) (s : Text) → (cut : Text) × (s ≡ trim_end_matches c s ++ cut)
unfolding trim_end_matches
trim_end_matches_suffix c s =
    let (cut, e) = trim_start_matches_prefix c (reverse s) in
    (
      reverse cut,
      sym (reverse-reverse s)
          ∙ (ap reverse e ∙ reverse-append cut (trim_start_matches c (reverse s))),
    )

pub All-start : (P : ℕ → Type 0) (xs ys : Text) → All P (xs ++ ys) → All P xs
All-start P [] ys h = tt
All-start P (x ∷ xs) ys (p, h) = (p, All-start P xs ys h)

pub starts_with-append :
    (base cut path : Text)
    → starts_with (text "/") (base ++ cut) ≡ true
    → starts_with (text "/") path ≡ true
    → starts_with (text "/") (base ++ path) ≡ true
unfolding strip_prefix
starts_with-append [] cut path h p = p
starts_with-append (x ∷ base) cut path h p = ground arith

IsPlain-local : (id : Text) → IsLocal id → IsPlain id
IsPlain-local id l = unreserved_plain id l.unreserved
  where
    unreserved_plain : (s : Text) → All (λ b. is_identifier_byte b ≡ true) s → IsPlain s
    unreserved_plain [] h = tt
    unreserved_plain (b ∷ s) (p, h) = (ground arith, unreserved_plain s h)

pub path_of-IsPlain :
    (operation : Operation) (id : Option Text)
    → Takes operation id
    → IsPlain (path_of operation (or_default id))
path_of-IsPlain get_collection (some id) (r, l) =
    All-append IsPathByte (text "/collections/") id (plain (text "/collections/") refl)
      (IsPlain-local id l)
path_of-IsPlain get_offering (some id) (r, l) =
    All-append IsPathByte (text "/offerings/") id (plain (text "/offerings/") refl)
      (IsPlain-local id l)
path_of-IsPlain list_collection_offerings (some id) (r, l) =
    All-append IsPathByte (text "/collections/") (id ++ text "/offerings")
      (plain (text "/collections/") refl)
      (All-append IsPathByte id (text "/offerings") (IsPlain-local id l)
        (plain (text "/offerings") refl))
path_of-IsPlain list_collections none h = plain (text "/collections") refl
path_of-IsPlain list_offerings none h = plain (text "/offerings") refl
path_of-IsPlain search_collections none h = plain (text "/collections/search") refl
path_of-IsPlain search_offerings none h = plain (text "/offerings/search") refl
path_of-IsPlain get_collection none h = cc
path_of-IsPlain get_offering none h = cc
path_of-IsPlain list_collection_offerings none h = cc
path_of-IsPlain list_collections (some id) (r, l) = cc
path_of-IsPlain list_offerings (some id) (r, l) = cc
path_of-IsPlain search_collections (some id) (r, l) = cc
path_of-IsPlain search_offerings (some id) (r, l) = cc

pub path_of-starts :
    (operation : Operation) (id : Text) → starts_with (text "/") (path_of operation id) ≡ true
unfolding strip_prefix
path_of-starts operation id =
    elim operation as (λ o. starts_with (text "/") (path_of o id) ≡ true) [
      | get_collection ↦ refl
      | get_offering ↦ refl
      | list_collection_offerings ↦ refl
      | list_collections ↦ refl
      | list_offerings ↦ refl
      | search_collections ↦ refl
      | search_offerings ↦ refl
    ]
