-- ===== src/Litestar/Di/Refusals.antt =====
-- The refusals of `plan_dependencies`, src/smallage/litestar/di.py.
use mathlib.Core.Path.{subst}
use litestar_rs.Prelude.{
  ℕ, zero, suc, Text, Bool-cases, true, false, Option, some, none, List, [], ◌∷◌, ◌++◌, ◌≡◌, ◌⊎◌,
  refl, ap, same_refl, arith, inl, inr, member, same, same_iff,
}
use litestar_rs.Prelude.Dict.{lookup}
use litestar_rs.Litestar.Di.{
  Dependencies, Provide, Parameter, Planning, Planned, planned, refused, out_of_fuel, Refusal,
  dependency_cycle, unknown_dependency, needs_request, ◌>>=◌, keys, from_key, visit_parameters,
  visit_new, visit, visit_all, plan_dependencies, nothing_planned,
}

bind-refused :
    {A B : Type 0} (m : Planned A) (f : A → Planned B) (r : Refusal)
    → (m >>= f) ≡ refused r
    → (m ≡ refused r) ⊎ ((a : A) × (m ≡ planned a) × (f a ≡ refused r))
bind-refused (planned a) f r e = inr (a, refl, e)
bind-refused (refused q) f r e = inl (cc)
bind-refused out_of_fuel f r e = cc

member-keys-none :
    (key : Text) (dependencies : Dependencies)
    → lookup key dependencies ≡ none
    → member key (keys dependencies) ≡ false
unfolding lookup member
member-keys-none key [] e = refl
member-keys-none key ((other, provide) ∷ rest) e = ground (arith, member-keys-none key rest)

module _ (dependencies : Dependencies) where
  -- A parameter of that name.
  abbrev Named : Text → List Parameter → Type 0
  Named name [] = ⊥
  Named name (parameter ∷ parameters) = (parameter.name ≡ name) ⊎ Named name parameters

  -- The provider of `key` takes `name`.
  abbrev pub Takes : Text → Text → Type 0
  Takes key name =
      (provide : Provide) × (lookup key dependencies ≡ some provide) × Named name provide.parameters

  -- Each key of the path takes the next, and the last of them takes `end`.
  abbrev pub IsPath : List Text → Text → Type 0
  IsPath [] end = Unit
  IsPath (key ∷ []) end = Takes key end
  IsPath (key ∷ next ∷ path) end = Takes key next × IsPath (next ∷ path) end

  -- A parameter of that name without a default.
  abbrev Demanded : Text → List Parameter → Type 0
  Demanded name [] = ⊥
  Demanded name (parameter ∷ parameters) =
      ((parameter.name ≡ name) × (parameter.has_default ≡ false)) ⊎ Demanded name parameters

  -- The path that a cycle is reported with leads from a key back to it; what is reported unknown is
  -- required and not provided; what only a request can supply is demanded and not provided.
  abbrev pub IsJustified : List Text → Refusal → Type 0
  IsJustified required (dependency_cycle path) =
      (key : Text) × (rest : List Text) × (path ≡ key ∷ (rest ++ key ∷ []))
      × IsPath (key ∷ rest) key
  IsJustified required (unknown_dependency key) =
      (member key required ≡ true) × (member key (keys dependencies) ≡ false)
  IsJustified required (needs_request key name) =
      (provide : Provide) × (lookup key dependencies ≡ some provide)
      × Demanded name provide.parameters
      × (member name (keys dependencies) ≡ false)

  from_key-IsPath :
      (key : Text) (visiting : List Text)
      → member key visiting ≡ true
      → IsPath visiting key
      → (rest : List Text) × (from_key key visiting ≡ key ∷ rest) × IsPath (key ∷ rest) key
  unfolding member from_key
  from_key-IsPath key [] inside path = cc
  from_key-IsPath key (other ∷ []) inside path =
      let e : other ≡ key = ground (arith, same_iff other key) in
      ([], ground (arith, same_iff other key), subst (λ k. Takes k key) e path)
  from_key-IsPath key (other ∷ next ∷ visiting) inside path = elim (Bool-cases (same other key)) [
    | inl here ↦
        let e : other ≡ key = ground (arith, same_iff other key) in
        (
          next ∷ visiting,
          ground (arith, same_iff other key),
          (subst (λ k. Takes k next) e path.0, path.1),
        )
    | inr later ↦
        let (rest, starts, loops) = from_key-IsPath key (next ∷ visiting) (ground arith) path.1 in
        (rest, rw (later, from_key) starts, loops)
  ]

  IsPath-append :
      (visiting : List Text) (key end : Text)
      → IsPath visiting key
      → Takes key end
      → IsPath (visiting ++ key ∷ []) end
  IsPath-append [] key end path last = last
  IsPath-append (other ∷ []) key end path last = (path, last)
  IsPath-append (other ∷ next ∷ visiting) key end path last =
      (path.0, IsPath-append (next ∷ visiting) key end path.1 last)

  module _ (required : List Text) where
    -- A call for a key at the end of a path, which is provided or required, refuses with a reason.
    abbrev Refuses : List Text → (Text → Planning → Planned Planning) → Type 0
    Refuses visiting go =
        (key : Text) (s : Planning) (r : Refusal)
        → IsPath visiting key
        → (member key (keys dependencies) ≡ true) ⊎ (member key required ≡ true)
        → go key s ≡ refused r
        → IsJustified required r

    visit_parameters-refused :
        (visiting : List Text) (go : Text → Planning → Planned Planning) (key : Text)
        (provide : Provide)
        → Refuses (visiting ++ key ∷ []) go
        → IsPath visiting key
        → lookup key dependencies ≡ some provide
        → (parameters : List Parameter) (needed : List Text) (s : Planning) (r : Refusal)
        → ((name : Text) → Named name parameters → Named name provide.parameters)
        → ((name : Text) → Demanded name parameters → Demanded name provide.parameters)
        → visit_parameters dependencies go key parameters needed s ≡ refused r
        → IsJustified required r
    unfolding visit_parameters
    visit_parameters-refused visiting go key provide refuses path found [] needed s r named demanded
          e =
        cc
    visit_parameters-refused visiting go key provide refuses path found (parameter ∷ parameters)
          needed s r named demanded e =
        elim (Bool-cases (member parameter.name (keys dependencies))) [
          | inl inside ↦
              elim (bind-refused (go parameter.name s)
                (λ t.
                  visit_parameters dependencies go key parameters (needed ++ parameter.name ∷ []) t)
                r (rw (inside, visit_parameters) at e)) [
                  | inl there ↦
                      refuses parameter.name s r
                        (IsPath-append visiting key parameter.name path
                          (provide, found, named parameter.name (inl refl)))
                        (inl inside) there
                  | inr (t, one, more) ↦
                      visit_parameters-refused visiting go key provide refuses path found parameters
                        (needed ++ parameter.name ∷ []) t r (λ n h. named n (inr h))
                        (λ n h. demanded n (inr h)) more
                ]
          | inr outside ↦ elim (Bool-cases parameter.has_default) [
            | inl optional ↦
                visit_parameters-refused visiting go key provide refuses path found parameters
                  needed s r (λ n h. named n (inr h)) (λ n h. demanded n (inr h))
                  (rw (optional, visit_parameters) at (rw (outside, visit_parameters) at e))
            | inr demands ↦
                let same_reason : needs_request key parameter.name ≡ r = ground arith in
                subst (IsJustified required) same_reason
                  (provide, found, demanded parameter.name (inl (refl, demands)), outside)
          ]
        ]

    visit_new-refused :
        (visiting : List Text) (go : Text → Planning → Planned Planning) (key : Text)
        (found : Option Provide) (s : Planning) (r : Refusal)
        → Refuses (visiting ++ key ∷ []) go
        → lookup key dependencies ≡ found
        → IsPath visiting key
        → (member key (keys dependencies) ≡ true) ⊎ (member key required ≡ true)
        → visit_new dependencies go key found s ≡ refused r
        → IsJustified required r
    unfolding visit_new
    visit_new-refused visiting go key none s r refuses found path origin e =
        let absent = member-keys-none key dependencies found in
        let same_reason : unknown_dependency key ≡ r = ground arith in
        subst (IsJustified required) same_reason (ground arith, absent)
    visit_new-refused visiting go key (some provide) s r refuses found path origin e =
        elim (bind-refused (visit_parameters dependencies go key provide.parameters [] s) _ r e) [
          | inl there ↦
              visit_parameters-refused visiting go key provide refuses path found provide.parameters
                [] s r (λ n h. h) (λ n h. h) there
          | inr (a, one, more) ↦ cc
        ]

    visit-Refuses :
        (fuel : ℕ) (visiting : List Text) → Refuses visiting (visit dependencies fuel visiting)
    unfolding visit
    visit-Refuses zero visiting key s r path origin e = cc
    visit-Refuses (suc fuel) visiting key s r path origin e =
        elim (Bool-cases (member key (keys s.arguments))) [
          | inl known ↦ ground arith
          | inr new ↦ elim (Bool-cases (member key visiting)) [
            | inl again ↦
                let (rest, starts, loops) = from_key-IsPath key visiting again path in
                let same_reason : dependency_cycle (from_key key visiting ++ key ∷ []) ≡ r =
                  ground arith in
                subst (IsJustified required) same_reason
                  (key, rest, ap (λ p. p ++ key ∷ []) starts, loops)
            | inr fresh ↦
                visit_new-refused visiting (visit dependencies fuel (visiting ++ key ∷ [])) key
                  (lookup key dependencies) s r (visit-Refuses fuel (visiting ++ key ∷ [])) refl
                  path origin (rw (fresh, visit) at (rw (new, visit) at e))
          ]
        ]

    visit_all-refused :
        (fuel : ℕ) (keys' : List Text) (s : Planning) (r : Refusal)
        → ((key : Text) → member key keys' ≡ true → member key required ≡ true)
        → visit_all dependencies fuel keys' s ≡ refused r
        → IsJustified required r
    unfolding visit_all member
    visit_all-refused fuel [] s r within e = cc
    visit_all-refused fuel (key ∷ more) s r within e =
        elim (bind-refused (visit dependencies fuel [] key s) _ r e) [
          | inl there ↦
              visit-Refuses fuel [] key s r tt (inr (within key (ground (arith, same_refl key))))
                there
          | inr (t, one, rest) ↦
              visit_all-refused fuel more t r (λ k h. within k (ground arith)) rest
        ]

  -- Where planning is refused, the reason given is so: the path of a cycle leads back to where it
  -- starts, each provider on it taking the next; a dependency that is called unknown is required, and
  -- not provided; a parameter that only a request can supply is demanded by a provider, has no
  -- default, and is not provided.
  pub refused-IsJustified :
      (required : List Text) (r : Refusal)
      → plan_dependencies dependencies required ≡ refused r
      → IsJustified required r
  unfolding plan_dependencies
  refused-IsJustified required r e =
      elim (bind-refused (visit_all dependencies _ required nothing_planned) _ r e) [
        | inl there ↦ visit_all-refused required _ required nothing_planned r (λ k h. h) there
        | inr (s, one, more) ↦ cc
      ]
