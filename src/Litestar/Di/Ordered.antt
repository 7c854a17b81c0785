-- ===== src/Litestar/Di/Ordered.antt =====
-- What a plan in order is, and what a visit of `plan_dependencies` does to it.
use litestar_rs.Prelude.{
  Text, true, false, ◌||◌, some, List, [], ◌∷◌, ◌++◌, ◌≡◌, refl, ap, arith, All, All-imp, member,
  member-append, same_refl, if◌then◌else◌,
}
use litestar_rs.Prelude.Dict.{lookup, put}
use litestar_rs.Litestar.Di.{Dependencies, Provide, Parameter, Planning, Planned, planned, keys}

pub keys-put_new :
    {V : Type 0} (key : Text) (v : V) (d : List (Text × V))
    → member key (keys d) ≡ false
    → put key v d ≡ d ++ (key, v) ∷ []
unfolding put member
keys-put_new key v [] new = refl
keys-put_new key v ((other, w) ∷ d) new = ground (arith, keys-put_new key v d)

pub keys-append :
    {V : Type 0} (d : List (Text × V)) (key : Text) (v : V)
    → keys (d ++ (key, v) ∷ []) ≡ keys d ++ key ∷ []
keys-append [] key v = refl
keys-append ((other, w) ∷ d) key v = ap (◌∷◌ other) (keys-append d key v)

pub member-append_last :
    (key : Text) (visiting : List Text) → member key (visiting ++ key ∷ []) ≡ true
unfolding member
member-append_last key visiting =
    ground (arith, member-append key visiting (key ∷ []), same_refl key)

module _ (dependencies : Dependencies) where
  -- The parameters that the application provides.
  unfoldable pub provided : List Parameter → List Text
  provided [] = []
  provided (parameter ∷ parameters) =
      let rest = provided parameters in
      if member parameter.name (keys dependencies) then parameter.name ∷ rest else rest

  -- A provider of that name, which takes exactly these of what the application provides, and has a
  -- default for each other parameter.
  pub record IsBuilt (key : Text) (needed : List Text) : Type 0 where
    pub provide : Provide
    pub found : lookup key dependencies ≡ some provide
    pub takes : needed ≡ provided provide.parameters
    pub supplied :
        All (λ p. (member p.name (keys dependencies) || p.has_default) ≡ true) provide.parameters

  -- Nothing is planned twice, and each provider stands after all that it takes.
  abbrev pub IsOrdered : List Text → List (Text × List Text) → Type 0
  IsOrdered before [] = Unit
  IsOrdered before ((key, needed) ∷ rest) =
      (member key before ≡ false)
      × IsBuilt key needed
      × All (λ name. member name before ≡ true) needed
      × IsOrdered (key ∷ before) rest

  -- What holds whenever a visit starts or ends.
  pub record IsSound (s : Planning) : Type 0 where
    pub listed : s.order ≡ keys s.arguments
    pub ordered : IsOrdered [] s.arguments

  abbrev pub Knows : Planning → Text → Type 0
  Knows s name = member name (keys s.arguments) ≡ true

  abbrev pub IsNew : Planning → Text → Type 0
  IsNew s name = member name (keys s.arguments) ≡ false

  -- What a visit does to the plan, where these keys are being visited.
  pub record Grows (visiting : List Text) (s s' : Planning) : Type 0 where
    pub sound : IsSound s'
    pub kept : (name : Text) → Knows s name → Knows s' name
    pub apart : (name : Text) → member name visiting ≡ true → IsNew s name → IsNew s' name

  abbrev pub Visits : List Text → (Text → Planning → Planned Planning) → Type 0
  Visits visiting go =
      (key : Text) (s s' : Planning)
      → IsSound s
      → go key s ≡ planned s'
      → Grows visiting s s' × Knows s' key

  pub IsOrdered-append :
      (before : List Text) (arguments : List (Text × List Text)) (key : Text) (needed : List Text)
      → IsOrdered before arguments
      → member key before ≡ false
      → member key (keys arguments) ≡ false
      → IsBuilt key needed
      → All (λ name. (member name before || member name (keys arguments)) ≡ true) needed
      → IsOrdered before (arguments ++ (key, needed) ∷ [])
  unfolding member
  IsOrdered-append before [] key needed h new0 new built after =
      (new0, built, All-imp needed (λ name h. ground arith) after, tt)
  IsOrdered-append before ((other, args) ∷ rest) key needed (h0, h1, h2, h3) new0 new built after =
      (
        h0,
        h1,
        h2,
        IsOrdered-append (other ∷ before) rest key needed h3 (ground arith) (ground arith) built
            (All-imp needed (λ name h. ground arith) after),
      )

  pub Grows-refl : (visiting : List Text) (s : Planning) → IsSound s → Grows visiting s s
  Grows-refl visiting s sound = record { sound = sound; kept = λ n h. h; apart = λ n h k. k }

  pub Grows-trans :
      (visiting : List Text) (s t u : Planning)
      → Grows visiting s t
      → Grows visiting t u
      → Grows visiting s u
  Grows-trans visiting s t u g h = record {
    sound = h.sound;
    kept = λ n k. h.kept n (g.kept n k);
    apart = λ n v k. h.apart n v (g.apart n v k);
  }
