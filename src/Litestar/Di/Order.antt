-- ===== src/Litestar/Di/Order.antt =====
-- The order of a plan of `plan_dependencies`, src/smallage/litestar/di.py.
use litestar_rs.Prelude.{
  ℕ, zero, suc, Text, Bool-cases, true, false, ◌||◌, Option, some, none, List, [], ◌∷◌, ◌++◌, ◌≡◌,
  refl, sym, ap, ◌∙◌, arith, inl, inr, All, All-append, All-imp, member, member-append, same,
  same_iff, same_refl,
}
use mathlib.Core.List.{append-nil, append_assoc}
use litestar_rs.Prelude.Dict.{lookup, put}
use litestar_rs.Litestar.Di.{
  Dependencies, Provide, Parameter, DependencyPlan, Planning, Planned, planned, refused,
  out_of_fuel, ◌>>=◌, keys, settle, visit_parameters, visit_new, visit, visit_all,
  plan_dependencies, nothing_planned, providers_of,
}
use litestar_rs.Litestar.Di.Ordered.{
  keys-append, keys-put_new, member-append_last, provided, IsBuilt, IsOrdered, IsSound, Knows,
  IsNew, Grows, Visits, IsOrdered-append, Grows-refl, Grows-trans,
}

bind-planned :
    {A B : Type 0} (m : Planned A) (f : A → Planned B) (b : B)
    → (m >>= f) ≡ planned b
    → (a : A) × (m ≡ planned a) × (f a ≡ planned b)
bind-planned (planned a) f b e = (a, refl, e)
bind-planned (refused r) f b e = cc
bind-planned out_of_fuel f b e = cc

module _ (dependencies : Dependencies) where
  visit_parameters-Grows :
      (visiting : List Text) (go : Text → Planning → Planned Planning)
      → Visits dependencies visiting go
      → (key : Text) (parameters : List Parameter) (needed names : List Text) (s s' : Planning)
      → IsSound dependencies s
      → All (Knows dependencies s) needed
      → visit_parameters dependencies go key parameters needed s ≡ planned (names, s')
      → Grows dependencies visiting s s'
        × (names ≡ needed ++ provided dependencies parameters)
        × All (Knows dependencies s') names
        × All (λ p. (member p.name (keys dependencies) || p.has_default) ≡ true) parameters
  unfolding visit_parameters provided
  visit_parameters-Grows visiting go visits key [] needed names s s' sound known e =
      let same_names : names ≡ needed = ground arith in
      let same_state : s' ≡ s = ground arith in
      (
        rw same_state (Grows-refl dependencies visiting s sound),
        rw same_names (sym (append-nil needed)),
        rw same_names (rw same_state known),
        tt,
      )
  visit_parameters-Grows visiting go visits key (parameter ∷ parameters) needed names s s' sound
        known e =
      elim (Bool-cases (member parameter.name (keys dependencies))) [
        | inl inside ↦
            let (t, one, more) =
              bind-planned (go parameter.name s)
                (λ t.
                  visit_parameters dependencies go key parameters (needed ++ parameter.name ∷ []) t)
                (names, s') (rw (inside, visit_parameters) at e) in
            let (grown, there) = visits parameter.name s t sound one in
            let (grown', listed, all_known, supplied) =
              visit_parameters-Grows visiting go visits key parameters
                (needed ++ parameter.name ∷ []) names t s' grown.sound
                (All-append _ needed (parameter.name ∷ []) (All-imp needed grown.kept known)
                  (there, tt))
                more in
            (
              Grows-trans dependencies visiting s t s' grown grown',
              rw (inside, provided)
                  (listed
                    ∙ append_assoc needed (parameter.name ∷ []) (provided dependencies parameters)),
              all_known,
              (ground arith, supplied),
            )
        | inr outside ↦ elim (Bool-cases parameter.has_default) [
          | inl optional ↦
              let (grown, listed, all_known, supplied) =
                visit_parameters-Grows visiting go visits key parameters needed names s s' sound
                  known
                  (rw (optional, visit_parameters) at (rw (outside, visit_parameters) at e)) in
              (grown, rw (outside, provided) listed, all_known, (ground arith, supplied))
          | inr required ↦ ground arith
        ]
      ]

  settle-Grows :
      (visiting : List Text) (key : Text) (needed : List Text) (s : Planning)
      → IsSound dependencies s
      → member key visiting ≡ false
      → IsNew dependencies s key
      → IsBuilt dependencies key needed
      → All (Knows dependencies s) needed
      → Grows dependencies visiting s (settle key needed s)
        × Knows dependencies (settle key needed s) key
  unfolding member
  settle-Grows visiting key needed s sound fresh new built known =
      let placed : put key needed s.arguments ≡ s.arguments ++ (key, needed) ∷ [] =
        keys-put_new key needed s.arguments new in
      let listed : keys (put key needed s.arguments) ≡ keys s.arguments ++ key ∷ [] =
        rw placed (keys-append s.arguments key needed) in
      let adds : (name : Text)
          → member name (keys (put key needed s.arguments))
            ≡ (member name (keys s.arguments) || same key name) =
        λ name. rw listed (ground (arith, member-append name (keys s.arguments) (key ∷ []))) in
      (
        record {
          sound = record {
            listed = rw listed (ap (λ o. o ++ key ∷ []) sound.listed);
            ordered = rw placed (
                IsOrdered-append dependencies [] s.arguments key needed sound.ordered refl new built
                  known);
          };
          kept = λ name h. ground (arith, adds name);
          apart = λ name h k. ground (arith, adds name, same_iff key name);
        },
        ground (arith, adds key, same_refl key),
      )

  Grows-pop :
      (visiting : List Text) (key : Text) (s t : Planning)
      → Grows dependencies (visiting ++ key ∷ []) s t
      → Grows dependencies visiting s t
  Grows-pop visiting key s t g = record {
    sound = g.sound;
    kept = g.kept;
    apart = λ name h. g.apart name (ground (arith, member-append name visiting (key ∷ [])));
  }

  visit_new-Grows :
      (visiting : List Text) (go : Text → Planning → Planned Planning) (key : Text)
      (found : Option Provide) (s s' : Planning)
      → Visits dependencies (visiting ++ key ∷ []) go
      → lookup key dependencies ≡ found
      → member key visiting ≡ false
      → IsNew dependencies s key
      → IsSound dependencies s
      → visit_new dependencies go key found s ≡ planned s'
      → Grows dependencies visiting s s' × Knows dependencies s' key
  unfolding visit_new
  visit_new-Grows visiting go key none s s' visits found fresh new sound e = cc
  visit_new-Grows visiting go key (some provide) s s' visits found fresh new sound e =
      let ((names, t), one, settled) =
        bind-planned (visit_parameters dependencies go key provide.parameters [] s) _ s' e in
      let (grown, takes, known, supplied) =
        visit_parameters-Grows (visiting ++ key ∷ []) go visits key provide.parameters [] names s t
          sound tt one in
      let same_state : settle key names t ≡ s' = ground arith in
      let still_new : IsNew dependencies t key =
        grown.apart key (member-append_last key visiting) new in
      let built : IsBuilt dependencies key names = record {
        provide = provide;
        found = found;
        takes = takes;
        supplied = supplied;
      } in
      let (last, there) =
        settle-Grows visiting key names t grown.sound fresh still_new built known in
      rw (sym same_state) (
        Grows-trans dependencies visiting s t (settle key names t)
            (Grows-pop visiting key s t grown) last,
        there,
      )

  visit-Visits :
      (fuel : ℕ) (visiting : List Text)
      → Visits dependencies visiting (visit dependencies fuel visiting)
  unfolding visit
  visit-Visits zero visiting key s s' sound e = cc
  visit-Visits (suc fuel) visiting key s s' sound e =
      elim (Bool-cases (member key (keys s.arguments))) [
        | inl known ↦
            let same_state : s ≡ s' = ground arith in
            rw (sym same_state) (Grows-refl dependencies visiting s sound, known)
        | inr new ↦ elim (Bool-cases (member key visiting)) [
          | inl cycle ↦ ground arith
          | inr fresh ↦
              visit_new-Grows visiting (visit dependencies fuel (visiting ++ key ∷ [])) key
                (lookup key dependencies) s s' (visit-Visits fuel (visiting ++ key ∷ [])) refl fresh
                new sound (rw (fresh, visit) at (rw (new, visit) at e))
        ]
      ]

  visit_all-Grows :
      (fuel : ℕ) (required : List Text) (s s' : Planning)
      → IsSound dependencies s
      → visit_all dependencies fuel required s ≡ planned s'
      → Grows dependencies [] s s' × All (Knows dependencies s') required
  unfolding visit_all
  visit_all-Grows fuel [] s s' sound e =
      let same_state : s ≡ s' = ground arith in
      rw (sym same_state) (Grows-refl dependencies [] s sound, tt)
  visit_all-Grows fuel (key ∷ required) s s' sound e =
      let (t, one, more) = bind-planned (visit dependencies fuel [] key s) _ s' e in
      let (grown, there) = visit-Visits fuel [] key s t sound one in
      let (grown', all_there) = visit_all-Grows fuel required t s' grown.sound more in
      (Grows-trans dependencies [] s t s' grown grown', (grown'.kept key there, all_there))

  -- A plan, once made, lists every required dependency and none twice. Each is provided, stands after
  -- all that its provider takes, and its provider takes what the application provides of its
  -- parameters, and has a default for each of the others.
  pub plan_dependencies-IsOrdered :
      (required : List Text) (plan : DependencyPlan)
      → plan_dependencies dependencies required ≡ planned plan
      → (plan.order ≡ keys plan.arguments)
        × IsOrdered dependencies [] plan.arguments
        × All (λ key. member key plan.order ≡ true) required
  unfolding plan_dependencies
  plan_dependencies-IsOrdered required plan e =
      let (s, all_visited, made) =
        bind-planned (visit_all dependencies _ required nothing_planned) _ plan e in
      let (grown, there) =
        visit_all-Grows _ required nothing_planned s (record { listed = refl; ordered = tt })
          all_visited in
      let same_order : s.order ≡ plan.order = ground arith in
      let same_arguments : s.arguments ≡ plan.arguments = ground arith in
      rw (sym same_order) (
        rw (sym same_arguments)
          (grown.sound.listed, grown.sound.ordered, rw grown.sound.listed there))

  pub providers-plan_dependencies :
      (required : List Text) (plan : DependencyPlan)
      → plan_dependencies dependencies required ≡ planned plan
      → plan.providers ≡ providers_of dependencies plan.order
  unfolding plan_dependencies
  providers-plan_dependencies required plan e =
      let (s, all_visited, made) =
        bind-planned (visit_all dependencies _ required nothing_planned) _ plan e in
      ground arith
