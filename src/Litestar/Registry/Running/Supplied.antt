-- ===== src/Litestar/Registry/Running/Supplied.antt =====
-- The arguments of the calls that `execute` of src/smallage/litestar/registry.py makes.
use litestar_rs.Litestar.Di.Resolving.Chosen.{Chosen, resolved-AllChosen}
use litestar_rs.Prelude.{
  Text, Bool-cases, ◌||◌, Option-cases, List, [], ◌∷◌, ◌≡◌, inl, inr, refl, sym, ap, arith, All,
  All-append, member, same, same_iff,
}
use mathlib.Core.Path.{subst}
use litestar_rs.Prelude.Dict.{lookup, put}
use litestar_rs.Effect.{returned, Outcome-cases, World, asks, scoped, relabel, ◌>>=◌}
use litestar_rs.Effect.Keeps.{
  Keeps, Gives, Keeps-pure, Keeps-lift, Keeps-asks, Keeps-modify, Keeps-perform, Keeps-bind,
  Keeps-bind_lift, Keeps-bind-gives, Gives-lift, Gives-bind, Keeps-finally,
}
use litestar_rs.Litestar.Di.{Dependencies, keys}
use litestar_rs.Litestar.Di.Resolving.{Use, provide, enter, leave, run_block, unopened, Uses, given}
use litestar_rs.Litestar.Registry.{Function, Task, bind_all, BoundTask, Structs, bound_task}
use litestar_rs.Litestar.Registry.Binding.{
  names, or_raise-some, IsSplit, bind_all-AreBound, returned_injective,
}
use litestar_rs.Core.Envelope.{Envelope}
use litestar_rs.Litestar.Registry.Calls.{
  Invocation, on_thread, awaited, awaited_within, Call, depend, Calls, Env, Process,
}
use litestar_rs.Litestar.Registry.Running.{
  update, invocation, call_with, attributes, fetch, open_payload, inject, run_bound, execute,
}

module _ {V : Type 0} where
  member-keys-put :
      (key name : Text) (v : V) (d : List (Text × V))
      → member name (keys (put key v d)) ≡ (same key name || member name (keys d))
  unfolding member put
  member-keys-put key name v [] = ground arith
  member-keys-put key name v ((other, w) ∷ d) = ground (
    arith,
    same_iff other key,
    same_iff other name,
    same_iff key name,
    member-keys-put key name v d,
  )

  member-keys-update :
      (name : Text) (d e : List (Text × V))
      → member name (keys (update d e)) ≡ (member name (keys d) || member name (keys e))
  unfolding member update
  member-keys-update name d [] = ground arith
  member-keys-update name d ((key, v) ∷ e) =
      ground (arith, member-keys-update name (put key v d) e, member-keys-put key name v d)

  keys-given :
      (wanted : List Text) (values found : List (Text × V))
      → given wanted values ≡ returned found
      → keys found ≡ wanted
  unfolding given
  keys-given [] values found e = subst (λ d. keys d ≡ []) (returned_injective e) refl
  keys-given (name ∷ wanted) values found e = elim (Option-cases (lookup name values)) [
    | inl absent ↦ ground arith
    | inr (v, there) ↦ elim (Outcome-cases (given wanted values)) [
      | inl (inl (more, rest)) ↦
          let made : (name, v) ∷ more ≡ found = ground arith in
          subst (λ d. keys d ≡ name ∷ wanted) made
            (ap (◌∷◌ name) (keys-given wanted values more rest))
      | inl (inr (x, rest)) ↦ ground arith
      | inr rest ↦ ground arith
    ]
  ]

module _ {V T I : Type 0} (structs : Structs V T I) where
  keys-attributes :
      (arguments : I) (fields : List Text) (found : List (Text × V))
      → attributes structs arguments fields ≡ returned found
      → keys found ≡ fields
  unfolding attributes
  keys-attributes arguments [] found e = subst (λ d. keys d ≡ []) (returned_injective e) refl
  keys-attributes arguments (field ∷ fields) found e =
      elim (Outcome-cases (structs.attribute arguments field)) [
        | inl (inl (v, there)) ↦ elim (Outcome-cases (attributes structs arguments fields)) [
          | inl (inl (more, rest)) ↦
              let made : (field, v) ∷ more ≡ found = ground arith in
              subst (λ d. keys d ≡ field ∷ fields) made
                (ap (◌∷◌ field) (keys-attributes arguments fields more rest))
          | inl (inr (x, rest)) ↦ ground arith
          | inr rest ↦ ground arith
        ]
        | inl (inr (x, fails)) ↦ ground arith
        | inr fails ↦ ground arith
      ]

module _ {V : Type 0} where
  -- A call of a function gives an argument for each of its parameters, and no other.
  abbrev pub IsSupplied : Function V → List (Text × V) → Type 0
  IsSupplied function arguments =
      (name : Text) → member name (keys arguments) ≡ member name (names function.parameters)

  abbrev pub IsProper : Invocation V → Type 0
  IsProper (on_thread limiter function arguments) = IsSupplied function arguments
  IsProper (awaited function arguments) = IsSupplied function arguments
  IsProper (awaited_within timeout_s function arguments) = IsSupplied function arguments

  abbrev pub Supplied : Call V → Type 0
  Supplied (depend (run_block invocation)) = IsProper invocation
  Supplied other = Unit

  abbrev pub AllSupplied : Calls V → Type 0
  AllSupplied t = All (λ event. Supplied event.call) t

  invocation-IsProper :
      {T : Type 0} (task : BoundTask V T) (threads : V) (arguments : List (Text × V))
      → IsSupplied task.function arguments
      → IsProper (invocation task threads arguments)
  unfolding invocation
  invocation-IsProper task threads arguments h = elim (Bool-cases task.is_async) [
    | inr sync ↦ rw sync h
    | inl async ↦ rw async (elim (Option-cases task.timeout_s) [
      | inl unlimited ↦ rw unlimited h
      | inr (timeout_s, limited) ↦ rw limited h
    ])
  ]

  relabel-AllSupplied :
      (t : Uses (Invocation V) V)
      → All (λ event. Chosen IsProper event.call) t
      → AllSupplied (relabel depend t)
  relabel-AllSupplied [] h = tt
  relabel-AllSupplied (event ∷ before) (first, rest) =
      (supplied event.call first, relabel-AllSupplied before rest)
    where
      supplied : (asked : Use (Invocation V) V) → Chosen IsProper asked → Supplied (depend asked)
      supplied (run_block b) h = h
      supplied (provide key arguments) h = tt
      supplied (enter v) h = tt
      supplied (leave v) h = tt

  module _ {T : Type 0} (dependencies : Dependencies) (task : BoundTask V T)
      (split : IsSplit dependencies task.function.parameters task.injected
        task.payload_fields) where
    call_with-IsProper :
        (threads : V) (payload : List (Text × V)) (values : List (Text × V)) (chosen : Invocation V)
        → keys payload ≡ task.payload_fields
        → call_with task threads payload (given task.injected values) ≡ returned chosen
        → IsProper chosen
    unfolding call_with
    call_with-IsProper threads payload values chosen fields e =
        elim (Outcome-cases (given task.injected values)) [
          | inl (inl (found, there)) ↦
              let made : invocation task threads (update payload found) ≡ chosen = ground arith in
              subst IsProper made (
                invocation-IsProper task threads (update payload found) (λ name. ground (
                  arith,
                  member-keys-update name payload found,
                  split name,
                  ap (member name) fields,
                  ap (member name) (keys-given task.injected values found there),
                )))
          | inl (inr (x, there)) ↦ ground arith
          | inr there ↦ ground arith
        ]

    inject-AllSupplied :
        (env : Env V) (payload : List (Text × V))
        → keys payload ≡ task.payload_fields
        → Keeps (λ w. AllSupplied w.trace) (inject env task payload)
    unfolding inject scoped
    inject-AllSupplied env payload fields = Keeps-bind _ _ (Keeps-asks _) (λ threads. record {
      at = λ w h.
          All-append _ _ w.trace
            (relabel-AllSupplied _ (
              (resolved-AllChosen IsProper (env.application w.trace) task.plan _
                  (λ values chosen e. call_with-IsProper threads payload values chosen fields e)).at
                unopened tt))
            h;
    })

module _ {V T I : Type 0} (structs : Structs V T I) (env : Env V)
    (dependencies : Dependencies) where
  fetch-AllSupplied :
      (envelope : Envelope) → Keeps (λ w. AllSupplied w.trace) (fetch {T = T} env envelope)
  unfolding fetch
  fetch-AllSupplied envelope = elim (Option-cases envelope.payload_ref) [
    | inl inline ↦ rw inline (Keeps-pure _)
    | inr (reference, stored) ↦ rw stored (
        Keeps-bind _ _ (Keeps-asks _) (λ configured.
          Keeps-bind _ _ (Keeps-lift _) (λ payloads. Keeps-perform _ _ _ (λ o w h. (tt, h)))))
  ]

  open_payload-fields :
      (task : BoundTask V T) (envelope : Envelope)
      → Gives
          (λ w. AllSupplied w.trace)
          (open_payload structs env task envelope)
          (λ payload w. keys payload ≡ task.payload_fields)
  unfolding open_payload
  open_payload-fields task envelope = Gives-bind _ _ (fetch-AllSupplied envelope) (λ raw.
      Gives-bind _ _ (Keeps-asks _) (λ decoders. Gives-bind _ _ (Keeps-lift _) (λ arguments.
        Gives-lift _
          (λ payload w e. keys-attributes structs arguments task.payload_fields payload e))))

  run-AllSupplied :
      (task : BoundTask V T) (envelope : Envelope)
      → IsSplit dependencies task.function.parameters task.injected task.payload_fields
      → Keeps (λ w. AllSupplied w.trace) (run_bound structs env task envelope)
  unfolding run_bound
  run-AllSupplied task envelope split =
      Keeps-bind-gives _ _ (open_payload-fields task envelope) (λ payload w h fields.
        (Keeps-bind _ _ (Keeps-asks _) (λ before. Keeps-bind _ _ (Keeps-modify _ (λ w h. h)) (λ _.
            Keeps-finally _ _ (inject-AllSupplied dependencies task split env payload fields)
              (λ w h. h)))).at
          w h)

  -- Whatever the providers, the payload store and the decoder answer: once the tasks are bound, each
  -- call of a task's function that running an entry makes gives an argument for each parameter of
  -- the function, and no other.
  pub execute-AllSupplied :
      (declared : List (Text × Task V)) (envelope : Envelope) (w : World (Process V T) (Call V))
      → bind_all structs dependencies declared ≡ returned w.state.registry.bound
      → AllSupplied w.trace
      → AllSupplied (execute structs env envelope w).1.trace
  unfolding execute bound_task asks ◌>>=◌
  execute-AllSupplied declared envelope w settled h =
      let (listed, found) =
        bind_all-AreBound structs dependencies declared w.state.registry.bound settled in
      (Keeps-bind_lift (bound_task envelope.task w.state.registry)
          (λ task. run_bound structs env task envelope)
          (λ task e.
            let (declared_task, there, is_bound) =
              found envelope.task task (or_raise-some _ _ task e) in
            run-AllSupplied task envelope (
              subst (λ f. IsSplit dependencies f.parameters task.injected task.payload_fields)
                (sym is_bound.function) is_bound.split))).at
        w h
