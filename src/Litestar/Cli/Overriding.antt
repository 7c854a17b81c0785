-- ===== src/Litestar/Cli/Overriding.antt =====
-- What the command line's overrides make of a configuration: `with_overrides` of
-- src/smallage/litestar/cli.py.
use litestar_rs.Prelude.{Text, Option, none, some, List, [], ◌∷◌, ◌≡◌, ◌≢◌, ◌⊎◌, inl, inr, refl}
use litestar_rs.Prelude.Int.{ℤ}
use litestar_rs.Prelude.Dict.{first_some}
use litestar_rs.Python.{configuration_error}
use litestar_rs.Effect.{Outcome, Outcome-cases, returned, raised, cancelled}
use litestar_rs.Core.Envelope.{◌>>=◌}
use litestar_rs.Core.Floats.{Floats}
use litestar_rs.Core.Worker.Config.{check_config}
use litestar_rs.Litestar.Plugin.{QueueConfig, check_queue_config}
use litestar_rs.Litestar.Cli.{
  override_queues, override_concurrency, override_consumer, with_overrides,
}

abbrev pub IsStopped : {A : Type 0} → Outcome A → Type 0
IsStopped (returned a) = ⊥
IsStopped _ = Unit

bind-IsStopped :
    {A B : Type 0} (o : Outcome A) (k : A → Outcome B) → IsStopped o → IsStopped (o >>= k)
unfolding ◌>>=◌
bind-IsStopped (returned a) k h = absurd h
bind-IsStopped (raised e) k h = tt
bind-IsStopped cancelled k h = tt

pub not_returned : {A : Type 0} (o : Outcome A) (a : A) → IsStopped o → o ≢ returned a
not_returned (returned b) a h e = h
not_returned (raised exn) a h e = cc
not_returned cancelled a h e = cc

abbrev checked : {A : Type 0} → A → Text → Outcome A
checked a url = elim url [ [] ↦ raised configuration_error | x ∷ rest ↦ returned a ]

checked-cases :
    {A : Type 0} (a : A) (url : Text)
    → (checked a url ≡ returned a) ⊎ ((url ≡ []) × IsStopped (checked a url))
checked-cases a [] = inr (refl, tt)
checked-cases a (x ∷ rest) = inl refl

check_queue_config-cases :
    {F V : Type 0} (c : QueueConfig F V)
    → (check_queue_config c ≡ returned c) ⊎ ((c.redis_url ≡ []) × IsStopped (check_queue_config c))
unfolding check_queue_config
check_queue_config-cases c = checked-cases c c.redis_url

module _ {F V : Type 0} (fl : Floats F) (c : QueueConfig F V) where
  abbrev chosen : List Text → List Text → List Text
  chosen [] before = before
  chosen (queue ∷ queues) before = queue ∷ queues

  abbrev sized : Option ℤ → ℤ → ℤ
  sized none before = before
  sized (some n) before = n

  -- The configuration with the fields that the command line gives.
  abbrev pub overridden : List Text → Option ℤ → Option Text → QueueConfig F V
  overridden queues concurrency consumer = record c {
    queues = chosen queues c.queues;
    worker = record c.worker { concurrency = sized concurrency c.worker.concurrency };
    consumer = first_some consumer c.consumer;
  }

  -- There is no URL, or the concurrency that was asked for does not fit the worker's settings.
  abbrev pub IsRefused : Option ℤ → Type 0
  IsRefused concurrency =
      (c.redis_url ≡ [])
      ⊎ ((n : ℤ) × (concurrency ≡ some n)
          × (check_config fl (record c.worker { concurrency = n }) ≢ returned tt))

  queues-cases :
      (queues : List Text)
      → (override_queues queues c ≡ returned (record c { queues = chosen queues c.queues }))
        ⊎ ((c.redis_url ≡ []) × IsStopped (override_queues queues c))
  unfolding override_queues
  queues-cases [] = inl refl
  queues-cases (queue ∷ queues) = check_queue_config-cases (record c { queues = queue ∷ queues })

  consumer-cases :
      (consumer : Option Text)
      → (override_consumer consumer c
          ≡ returned (record c { consumer = first_some consumer c.consumer }))
        ⊎ ((c.redis_url ≡ []) × IsStopped (override_consumer consumer c))
  unfolding override_consumer
  consumer-cases none = inl refl
  consumer-cases (some name) = check_queue_config-cases (record c { consumer = some name })

  concurrency-cases :
      (concurrency : Option ℤ)
      → (override_concurrency fl concurrency c
          ≡ returned (record c {
            worker = record c.worker { concurrency = sized concurrency c.worker.concurrency };
          }))
        ⊎ (IsRefused concurrency × IsStopped (override_concurrency fl concurrency c))
  unfolding override_concurrency ◌>>=◌
  concurrency-cases none = inl refl
  concurrency-cases (some n) =
      elim (Outcome-cases (check_config fl (record c.worker { concurrency = n }))) [
        | inl (inr (exn, e)) ↦ inr (inr (n, refl, λ h. cc), rw e tt)
        | inr e ↦ inr (inr (n, refl, λ h. cc), rw e tt)
        | inl (inl (done, e)) ↦
            let wide = record c { worker = record c.worker { concurrency = n } } in
            elim (check_queue_config-cases wide) [
              | inl f ↦ inl (rw e f)
              | inr (f, stopped) ↦ inr (inl f, rw e stopped)
            ]
      ]

module _ {F V : Type 0} (fl : Floats F) (c : QueueConfig F V) where
  -- An override changes its field and no other, or there is a reason to refuse it.
  pub with_overrides-cases :
      (queues : List Text) (concurrency : Option ℤ) (consumer : Option Text)
      → (with_overrides fl c queues concurrency consumer
          ≡ returned (overridden fl c queues concurrency consumer))
        ⊎ (IsRefused fl c concurrency × IsStopped (with_overrides fl c queues concurrency consumer))
  unfolding with_overrides
  with_overrides-cases queues concurrency consumer = elim (queues-cases fl c queues) [
    | inr (why, stopped) ↦ inr (inl why, bind-IsStopped (override_queues queues c) _ stopped)
    | inl e ↦
        let queued = record c { queues = chosen fl c queues c.queues } in
        elim (concurrency-cases fl queued concurrency) [
          | inr (why, stopped) ↦
              inr
                (why, rw e (bind-IsStopped (override_concurrency fl concurrency queued) _ stopped))
          | inl f ↦
              let wide = record queued {
                worker = record c.worker {
                  concurrency = sized fl c concurrency c.worker.concurrency;
                };
              } in
              elim (consumer-cases fl wide consumer) [
                | inr (why, stopped) ↦ inr (inl why, rw e (rw f stopped))
                | inl g ↦ inl (rw e (rw f g))
              ]
        ]
  ]
