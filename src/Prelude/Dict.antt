-- ===== src/Prelude/Dict.antt =====
-- Python's `dict` with text or bytes keys, as an association list in insertion order.
use mathlib.Core.Path.{◌≡◌, refl}
use mathlib.Core.Option.{Option, none, some}
use mathlib.Core.List.{List, [], ◌∷◌}
use native.Mathlib.Omega.{arith}
use litestar_rs.Prelude.Tests.{if◌then◌else◌}
use litestar_rs.Prelude.Texts.{Text, same, same_iff}

module _ {ℓ} {V : Type ℓ} where
  -- `d.get(k)`
  unfoldable pub lookup : Text → List (Text × V) → Option V
  lookup k [] = none
  lookup k ((j, v) ∷ d) = if same j k then some v else lookup k d

  -- `d[k] = v`: a key that is there keeps its place
  unfoldable pub put : Text → V → List (Text × V) → List (Text × V)
  put k v [] = (k, v) ∷ []
  put k v ((j, w) ∷ d) = if same j k then (j, v) ∷ d else (j, w) ∷ put k v d

  -- `if v is not None: d[k] = v`
  unfoldable pub put_some : Text → Option V → List (Text × V) → List (Text × V)
  put_some k none d = d
  put_some k (some v) d = put k v d

  abbrev pub first_some : Option V → Option V → Option V
  first_some none o = o
  first_some (some v) o = some v

  pub lookup-put :
      (k j : Text) (v : V) (d : List (Text × V))
      → lookup j (put k v d) ≡ (if same k j then some v else lookup j d)
  unfolding lookup put
  lookup-put k j v [] = refl
  lookup-put k j v ((i, w) ∷ d) =
      ground (arith, same_iff k j, same_iff i k, same_iff i j, lookup-put k j v d)

  pub lookup-put_some :
      (k j : Text) (o : Option V) (d : List (Text × V))
      → lookup j (put_some k o d) ≡ (if same k j then first_some o (lookup j d) else lookup j d)
  unfolding put_some
  lookup-put_some k j none d = ground arith
  lookup-put_some k j (some v) d = lookup-put k j v d

pub ruleset dict_laws = (lookup-put, lookup-put_some)
