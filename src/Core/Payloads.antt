-- ===== src/Core/Payloads.antt =====
-- Payloads as files under one directory: src/smallage/core/payloads.py, over the file system.
pub mod Whole
use litestar_rs.Prelude.{
  Text, Bytes, text, same, has_char, ◌==◌, Bool, true, false, not, ◌||◌, Option, some, none, List,
  [], ◌∷◌, ◌++◌, ◌≡◌, ◌≢◌, if◌then◌else◌,
}
use litestar_rs.Python.{configuration_error, payload_missing}
use litestar_rs.Effect.{Outcome, returned, raised, cancelled}

-- pathlib: `root / name`, `with_suffix`, `name` and `is_absolute`, on paths as text.
pub record Paths : Type 0 where
  pub join : Text → Text → Text
  pub with_suffix : Text → Text → Text
  pub name : Text → Text
  pub is_absolute : Text → Bool

-- What is done to the state `S` of the file system; `read_bytes` is `none` on FileNotFoundError.
pub record Files (S : Type 0) : Type 0 where
  pub read_bytes : Text → S → Option Bytes
  pub write_bytes : Text → Bytes → S → Outcome (Unit {0}) × S
  pub rename : Text → Text → S → Outcome (Unit {0}) × S
  pub unlink : Text → S → Outcome (Unit {0}) × S
  pub mkdir : Text → S → Outcome (Unit {0}) × S

abbrev pub scheme : Text
scheme = text "file://"

abbrev pub payload_suffix : Text
payload_suffix = text ".payload"

abbrev pub partial_suffix : Text
partial_suffix = text ".partial"

-- `m` and then `f`, where `m` returned.
abbrev pub and_then : {S A : Type 0} → Outcome (Unit {0}) × S → (S → Outcome A × S) → Outcome A × S
and_then (returned _, s) f = f s
and_then (raised x, s) f = (raised x, s)
and_then (cancelled, s) f = (cancelled, s)

-- `s.removeprefix(prefix)`
unfoldable pub strip_prefix : Text → Text → Option Text
strip_prefix [] s = some s
strip_prefix (c ∷ prefix) [] = none
strip_prefix (c ∷ prefix) (d ∷ s) =
    let rest = strip_prefix prefix s in if c == d then rest else none

abbrev pub or_whole : Option Text → Text → Text
or_whole none s = s
or_whole (some rest) s = rest

abbrev pub remove_prefix : Text → Text → Text
remove_prefix prefix s = or_whole (strip_prefix prefix s) s

unfoldable pub is_unusable : Text → Bool
is_unusable job_id =
    has_char b'/' job_id || same job_id [] || same job_id (text ".") || same job_id (text "..")

module _ {S : Type 0} (paths : Paths) (files : Files S) where
  -- `__init__`, which returns the root
  unfoldable pub init : Text → S → Outcome Text × S
  init root s =
      if not (paths.is_absolute root)
      then (raised configuration_error, s)
      else and_then (files.mkdir root s) (λ s'. (returned root, s'))

  unfoldable pub path_of : Text → Text → Outcome Text
  path_of root job_id =
      if is_unusable job_id
      then raised configuration_error
      else returned (paths.join root (job_id ++ payload_suffix))

  abbrev pub put_at : Text → Bytes → S → Outcome Text × S
  put_at path payload s =
      and_then (files.write_bytes (paths.with_suffix path partial_suffix) payload s) (λ s'.
        and_then (files.rename (paths.with_suffix path partial_suffix) path s')
          (λ s''. (returned (scheme ++ path), s'')))

  unfoldable pub put : Text → Text → Bytes → S → Outcome Text × S
  put root job_id payload s = elim (path_of root job_id) [
    | returned path ↦ put_at path payload s
    | raised x ↦ (raised x, s)
    | cancelled ↦ (cancelled, s)
  ]

  unfoldable pub get : Text → S → Outcome Bytes
  get reference s = elim (files.read_bytes (remove_prefix scheme reference) s) [
    | none ↦ raised payload_missing
    | some payload ↦ returned payload
  ]

  unfoldable pub discard : Text → S → Outcome (Unit {0}) × S
  discard reference s = files.unlink (remove_prefix scheme reference) s
