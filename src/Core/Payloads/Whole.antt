-- ===== src/Core/Payloads/Whole.antt =====
-- What a reader sees of payloads while `put` of src/smallage/core/payloads.py runs or fails.
use mathlib.Core.Path.{subst}
use mathlib.Core.List.{reverse, reverse-append, append_cancel_right}
use litestar_rs.Prelude.{
  ℕ, Text, Bytes, Bool-cases, false, some, List, [], ◌∷◌, ◌++◌, ◌≡◌, ◌≢◌, ◌⊎◌, inl, inr, refl, sym,
  ap, ◌∙◌, arith, same, same_iff, same→eq,
}
use litestar_rs.Python.{Exn}
use litestar_rs.Effect.{Outcome, returned, raised, cancelled, Outcome-cases}
use litestar_rs.Core.Payloads.{
  Paths, Files, scheme, payload_suffix, partial_suffix, and_then, strip_prefix, remove_prefix,
  or_whole, is_unusable, path_of, put_at, put, get,
}

-- What pathlib and a file system document: the names of paths, and which files a call changes.
pub record IsFileSystem {S : Type 0} (paths : Paths) (files : Files S) : Type 0 where
  pub name_payload :
      (root stem : Text)
      → is_unusable stem ≡ false
      → paths.name (paths.join root (stem ++ payload_suffix)) ≡ stem ++ payload_suffix
  pub name_partial :
      (root stem : Text)
      → is_unusable stem ≡ false
      → paths.name (paths.with_suffix (paths.join root (stem ++ payload_suffix)) partial_suffix)
        ≡ stem ++ partial_suffix
  pub write_elsewhere :
      (path other : Text) (payload : Bytes) (s : S)
      → other ≢ path
      → files.read_bytes other (files.write_bytes path payload s).1 ≡ files.read_bytes other s
  pub write_done :
      (path : Text) (payload : Bytes) (s : S)
      → (files.write_bytes path payload s).0 ≡ returned tt
      → files.read_bytes path (files.write_bytes path payload s).1 ≡ some payload
  pub rename_done :
      (path target : Text) (s : S)
      → (files.rename path target s).0 ≡ returned tt
      → files.read_bytes target (files.rename path target s).1 ≡ files.read_bytes path s
  pub rename_failed :
      (path target other : Text) (s : S)
      → (files.rename path target s).0 ≢ returned tt
      → files.read_bytes other (files.rename path target s).1 ≡ files.read_bytes other s
  pub rename_elsewhere :
      (path target other : Text) (s : S)
      → other ≢ path
      → other ≢ target
      → files.read_bytes other (files.rename path target s).1 ≡ files.read_bytes other s

abbrev first_or_zero : List ℕ → ℕ
first_or_zero [] = 0
first_or_zero (n ∷ rest) = n

suffixes_differ : (a b : Text) → a ++ payload_suffix ≢ b ++ partial_suffix
suffixes_differ a b e =
    let turned : reverse payload_suffix ++ reverse a ≡ reverse partial_suffix ++ reverse b =
      sym (reverse-append a payload_suffix) ∙ ap reverse e ∙ reverse-append b partial_suffix in
    let firsts : 100 ≡ 108 = ap first_or_zero turned in absurd (omega (arith, firsts))

strip_prefix-append : (prefix s : Text) → strip_prefix prefix (prefix ++ s) ≡ some s
unfolding strip_prefix
strip_prefix-append [] s = refl
strip_prefix-append (c ∷ prefix) s = ground (arith, strip_prefix-append prefix s)

module _ {S A : Type 0} (m : Outcome (Unit {0}) × S) (f : S → Outcome A × S) where
  and_then_done : m.0 ≡ returned tt → and_then m f ≡ f m.1
  and_then_done e = rw e refl

  and_then_raised : (x : Exn) → m.0 ≡ raised x → and_then m f ≡ (raised x, m.1)
  and_then_raised x e = rw e refl

  and_then_cancelled : m.0 ≡ cancelled → and_then m f ≡ (cancelled, m.1)
  and_then_cancelled e = rw e refl

module _ {S : Type 0} (paths : Paths) (files : Files S) where
  got :
      (reference : Text) (payload : Bytes) (s : S)
      → files.read_bytes (remove_prefix scheme reference) s ≡ some payload
      → get paths files reference s ≡ returned payload
  unfolding get
  got reference payload s read = ground (arith, read)

  put_usable :
      (root job_id : Text) (payload : Bytes) (s : S)
      → is_unusable job_id ≡ false
      → put paths files root job_id payload s
        ≡ put_at paths files (paths.join root (job_id ++ payload_suffix)) payload s
  unfolding put path_of
  put_usable root job_id payload s usable = ground (arith, usable)

module _ {S : Type 0} (paths : Paths) (files : Files S) (laws : IsFileSystem paths files)
    (root : Text) where
  abbrev payload_path : Text → Text
  payload_path job_id = paths.join root (job_id ++ payload_suffix)

  abbrev staging_path : Text → Text
  staging_path job_id = paths.with_suffix (payload_path job_id) partial_suffix

  staging_apart :
      (other job_id : Text)
      → is_unusable other ≡ false
      → is_unusable job_id ≡ false
      → payload_path other ≢ staging_path job_id
  staging_apart other job_id u v e =
      suffixes_differ other job_id
        (sym (laws.name_payload root other u) ∙ ap paths.name e ∙ laws.name_partial root job_id v)

  payload_path_injective :
      (other job_id : Text)
      → is_unusable other ≡ false
      → is_unusable job_id ≡ false
      → payload_path other ≡ payload_path job_id
      → other ≡ job_id
  payload_path_injective other job_id u v e =
      append_cancel_right other job_id payload_suffix
        (sym (laws.name_payload root other u) ∙ ap paths.name e ∙ laws.name_payload root job_id v)

  -- The file of `other` is as it was, or `other` is the job and it has the payload.
  abbrev pub IsWhole : Text → Text → Bytes → S → S → Type 0
  IsWhole other job_id payload s s' =
      (files.read_bytes (payload_path other) s' ≡ files.read_bytes (payload_path other) s)
      ⊎ ((other ≡ job_id) × (files.read_bytes (payload_path other) s' ≡ some payload))

  -- Putting failed, or what it returned leads back to the payload.
  abbrev pub IsPut : Bytes → Outcome Text × S → Type 0
  IsPut payload (o, s') =
      ((reference : Text) × (o ≡ returned reference)
        × (get paths files reference s' ≡ returned payload))
      ⊎ (((x : Exn) × (o ≡ raised x)) ⊎ (o ≡ cancelled))

  module _ (job_id other : Text) (payload : Bytes) (s : S) (usable : is_unusable job_id ≡ false)
      (other_usable : is_unusable other ≡ false) where
    abbrev written : Outcome (Unit {0}) × S
    written = files.write_bytes (staging_path job_id) payload s

    abbrev renamed : Outcome (Unit {0}) × S
    renamed = files.rename (staging_path job_id) (payload_path job_id) written.1

    written_elsewhere :
        files.read_bytes (payload_path other) written.1 ≡ files.read_bytes (payload_path other) s
    written_elsewhere =
        laws.write_elsewhere (staging_path job_id) (payload_path other) payload s
          (staging_apart other job_id other_usable usable)

    renamed_failed :
        renamed.0 ≢ returned tt
        → files.read_bytes (payload_path other) renamed.1 ≡ files.read_bytes (payload_path other) s
    renamed_failed fails =
        laws.rename_failed (staging_path job_id) (payload_path job_id) (payload_path other)
          written.1 fails
        ∙ written_elsewhere

    landed :
        written.0 ≡ returned tt
        → renamed.0 ≡ returned tt
        → files.read_bytes (payload_path job_id) renamed.1 ≡ some payload
    landed e1 e2 =
        laws.rename_done (staging_path job_id) (payload_path job_id) written.1 e2
        ∙ laws.write_done (staging_path job_id) payload s e1

    renamed-IsWhole :
        written.0 ≡ returned tt → renamed.0 ≡ returned tt → IsWhole other job_id payload s renamed.1
    renamed-IsWhole e1 e2 = elim (Bool-cases (same other job_id)) [
      | inl here ↦
          let name : other ≡ job_id = same→eq other job_id here in
          inr (name, rw name (landed e1 e2))
      | inr elsewhere ↦ inl (
          laws.rename_elsewhere (staging_path job_id) (payload_path job_id) (payload_path other)
            written.1 (staging_apart other job_id other_usable usable)
            (λ e.
              (let name = payload_path_injective other job_id other_usable usable e in
                absurd (ground (arith, same_iff other job_id))))
          ∙ written_elsewhere)
    ]

    get_landed :
        (s' : S)
        → files.read_bytes (payload_path job_id) s' ≡ some payload
        → get paths files (scheme ++ payload_path job_id) s' ≡ returned payload
    get_landed s' e =
        let reference : Text = scheme ++ payload_path job_id in
        let read : files.read_bytes (remove_prefix scheme reference) s' ≡ some payload =
          ap (λ o. files.read_bytes (or_whole o reference) s')
            (strip_prefix-append scheme (payload_path job_id))
          ∙ e in
        got paths files reference payload s' read

    -- The files are whole, and the payload is there unless putting it failed.
    abbrev pub IsSafe : Outcome Text × S → Type 0
    IsSafe r = IsWhole other job_id payload s r.1 × IsPut payload r

    rename-IsSafe :
        written.0 ≡ returned tt
        → IsSafe (and_then renamed (λ s''. (returned (scheme ++ payload_path job_id), s'')))
    rename-IsSafe e1 = elim (Outcome-cases renamed.0) [
      | inl (inl (u, e2)) ↦
          subst IsSafe (sym (and_then_done renamed _ e2))
            (renamed-IsWhole e1 e2, inl (_, refl, get_landed renamed.1 (landed e1 e2)))
      | inl (inr (x, e2)) ↦
          subst IsSafe (sym (and_then_raised renamed _ x e2))
            (inl (renamed_failed (λ e. cc)), inr (inl (x, refl)))
      | inr e2 ↦
          subst IsSafe (sym (and_then_cancelled renamed _ e2))
            (inl (renamed_failed (λ e. cc)), inr (inr refl))
    ]

    put_at-IsSafe : IsSafe (put_at paths files (payload_path job_id) payload s)
    put_at-IsSafe = elim (Outcome-cases written.0) [
      | inl (inl (u, e1)) ↦ subst IsSafe (sym (and_then_done written _ e1)) (rename-IsSafe e1)
      | inl (inr (x, e1)) ↦
          subst IsSafe (sym (and_then_raised written _ x e1))
            (inl written_elsewhere, inr (inl (x, refl)))
      | inr e1 ↦
          subst IsSafe (sym (and_then_cancelled written _ e1))
            (inl written_elsewhere, inr (inr refl))
    ]

    -- However a put ends, also where the write stops half way: every other job's payload reads as
    -- before, and the job's own reads as before or is the whole payload; and unless the put failed,
    -- the reference that it returned leads back to the payload.
    pub put-IsSafe : IsSafe (put paths files root job_id payload s)
    put-IsSafe =
        subst IsSafe (sym (put_usable paths files root job_id payload s usable)) put_at-IsSafe
