-- ===== src/Core/Envelope/Roundtrip.antt =====
-- What is written by `to_fields` is read back by `from_fields`.
use litestar_rs.Prelude.{
  All, Text, Bytes, text, same, Option, some, none, List, [], ◌∷◌, ◌≡◌, ◌≢◌, refl,
}
use litestar_rs.Prelude.Int.{ℤ}
use litestar_rs.Prelude.Dict.{lookup, dict_laws, first_some}
use litestar_rs.Python.{Python, encode-eq-nil}
use litestar_rs.Effect.{returned}
use litestar_rs.Core.Envelope.{
  Envelope, NoNewline, envelope_version, to_fields, from_fields, encode_some, str_some,
  history_field, optional, decoded, number, lines_of, join_lines,
}
use litestar_rs.Core.Envelope.Lines.{split-join}

first_some-none : {A : Type 0} (o : Option A) → first_some o none ≡ o
first_some-none none = refl
first_some-none (some a) = refl

ruleset reads = (dict_laws, first_some-none)

join-ne-nil :
    (line : Text) (more : List Text) → (line ∷ more) ≢ [] ∷ [] → join_lines (line ∷ more) ≢ []
unfolding join_lines
join-ne-nil [] [] solid e = solid refl
join-ne-nil (c ∷ line) [] solid e = cc
join-ne-nil [] (next ∷ more) solid e = cc
join-ne-nil (c ∷ line) (next ∷ more) solid e = cc

-- Where each field of an envelope stands in its entry.
module _ (py : Python) (e : Envelope) where
  pub lookup-v : lookup (text "v") (to_fields py e) ≡ some envelope_version
  unfolding to_fields same lookup
  lookup-v = simp reads

  lookup-id : lookup (text "id") (to_fields py e) ≡ some (py.encode e.id)
  unfolding to_fields same lookup
  lookup-id = simp reads

  lookup-task : lookup (text "task") (to_fields py e) ≡ some (py.encode e.task)
  unfolding to_fields same lookup
  lookup-task = simp reads

  lookup-payload : lookup (text "payload") (to_fields py e) ≡ some e.payload
  unfolding to_fields same lookup
  lookup-payload = simp reads

  lookup-enqueued_at :
      lookup (text "enqueued_at") (to_fields py e) ≡ some (py.encode (py.str_int e.enqueued_at))
  unfolding to_fields same lookup
  lookup-enqueued_at = simp reads

  lookup-attempt :
      lookup (text "attempt") (to_fields py e) ≡ some (py.encode (py.str_int e.attempt))
  unfolding to_fields same lookup
  lookup-attempt = simp reads

  lookup-payload_ref : lookup (text "payload_ref") (to_fields py e) ≡ encode_some py e.payload_ref
  unfolding to_fields same lookup
  lookup-payload_ref = simp reads

  lookup-traceparent : lookup (text "traceparent") (to_fields py e) ≡ encode_some py e.traceparent
  unfolding to_fields same lookup
  lookup-traceparent = simp reads

  lookup-tracestate : lookup (text "tracestate") (to_fields py e) ≡ encode_some py e.tracestate
  unfolding to_fields same lookup
  lookup-tracestate = simp reads

  lookup-dedup : lookup (text "dedup") (to_fields py e) ≡ encode_some py e.dedup
  unfolding to_fields same lookup
  lookup-dedup = simp reads

  lookup-result_ttl_ms :
      lookup (text "result_ttl_ms") (to_fields py e) ≡ str_some py e.result_ttl_ms
  unfolding to_fields same lookup
  lookup-result_ttl_ms = simp reads

  lookup-history : lookup (text "history") (to_fields py e) ≡ history_field py e.history
  unfolding to_fields same lookup
  lookup-history = simp reads

  optional-encode : (o : Option Text) → optional (decoded py) (encode_some py o) ≡ returned o
  optional-encode none = refl
  optional-encode (some s) = rw (py.decode-encode s)

  optional-str : (o : Option ℤ) → optional (number py) (str_some py o) ≡ returned o
  optional-str none = refl
  optional-str (some n) = rw (py.int-str n)

  lines-encode :
      (line : Text) (more : List Text)
      → All NoNewline (line ∷ more)
      → (line ∷ more) ≢ [] ∷ []
      → lines_of py (some (py.encode (join_lines (line ∷ more)))) ≡ returned (line ∷ more)
  lines-encode line more clean solid = go (py.encode (join_lines (line ∷ more))) refl
    where
      go :
          (b : Bytes)
          → py.encode (join_lines (line ∷ more)) ≡ b
          → lines_of py (some b) ≡ returned (line ∷ more)
      go [] h = absurd (join-ne-nil line more solid (encode-eq-nil py _ h))
      go (b ∷ bs) h = rw (← h, py.decode-encode, split-join line more clean)

  lines_of-history_field :
      (lines : List Text)
      → All NoNewline lines
      → lines ≢ [] ∷ []
      → lines_of py (history_field py lines) ≡ returned lines
  lines_of-history_field [] clean solid = refl
  lines_of-history_field (line ∷ more) clean solid = lines-encode line more clean solid

  -- Decoding the entry that a job was written to gives the job back, if no line of its history
  -- holds a newline and the history is not one empty line.
  pub from_fields-to_fields :
      All NoNewline e.history → e.history ≢ [] ∷ [] → from_fields py (to_fields py e) ≡ returned e
  unfolding from_fields same
  from_fields-to_fields clean solid = simp (
    lookup-v,
    lookup-id,
    lookup-task,
    lookup-payload,
    lookup-enqueued_at,
    lookup-attempt,
    lookup-payload_ref,
    lookup-traceparent,
    lookup-tracestate,
    lookup-dedup,
    lookup-result_ttl_ms,
    lookup-history,
    optional-encode,
    optional-str,
    py.decode-encode,
    py.int-str,
    lines_of-history_field e.history clean solid,
  )
