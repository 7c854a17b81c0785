-- ===== src/Core/Transport/Replies.antt =====
-- The reply of XCLAIM through a script: `parse_xclaim_reply` of src/smallage/core/scripts/__init__.py.
use litestar_rs.Prelude.{
  Text, Bytes, false, Option, some, none, List, [], ◌∷◌, ◌++◌, ◌≡◌, refl, sym, ◌∙◌, arith, All,
  All-any, same, same_iff, member, map,
}
use mathlib.Core.List.{append-nil, append_assoc}
use litestar_rs.Prelude.Dict.{put}
use litestar_rs.Python.{value_error}
use litestar_rs.Effect.{Outcome, returned}
use litestar_rs.Core.Envelope.{Record, Fields, or_raise, ◌>>=◌}
use litestar_rs.Core.Transport.{records_of}
use litestar_rs.Core.Transport.Commands.{Entry, RawEntry}

abbrev with_pair : Bytes × Bytes → Option Fields → Option Fields
with_pair pair none = none
with_pair pair (some pairs) = some (pair ∷ pairs)

-- `zip(flat[::2], flat[1::2], strict=True)`; `none` is ValueError
unfoldable pub pairs_of : List Bytes → Option Fields
pairs_of [] = some []
pairs_of (name ∷ []) = none
pairs_of (name ∷ value ∷ flat) = with_pair (name, value) (pairs_of flat)

-- `dict`, after the pairs of `fields`
unfoldable pub dict_of : Fields → Fields → Fields
dict_of fields [] = fields
dict_of fields ((name, value) ∷ pairs) = dict_of (put name value fields) pairs

unfoldable pub parse_xclaim_reply : Text → List (Option RawEntry) → Outcome (List Record)
parse_xclaim_reply stream [] = returned []
parse_xclaim_reply stream (none ∷ reply) = parse_xclaim_reply stream reply
parse_xclaim_reply stream (some (entry_id, flat) ∷ reply) = do
  pairs ← or_raise value_error (pairs_of flat)
  records ← parse_xclaim_reply stream reply
  returned (record { stream = stream; entry_id = entry_id; fields = dict_of [] pairs } ∷ records)

-- An entry as Redis sends it to a script: its fields one after the other.
abbrev pub flat_of : Fields → List Bytes
flat_of [] = []
flat_of ((name, value) ∷ fields) = name ∷ value ∷ flat_of fields

abbrev pub raw_of : Entry → Option RawEntry
raw_of (entry_id, fields) = some (entry_id, flat_of fields)

abbrev names_of : Fields → List Bytes
names_of [] = []
names_of ((name, value) ∷ fields) = name ∷ names_of fields

-- No field is listed twice.
abbrev pub IsDistinct : Fields → Type 0
IsDistinct [] = Unit
IsDistinct ((name, value) ∷ fields) = (member name (names_of fields) ≡ false) × IsDistinct fields

pairs_of-flat_of : (fields : Fields) → pairs_of (flat_of fields) ≡ some fields
unfolding pairs_of
pairs_of-flat_of [] = refl
pairs_of-flat_of ((name, value) ∷ fields) = rw (pairs_of-flat_of fields) refl

put_new :
    (name value : Bytes) (fields : Fields)
    → member name (names_of fields) ≡ false
    → put name value fields ≡ fields ++ (name, value) ∷ []
unfolding put member
put_new name value [] h = refl
put_new name value ((other, w) ∷ fields) h =
    ground (arith, put_new name value fields, same_iff name other, same_iff other name)

-- None of the names is listed in `fields`.
abbrev AreNew : Fields → Fields → Type 0
AreNew fields = All (λ (name, value). member name (names_of fields) ≡ false)

other_in :
    (name value other : Bytes) (fields : Fields)
    → same name other ≡ false
    → member other (names_of fields) ≡ false
    → member other (names_of (fields ++ (name, value) ∷ [])) ≡ false
unfolding member
other_in name value other [] h k = ground arith
other_in name value other ((first, w) ∷ fields) h k =
    ground (arith, other_in name value other fields)

AreNew-put :
    (name value : Bytes) (fields pairs : Fields)
    → member name (names_of pairs) ≡ false
    → AreNew fields pairs
    → AreNew (fields ++ (name, value) ∷ []) pairs
unfolding member
AreNew-put name value fields [] h new = tt
AreNew-put name value fields ((other, w) ∷ pairs) h (first, rest) = (
  other_in name value other fields (ground (arith, same_iff name other, same_iff other name)) first,
  AreNew-put name value fields pairs (ground arith) rest,
)

dict_of-append :
    (fields pairs : Fields)
    → IsDistinct pairs
    → AreNew fields pairs
    → dict_of fields pairs ≡ fields ++ pairs
unfolding dict_of
dict_of-append fields [] distinct new = sym (append-nil fields)
dict_of-append fields ((name, value) ∷ pairs) (fresh, distinct) (first, rest) =
    rw (put_new name value fields first) (
      dict_of-append (fields ++ (name, value) ∷ []) pairs distinct
        (AreNew-put name value fields pairs fresh rest)
      ∙ append_assoc fields ((name, value) ∷ []) pairs)

-- What a script hands on of entries that XCLAIM got becomes their records, none dropped, in the same
-- order and each with its fields.
pub parse_xclaim_reply-raw_of :
    (stream : Text) (entries : List Entry)
    → All (λ (entry_id, fields). IsDistinct fields) entries
    → parse_xclaim_reply stream (map raw_of entries) ≡ returned (records_of stream entries)
unfolding parse_xclaim_reply records_of member
parse_xclaim_reply-raw_of stream [] h = refl
parse_xclaim_reply-raw_of stream ((entry_id, fields) ∷ entries) (first, rest) =
    rw (pairs_of-flat_of fields, parse_xclaim_reply)
      (rw (parse_xclaim_reply-raw_of stream entries rest)
        (rw (dict_of-append [] fields first (All-any fields (λ pair. refl))) refl))
