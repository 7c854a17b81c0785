-- ===== src/Core/Retry/History.antt =====
-- The history that a retried job carries: `record_failure` of src/smallage/core/retry.py keeps it
-- short, and keeps it in the form that the wire format can carry.
use litestar_rs.Prelude.{
  All, All-append, All-drop, drop, ◌++◌, zero, ℕ, suc, ◌+◌, ◌-◌, ◌≤◌, Text, List, [], ◌∷◌, map, ◌≡◌,
  refl, arith, ◌==◌, length, take, length-append, length-take, length-drop, length-map, has_char,
  if◌then◌else◌,
}
use litestar_rs.Prelude.Int.{ℤ, pos, negsuc, ◌-ℤ◌, pos_part, ◌≤ℤ◌}
use litestar_rs.Python.{Python, Exn}
use litestar_rs.Core.Envelope.{NoNewline}
use litestar_rs.Core.Retry.{RetryPolicy, slice_to, slice_from, failure_line, record_failure}

module _ {A : Type 0} (P : A → Type 0) where
  All-slice_from : (n : ℤ) (xs : List A) → All P xs → All P (slice_from n xs)
  unfolding slice_from
  All-slice_from (pos n) xs h = All-drop P n xs h
  All-slice_from (negsuc n) xs h = All-drop P _ xs h

replace-NoNewline : (s : Text) → NoNewline (map (λ c. if c == 10 then 32 else c) s)
unfolding has_char
replace-NoNewline [] = refl
replace-NoNewline (c ∷ s) = ground (arith, replace-NoNewline s)

take-NoNewline : (n : ℕ) (s : Text) → NoNewline s → NoNewline (take n s)
unfolding has_char
take-NoNewline zero s h = refl
take-NoNewline (suc n) [] h = refl
take-NoNewline (suc n) (c ∷ s) h = ground (arith, take-NoNewline n s)

slice-NoNewline : (n : ℤ) (s : Text) → NoNewline s → NoNewline (slice_to n s)
unfolding slice_to
slice-NoNewline (pos n) s h = take-NoNewline n s h
slice-NoNewline (negsuc n) s h = take-NoNewline _ s h

failure_line-NoNewline :
    (py : Python) (attempt : ℤ) (error : Exn) → NoNewline (failure_line py attempt error)
unfolding failure_line
failure_line-NoNewline py attempt error = replace-NoNewline _

length-failure_line :
    (py : Python) (attempt : ℤ) (error : Exn) → 4 ≤ length (failure_line py attempt error)
unfolding failure_line
length-failure_line py attempt error = omega (arith, length-map {0, 0}, length-append {0})

minus_pos : (n : ℕ) → pos 0 -ℤ pos (suc n) ≡ negsuc n
unfolding ◌-ℤ◌
minus_pos n = ground arith

length-slice_from :
    {A : Type 0} (limit : ℤ) (xs : List A)
    → pos 1 ≤ℤ limit
    → length (slice_from (pos 0 -ℤ limit) xs) ≤ pos_part limit
unfolding slice_from
length-slice_from (pos (suc n)) xs h =
    rw (minus_pos n) (omega (arith, length-drop (length xs - (n + 1)) xs))
length-slice_from (pos zero) xs h = absurd (omega arith)
length-slice_from (negsuc n) xs h = absurd (omega arith)

length-slice_to :
    {A : Type 0} (n : ℤ) (xs : List A)
    → pos 1 ≤ℤ n
    → (length (slice_to n xs) ≤ pos_part n) × (1 ≤ length xs → 1 ≤ length (slice_to n xs))
unfolding slice_to
length-slice_to (pos n) xs h = ground (arith, length-take n xs)
length-slice_to (negsuc n) xs h = absurd (omega arith)

slice_to-pos :
    {A : Type 0} (n : ℤ) (xs : List A) → pos 1 ≤ℤ n → slice_to n xs ≡ take (pos_part n) xs
unfolding slice_to
slice_to-pos (pos n) xs h = refl
slice_to-pos (negsuc n) xs h = absurd (omega arith)

drop-append :
    {A : Type 0} (n : ℕ) (xs ys : List A) → n ≤ length xs → drop n (xs ++ ys) ≡ drop n xs ++ ys
drop-append zero xs ys h = refl
drop-append (suc n) [] ys h = absurd (omega arith)
drop-append (suc n) (x ∷ xs) ys h = drop-append n xs ys (omega arith)

slice_from-append :
    {A : Type 0} (limit : ℤ) (xs : List A) (x : A)
    → pos 1 ≤ℤ limit
    → slice_from (pos 0 -ℤ limit) (xs ++ x ∷ [])
      ≡ drop (length xs + 1 - pos_part limit) xs ++ x ∷ []
unfolding slice_from
slice_from-append (pos (suc n)) xs x h = rw (minus_pos n) (
    rw (length-append xs (x ∷ [])) (
      let e : length xs + 1 - (n + 1) ≡ length xs + 1 - suc n = omega arith in
      rw e (drop-append (length xs + 1 - suc n) xs (x ∷ []) (omega arith))))
slice_from-append (pos zero) xs x h = absurd (omega arith)
slice_from-append (negsuc n) xs x h = absurd (omega arith)

-- What `record_failure` promises of a history: at most `history_limit` lines, each of at most
-- `history_line_bytes` characters, none empty, none with a newline.
pub record IsCompact {F : Type 0} (p : RetryPolicy F) (history : List Text) : Type 0 where
  pub few : length history ≤ pos_part p.history_limit
  pub short : All (λ line. length line ≤ pos_part p.history_line_bytes) history
  pub solid : All (λ line. 1 ≤ length line) history
  pub clean : All NoNewline history

module _ {F : Type 0} (py : Python) (p : RetryPolicy F) (history : List Text) (attempt : ℤ)
    (error : Exn) where
  record_failure-adds :
      pos 1 ≤ℤ p.history_limit
      → pos 1 ≤ℤ p.history_line_bytes
      → record_failure py p history attempt error
        ≡ drop (length history + 1 - pos_part p.history_limit) history
          ++ take (pos_part p.history_line_bytes) (failure_line py attempt error) ∷ []
  unfolding record_failure
  record_failure-adds many wide =
      rw (slice_to-pos p.history_line_bytes (failure_line py attempt error) wide) (
        slice_from-append p.history_limit history
          (take (pos_part p.history_line_bytes) (failure_line py attempt error)) many)

  compact :
      pos 1 ≤ℤ p.history_limit
      → pos 1 ≤ℤ p.history_line_bytes
      → IsCompact p history
      → IsCompact p (record_failure py p history attempt error)
  unfolding record_failure
  compact many wide old = record {
    few = length-slice_from p.history_limit _ many;
    short = All-slice_from _ limit _ (All-append _ history _ old.short (cut.0, tt));
    solid = All-slice_from _ limit _ (
        All-append _ history _ old.solid
          (cut.1 (omega (arith, length-failure_line py attempt error)), tt));
    clean = All-slice_from _ limit _ (
        All-append _ history _ old.clean
          (slice-NoNewline _ _ (failure_line-NoNewline py attempt error), tt));
  }
    where
      limit : ℤ
      limit = pos 0 -ℤ p.history_limit

      cut :
          (length (slice_to p.history_line_bytes (failure_line py attempt error))
            ≤ pos_part p.history_line_bytes)
          × (1 ≤ length (failure_line py attempt error)
              → 1 ≤ length (slice_to p.history_line_bytes (failure_line py attempt error)))
      cut = length-slice_to p.history_line_bytes (failure_line py attempt error) wide

  -- Where `history_limit` and `history_line_bytes` are at least 1, a failure adds one line to a
  -- history, at its end and cut to `history_line_bytes`, drops the oldest lines beyond the limit and
  -- no others, and leaves the history compact.
  pub record_failure-IsCompact :
      pos 1 ≤ℤ p.history_limit
      → pos 1 ≤ℤ p.history_line_bytes
      → IsCompact p history
      → (record_failure py p history attempt error
          ≡ drop (length history + 1 - pos_part p.history_limit) history
            ++ take (pos_part p.history_line_bytes) (failure_line py attempt error) ∷ [])
        × IsCompact p (record_failure py p history attempt error)
  record_failure-IsCompact many wide old = (record_failure-adds many wide, compact many wide old)

  -- Where `history_limit` is 0, which the policy accepts, nothing is dropped: `[-0:]` is the whole
  -- list, and each failure makes the history longer by one line, whatever its length.
  pub length-record_failure_unlimited :
      p.history_limit ≡ pos 0
      → length (record_failure py p history attempt error) ≡ length history + 1
  unfolding record_failure slice_from ◌-ℤ◌
  length-record_failure_unlimited zero_limit = rw zero_limit (omega (arith, length-append {0}))
