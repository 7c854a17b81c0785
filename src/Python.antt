-- ===== src/Python.antt =====
-- What the program uses of Python's built-ins and cannot be read in the repository: UTF-8, decimal
-- numbers, and the texts of exceptions. They are a parameter with the laws that Python documents.
use litestar_rs.Prelude.{
  ℕ, Text, Bytes, text, ◌≡◌, refl, Option, some, none, [], ◌∷◌, ◌==◌, if◌then◌else◌,
}
use litestar_rs.Prelude.Int.{ℤ, pos, negsuc}

-- Why `from_fields` refuses an entry.
pub data Malformed : Type 0 where
  missing_field : Bytes → Malformed
  unsupported_version : Bytes → Malformed

-- The exceptions of core/errors.py, those that Python raises in the modelled code, and with
-- `other` whatever else the code outside the repository raises.
pub data Exn : Type 0 where
  configuration_error : Exn
  malformed_envelope : Malformed → Exn
  payload_too_large : Exn
  unicode_decode_error : Exn
  value_error : Exn
  key_error : Exn
  overflow_error : Exn
  payload_missing : Exn
  other : ℕ → Exn

pub record Python : Type 0 where
  -- `s.encode()` and `b.decode()`; `none` is UnicodeDecodeError
  pub encode : Text → Bytes
  pub decode : Bytes → Option Text
  -- `str(n)` and `int(b)`; `none` is ValueError
  pub str_int : ℤ → Text
  pub int_bytes : Bytes → Option ℤ
  -- `type(exc).__name__`, `str(exc)`, `"".join(traceback.format_exception(exc))`
  pub class_name : Exn → Text
  pub message : Exn → Text
  pub format_exception : Exn → Text
  pub encode-nil : encode [] ≡ []
  pub decode-encode : (s : Text) → decode (encode s) ≡ some s
  pub int-str : (n : ℤ) → int_bytes (encode (str_int n)) ≡ some n

-- Only the empty text encodes to no bytes.
pub encode-eq-nil : (py : Python) (s : Text) → py.encode s ≡ [] → s ≡ []
encode-eq-nil py s h = cc (py.decode-encode s, py.decode-encode [], py.encode-nil)

-- A Python that meets the laws, for tests: every text is its own encoding, and a number is written
-- as its sign and its size.
abbrev plain_str_int : ℤ → Text
plain_str_int (pos n) = b'+' ∷ n ∷ []
plain_str_int (negsuc n) = b'-' ∷ n ∷ []

abbrev plain_int_bytes : Bytes → Option ℤ
plain_int_bytes (sign ∷ n ∷ []) =
    if sign == b'+' then some (pos n) else if sign == b'-' then some (negsuc n) else none
plain_int_bytes _ = none

pub plain-int-str : (n : ℤ) → plain_int_bytes (plain_str_int n) ≡ some n
plain-int-str (pos n) = refl
plain-int-str (negsuc n) = refl

abbrev pub plain : Python
plain = record {
  encode = λ s. s;
  decode = λ b. some b;
  str_int = plain_str_int;
  int_bytes = plain_int_bytes;
  class_name = λ e. text "Error";
  message = λ e. text "boom";
  format_exception = λ e. text "Traceback";
  encode-nil = refl;
  decode-encode = λ s. refl;
  int-str = plain-int-str;
}
