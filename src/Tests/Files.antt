-- ===== src/Tests/Files.antt =====
-- A file system in memory, and a payload that is put into it.
use litestar_rs.Prelude.{
  Text, Bytes, text, Bool-cases, true, false, Option, some, none, [], ◌∷◌, ◌++◌, ◌≡◌, inl, inr,
  refl, ap, arith, length, length-append, same, same_iff, same_refl, same→eq, has_char,
  if◌then◌else◌,
}
use litestar_rs.Effect.{returned}
use litestar_rs.Core.Payloads.{Paths, Files, payload_suffix, partial_suffix, is_unusable, put}
use litestar_rs.Core.Payloads.Whole.{IsFileSystem, IsSafe, put-IsSafe}

-- A name without its suffix for payloads.
unfoldable stem_of : Text → Text
stem_of [] = []
stem_of (c ∷ rest) =
    let more = stem_of rest in if same (c ∷ rest) payload_suffix then [] else c ∷ more

stem_of-append : (stem : Text) → stem_of (stem ++ payload_suffix) ≡ stem
unfolding stem_of same
stem_of-append [] = refl
stem_of-append (c ∷ stem) = elim (Bool-cases (same (c ∷ (stem ++ payload_suffix)) payload_suffix)) [
  | inl twice ↦ absurd (
      omega (
        arith,
        ap length (same→eq (c ∷ (stem ++ payload_suffix)) payload_suffix twice),
        length-append stem payload_suffix,
      ))
  | inr once ↦ ground (arith, stem_of-append stem)
]

-- One directory, of which a path is the name in it.
abbrev one_directory : Paths
one_directory = record {
  join = λ root name. name;
  with_suffix = λ path suffix. stem_of path ++ suffix;
  name = λ path. path;
  is_absolute = λ path. true;
}

abbrev Memory : Type 0
Memory = Text → Option Bytes

abbrev memory : Files Memory
memory = record {
  read_bytes = λ path s. s path;
  write_bytes =
      λ path payload s. (returned tt, λ other. if same other path then some payload else s other);
  rename = λ path target s. (
    returned tt,
    λ other. if same other target then s path else if same other path then none else s other,
  );
  unlink = λ path s. (returned tt, λ other. if same other path then none else s other);
  mkdir = λ path s. (returned tt, s);
}

memory-IsFileSystem : IsFileSystem one_directory memory
memory-IsFileSystem = record {
  name_payload = λ root stem usable. refl;
  name_partial = λ root stem usable. ap (λ s. s ++ partial_suffix) (stem_of-append stem);
  write_elsewhere = λ path other payload s apart. ground (arith, same_iff other path);
  write_done = λ path payload s done. ground (arith, same_refl path);
  rename_done = λ path target s done. ground (arith, same_refl target);
  rename_failed = λ path target other s fails. absurd (fails refl);
  rename_elsewhere =
      λ path target other s apart away. ground (arith, same_iff other path, same_iff other target);
}

usable_j1 : is_unusable (text "j1") ≡ false
unfolding is_unusable has_char same
usable_j1 = refl

usable_j2 : is_unusable (text "j2") ≡ false
unfolding is_unusable has_char same
usable_j2 = refl

put-IsSafe_example :
    IsSafe one_directory memory memory-IsFileSystem
      (text "/var")
      (text "j1")
      (text "j2")
      (text "[5]")
      (λ path. none)
      usable_j1
      usable_j2
      (put one_directory memory (text "/var") (text "j1") (text "[5]") (λ path. none))
put-IsSafe_example =
    put-IsSafe one_directory memory memory-IsFileSystem (text "/var") (text "j1") (text "j2")
      (text "[5]") (λ path. none) usable_j1 usable_j2
