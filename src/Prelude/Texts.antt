-- ===== src/Prelude/Texts.antt =====
-- Python's `str` as its code points and `bytes` as its bytes: both are lists of numbers.
use Prim.Native.Nat.{ℕ}
use Prim.Native.Char.{code}
use Prim.Native.String.{String}
use mathlib.Core.Path.{◌≡◌, refl, ap₂}
use mathlib.Core.Logic.{◌↔◌}
use mathlib.Core.Bool.{Bool, true, false, ◌&&◌, ◌||◌, not}
use mathlib.Core.List.{List, [], ◌∷◌, ◌++◌}
use native.Mathlib.Omega.{arith}
use litestar_rs.Prelude.Tests.{◌==◌, if◌then◌else◌}

abbrev pub Text : Type 0
Text = List ℕ

abbrev pub Bytes : Type 0
Bytes = List ℕ

-- A literal of the source.
abbrev pub text : String → Text
text String.[] = []
text (String.◌∷◌ c s) = code c ∷ text s

unfoldable pub same : Text → Text → Bool
same [] [] = true
same [] (b ∷ t) = false
same (a ∷ s) [] = false
same (a ∷ s) (b ∷ t) = a == b && same s t

pub same_refl : (s : Text) → same s s ≡ true
unfolding same
same_refl [] = refl
same_refl (a ∷ s) = ground (arith, same_refl s)

pub same→eq : (s t : Text) → same s t ≡ true → s ≡ t
unfolding same
same→eq [] [] h = refl
same→eq [] (b ∷ t) h = cc
same→eq (a ∷ s) [] h = cc
same→eq (a ∷ s) (b ∷ t) h =
    let e : a ≡ b = ground arith in
    let f : same s t ≡ true = ground arith in ap₂ ◌∷◌ e (same→eq s t f)

pub eq→same : {s t : Text} → s ≡ t → same s t ≡ true
eq→same {s} {t} e = rw e (same_refl t)

pub same_iff : (s t : Text) → (same s t ≡ true) ↔ (s ≡ t)
same_iff s t = (same→eq s t, eq→same)

-- `c in s`, for one character
unfoldable pub has_char : ℕ → Text → Bool
has_char c [] = false
has_char c (a ∷ s) = a == c || has_char c s

-- `x in xs`, for a collection of texts
unfoldable pub member : Text → List Text → Bool
member x [] = false
member x (y ∷ ys) = same y x || member x ys

-- `set.discard`, for a set kept as a list
unfoldable pub discard : Text → List Text → List Text
discard x [] = []
discard x (y ∷ ys) = let rest = discard x ys in if same y x then rest else y ∷ rest

pub member-discard :
    (x y : Text) (ys : List Text) → member y (discard x ys) ≡ (not (same x y) && member y ys)
unfolding member discard
member-discard x y [] = ground arith
member-discard x y (z ∷ zs) =
    ground (arith, member-discard x y zs, same_iff z x, same_iff z y, same_iff x y)

pub member-append :
    (y : Text) (xs ys : List Text) → member y (xs ++ ys) ≡ (member y xs || member y ys)
unfolding member
member-append y [] ys = refl
member-append y (x ∷ xs) ys = ground (arith, member-append y xs ys)
