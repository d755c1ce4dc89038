-- ===== src/Common/Strings.antt =====
-- Texts as lists of code points, with the string operations that the program calls on them.
use Prim.Native.Char.{code}
use Prim.Native.String.{String}
use Prim.Native.Nat.{ℕ, ◌+◌}
use mathlib.Core.Path.{◌≡◌, refl}
use mathlib.Core.Logic.{◌↔◌}
use mathlib.Core.Bool.{Bool, true, false, not, ◌&&◌, ◌||◌}
use mathlib.Core.List.{List, [], ◌∷◌, ◌++◌, map}
use native.Mathlib.Omega.{arith}
use hotel_ms.Common.Tests.{if◌then◌else◌, leb, ◌==◌}
use hotel_ms.Common.Lists.{filter, all, drop, length}

abbrev pub Text : Type 0
Text = List ℕ

-- A literal's code points.
abbrev pub codes : String → Text
codes String.[] = []
codes (String.◌∷◌ c s) = code c ∷ codes s

-- `a === b`
abbrev pub same : Text → Text → Bool
same [] [] = true
same [] (y ∷ ys) = false
same (x ∷ xs) [] = false
same (x ∷ xs) (y ∷ ys) = x == y && same xs ys

-- JavaScript's truth of a text: every text but the empty one.
abbrev pub truthy : Text → Bool
truthy [] = false
truthy (x ∷ xs) = true

-- `s.startsWith(prefix)`
abbrev pub starts_with : Text → Text → Bool
starts_with [] s = true
starts_with (x ∷ xs) [] = false
starts_with (x ∷ xs) (y ∷ ys) = x == y && starts_with xs ys

-- `s.includes(needle)`
abbrev pub contains : Text → Text → Bool
contains needle [] = starts_with needle []
contains needle (x ∷ xs) = starts_with needle (x ∷ xs) || contains needle xs

-- `\d`, and `s.replace(/\D/g, "")`
abbrev pub is_digit : ℕ → Bool
is_digit c = leb 48 c && leb c 57

abbrev pub digits_only : Text → Text
digits_only = filter is_digit

-- White space, and `s.trim()`. Of the white space of Unicode the ASCII part is modelled.
abbrev pub is_space : ℕ → Bool
is_space c = c == 32 || (leb 9 c && leb c 13) || c == 160

abbrev pub trim_start : Text → Text
trim_start [] = []
trim_start (c ∷ s) = if is_space c then trim_start s else c ∷ s

abbrev pub trim_end : Text → Text
trim_end [] = []
trim_end (c ∷ s) = let rest = trim_end s in if is_space c && not (truthy rest) then [] else c ∷ rest

abbrev pub trim : Text → Text
trim s = trim_end (trim_start s)

-- `s.toLowerCase()`, on ASCII letters.
abbrev pub to_lower : Text → Text
to_lower = map (λ c. if leb 65 c && leb c 90 then c + 32 else c)

abbrev pub cons_head : ℕ → List Text → List Text
cons_head c [] = (c ∷ []) ∷ []
cons_head c (part ∷ parts) = (c ∷ part) ∷ parts

-- `s.split(sep)` for a separator of one character.
abbrev pub split : ℕ → Text → List Text
split sep [] = [] ∷ []
split sep (c ∷ s) = if c == sep then [] ∷ split sep s else cons_head c (split sep s)

-- `texts.includes(s)`
abbrev pub includes : Text → List Text → Bool
includes s [] = false
includes s (t ∷ ts) = same t s || includes s ts

pub same→eq : (s t : Text) → same s t ≡ true → s ≡ t
same→eq [] [] h = refl
same→eq [] (y ∷ ys) h = absurd (cc)
same→eq (x ∷ xs) [] h = absurd (cc)
same→eq (x ∷ xs) (y ∷ ys) h = ground (arith, same→eq xs ys)

pub same_refl : (s : Text) → same s s ≡ true
same_refl [] = refl
same_refl (x ∷ xs) = ground (arith, same_refl xs)

pub same_iff : (s t : Text) → (same s t ≡ true) ↔ (s ≡ t)
same_iff s t = (same→eq s t, λ e. rw e (same_refl t))

pub starts_with-append : (s t : Text) → starts_with s (s ++ t) ≡ true
starts_with-append [] t = refl
starts_with-append (x ∷ xs) t = ground (arith, starts_with-append xs t)

pub drop-append : (s t : Text) → drop (length s) (s ++ t) ≡ t
drop-append [] t = refl
drop-append (x ∷ xs) t = drop-append xs t

pub digits_only-digits : (s : Text) → all is_digit s ≡ true → digits_only s ≡ s
digits_only-digits [] h = refl
digits_only-digits (c ∷ s) h = ground (arith, digits_only-digits s)

pub all-digits_only : (s : Text) → all is_digit (digits_only s) ≡ true
all-digits_only [] = refl
all-digits_only (c ∷ s) = ground (arith, all-digits_only s)

pub digits_only-append : (s t : Text) → digits_only (s ++ t) ≡ digits_only s ++ digits_only t
digits_only-append [] t = refl
digits_only-append (c ∷ s) t = ground (arith, digits_only-append s t)
