-- ===== src/Prelude/CodeUnits.antt =====
-- A JavaScript string as the list of its UTF-16 code units, with the methods that the program uses.
use Prim.Native.Char.{code}
use trust_vault.Prelude.Tests.{==_iff, ltb, ◌==◌, if◌then◌else◌}
use trust_vault.Prelude.Lists.{length, take, drop}
use Prim.Native.Nat.{ℕ, zero, suc, ◌+◌, ◌-◌, ◌/◌, ◌%◌}
use Prim.Native.String.{String}
use mathlib.Core.Path.{◌≡◌, refl}
use mathlib.Core.Logic.{◌↔◌}
use mathlib.Core.Bool.{Bool, true, false, ◌&&◌, ◌||◌}
use mathlib.Core.List.{List, [], ◌∷◌, ◌++◌}
use native.Mathlib.Omega.{arith}

abbrev pub Text : Type 0
Text = List ℕ

-- The text of a literal in the basic multilingual plane.
unfoldable pub text : String → Text
text String.[] = []
text (String.◌∷◌ c s) = code c ∷ text s

-- `s === t`
abbrev pub text_eq : Text → Text → Bool
text_eq [] [] = true
text_eq (a ∷ s) (b ∷ t) = a == b && text_eq s t
text_eq _ _ = false

-- `texts.includes(t)`
abbrev pub one_of : Text → List Text → Bool
one_of t [] = false
one_of t (u ∷ us) = text_eq u t || one_of t us

-- A non-empty string is truthy.
abbrev pub truthy_text : Text → Bool
truthy_text [] = false
truthy_text (c ∷ s) = true

-- `s.startsWith(p)`: the prefix comes first, as in the libraries.
abbrev pub starts_with : Text → Text → Bool
starts_with [] s = true
starts_with (a ∷ p) [] = false
starts_with (a ∷ p) (b ∷ s) = a == b && starts_with p s

-- `s.includes(p)`
abbrev pub includes : Text → Text → Bool
includes p [] = starts_with p []
includes p (c ∷ s) = starts_with p (c ∷ s) || includes p s

-- `s.slice(from, to)` for 0 ≤ from and 0 ≤ to.
abbrev pub slice : ℕ → ℕ → Text → Text
slice from to s = drop from (take to s)

-- `s.slice(-n)` for 0 < n
abbrev pub slice_last : ℕ → Text → Text
slice_last n s = drop (length s - n) s

-- The decimal digits of a number, as a template literal prints it. A number has at most as many
-- digits as itself plus one, so the fuel is enough.
digits : ℕ → ℕ → Text → Text
digits zero n acc = acc
digits (suc f) n acc =
    let more = digits f (n / 10) ((48 + n % 10) ∷ acc) in if ltb n 10 then (48 + n) ∷ acc else more

unfoldable pub decimal : ℕ → Text
unfolding digits
decimal n = digits (n + 1) n []

-- `s.split(sep)` for a separator of one code unit.
abbrev pub onto_first : ℕ → List Text → List Text
onto_first c [] = (c ∷ []) ∷ []
onto_first c (part ∷ parts) = (c ∷ part) ∷ parts

unfoldable pub split_on : ℕ → Text → List Text
split_on sep [] = [] ∷ []
split_on sep (c ∷ s) =
    let parts = split_on sep s in if c == sep then [] ∷ parts else onto_first c parts

-- White space and line ends.
abbrev pub is_space : ℕ → Bool
is_space c =
    ltb 8 c && ltb c 14
    || c == 32
    || c == 160
    || c == 0x1680
    || ltb 0x1fff c && ltb c 0x200b
    || c == 0x2028
    || c == 0x2029
    || c == 0x202f
    || c == 0x205f
    || c == 0x3000
    || c == 0xfeff

-- `s.trim()`
abbrev trim_start : Text → Text
trim_start [] = []
trim_start (c ∷ s) = let rest = trim_start s in if is_space c then rest else c ∷ s

-- A code unit is kept in front of what is kept, and in front of nothing unless it is white space.
abbrev before_end : ℕ → Text → Text
before_end c [] = if is_space c then [] else c ∷ []
before_end c (d ∷ s) = c ∷ d ∷ s

abbrev trim_end : Text → Text
trim_end [] = []
trim_end (c ∷ s) = before_end c (trim_end s)

unfoldable pub trim : Text → Text
trim s = trim_end (trim_start s)

-- How often a code unit stands in a text.
abbrev pub count : ℕ → Text → ℕ
count a [] = 0
count a (c ∷ s) = let rest = count a s in if c == a then suc rest else rest

pub split_on_before :
    (sep : ℕ) (a s : Text) → count sep a ≡ 0 → split_on sep (a ++ (sep ∷ s)) ≡ a ∷ split_on sep s
unfolding split_on
split_on_before sep [] s h = ground (arith, ==_iff sep sep)
split_on_before sep (c ∷ a) s h = ground (arith, split_on_before sep a s)

pub split_on_alone : (sep : ℕ) (a : Text) → count sep a ≡ 0 → split_on sep a ≡ a ∷ []
unfolding split_on
split_on_alone sep [] h = refl
split_on_alone sep (c ∷ a) h = ground (arith, split_on_alone sep a)

pub text_eq_iff : (s t : Text) → (text_eq s t ≡ true) ↔ (s ≡ t)
text_eq_iff [] [] = ground arith
text_eq_iff [] (b ∷ t) = ground arith
text_eq_iff (a ∷ s) [] = ground arith
text_eq_iff (a ∷ s) (b ∷ t) = ground (arith, ==_iff a b, text_eq_iff s t)

pub text_eq_refl : (t : Text) → text_eq t t ≡ true
text_eq_refl t = (text_eq_iff t t).1 refl

decimal_example : decimal 30507 ≡ text "30507"
unfolding decimal text
decimal_example = refl

includes_example : includes (text "b=") (text "a b=c") ≡ true
unfolding text
includes_example = refl

trim_example : trim (text " a b  ") ≡ text "a b"
unfolding text trim
trim_example = refl
