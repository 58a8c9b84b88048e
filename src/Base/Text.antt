-- ===== src/Base/Text.antt =====
-- What the program uses of JavaScript's strings: `trim`, `split`, over code points.
use Prim.Native.Nat.{ℕ}
use Prim.Native.Char.{Char, code}
use Prim.Native.String.{String, [], ◌∷◌}
use mathlib.Core.Path.{◌≡◌, refl}
use mathlib.Core.Bool.{Bool, true, false, ◌&&◌, ◌||◌}
use mathlib.Core.List.{List, [], ◌∷◌}
use sync_bridge_platform.Base.Tests.{leb, nat_eq, if◌then◌else◌}

-- White space and line terminators, as `trim` and `\s` read them.
abbrev pub is_space : ℕ → Bool
is_space c =
    (leb 9 c && leb c 13)
    || nat_eq c 32
    || nat_eq c 160
    || nat_eq c 0x1680
    || (leb 0x2000 c && leb c 0x200a)
    || nat_eq c 0x2028
    || nat_eq c 0x2029
    || nat_eq c 0x202f
    || nat_eq c 0x205f
    || nat_eq c 0x3000
    || nat_eq c 0xfeff

unfoldable pub trim_start : String → String
trim_start [] = []
trim_start (c ∷ s) = let rest = trim_start s in if is_space (code c) then rest else c ∷ s

-- A character in front of a text whose white space at the end is gone.
abbrev cons_trimmed : Char → String → String
cons_trimmed c [] = if is_space (code c) then [] else c ∷ []
cons_trimmed c (d ∷ s) = c ∷ d ∷ s

unfoldable pub trim_end : String → String
trim_end [] = []
trim_end (c ∷ s) = cons_trimmed c (trim_end s)

unfoldable pub trim : String → String
unfolding trim_start trim_end
trim s = trim_end (trim_start s)

abbrev pub is_empty : String → Bool
is_empty [] = true
is_empty (c ∷ s) = false

-- A character goes to the first part.
abbrev into_first : Char → List String → List String
into_first c [] = (c ∷ []) ∷ []
into_first c (part ∷ parts) = (c ∷ part) ∷ parts

-- `s.split(sep)` for a separator of one character.
unfoldable pub split : ℕ → String → List String
split sep [] = "" ∷ []
split sep (c ∷ s) =
    let rest = split sep s in if nat_eq (code c) sep then "" ∷ rest else into_first c rest

trim_both_ends : trim "  a b " ≡ "a b"
unfolding trim
trim_both_ends = refl

trim_blank : trim "  " ≡ ""
unfolding trim
trim_blank = refl

split_dots : split b'.' ".ab..c" ≡ "" ∷ "ab" ∷ "" ∷ "c" ∷ []
unfolding split
split_dots = refl
