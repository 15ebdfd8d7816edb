-- ===== src/Base/Strings.antt =====
-- The methods of JavaScript strings that the source calls, over code units. Letters are mapped as
-- ASCII letters are, which is all that the addresses and the header names of the source hold.
use Prim.Native.Nat.{ℕ, ◌+◌}
use mathlib.Core.Bool.{Bool, true, false, ◌&&◌, ◌||◌}
use mathlib.Core.List.{List, [], ◌∷◌, reverse}
use biofire.Base.Tests.{leb, eqb, if◌then◌else◌}
use biofire.Base.Lists.{codes, Text, length, drop}

abbrev pub within : ℕ → ℕ → ℕ → Bool
within lo hi c = leb lo c && leb c hi

-- `toLowerCase`
abbrev pub lower_unit : ℕ → ℕ
lower_unit c = if within 65 90 c then c + 32 else c

abbrev pub to_lower : Text → Text
to_lower [] = []
to_lower (c ∷ cs) = lower_unit c ∷ to_lower cs

-- White space as `trim` takes it, line ends included.
abbrev pub is_space : ℕ → Bool
is_space c =
    within 9 13 c
    || eqb c 32
    || eqb c 160
    || eqb c 5760
    || within 8192 8202 c
    || within 8232 8233 c
    || eqb c 8239
    || eqb c 8287
    || eqb c 12288
    || eqb c 65279

abbrev pub drop_while : (ℕ → Bool) → Text → Text
drop_while p [] = []
drop_while p (c ∷ cs) = elim (p c) [ true ↦ drop_while p cs | false ↦ c ∷ cs ]

abbrev pub take_while : (ℕ → Bool) → Text → Text
take_while p [] = []
take_while p (c ∷ cs) = elim (p c) [ true ↦ c ∷ take_while p cs | false ↦ [] ]

-- `trim`
unfoldable pub trim : Text → Text
trim t = reverse (drop_while is_space (reverse (drop_while is_space t)))

-- `startsWith`
abbrev pub starts_with : Text → Text → Bool
starts_with t [] = true
starts_with [] (p ∷ ps) = false
starts_with (c ∷ cs) (p ∷ ps) = eqb c p && starts_with cs ps

-- `includes` on strings: whether the pattern stands somewhere in the text.
unfoldable pub has_part : Text → Text → Bool
has_part [] p = starts_with [] p
has_part (c ∷ cs) p = elim (starts_with (c ∷ cs) p) [ true ↦ true | false ↦ has_part cs p ]

-- `split` at one code unit.
abbrev pub push_front : ℕ → List Text → List Text
push_front c [] = (c ∷ []) ∷ []
push_front c (p ∷ ps) = (c ∷ p) ∷ ps

abbrev pub split : ℕ → Text → List Text
split d [] = [] ∷ []
split d (c ∷ cs) = let rest = split d cs in if eqb c d then [] ∷ rest else push_front c rest

-- `x.startsWith(p) ? x.slice(p.length) : x`
abbrev pub without_prefix : Text → Text → Text
without_prefix p t = if starts_with t p then drop (length p) t else t

-- `replace('0x', '')`: the first occurrence.
unfoldable pub without_0x : Text → Text
without_0x [] = []
without_0x (c ∷ cs) = if starts_with (c ∷ cs) (codes "0x") then drop 1 cs else c ∷ without_0x cs
