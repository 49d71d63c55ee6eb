-- ===== src/Base/Text.antt =====
-- Go's texts as lists of code points, with what the source uses of the packages strings and
-- strconv.
use Prim.Native.Nat.{ℕ, ◌+◌, ◌*◌, ◌-◌, ◌^◌}
use Prim.Native.String.{String}
use Prim.Native.Char.{code}
use mathlib.Core.Bool.{Bool, true, false, ◌&&◌}
use mathlib.Core.List.{List, [], ◌∷◌, map}
use mathlib.Core.Option.{Option, none, some}
use greatestworks.Base.Tests.{leb, ltb, ◌==◌, if◌then◌else◌}
use greatestworks.Base.Int.{ℤ, pos, negsuc, sub_ℕ}
use mathlib.Core.Path.{◌≡◌, refl}

abbrev pub Text : Type 0
Text = List ℕ

abbrev pub codes : String → Text
codes String.[] = []
codes (String.◌∷◌ c s) = code c ∷ codes s

unfoldable pub text_eq : Text → Text → Bool
text_eq [] [] = true
text_eq [] (b ∷ t) = false
text_eq (a ∷ s) [] = false
text_eq (a ∷ s) (b ∷ t) = a == b && text_eq s t

-- strings.ToLower on ASCII. Beyond it, the capitals of Unicode go to letters beyond it, but for
-- two: those of i and k, which no text that is compared with holds.
unfoldable pub to_lower : Text → Text
to_lower = map (λ c. if leb 0x41 c && leb c 0x5a then c + 32 else c)

-- strings.Split by a separator of one letter.
unfoldable pub split : ℕ → Text → List Text
split sep [] = [] ∷ []
split sep (c ∷ s) = elim (split sep s) [
  | [] ↦ []
  | t ∷ ts ↦ if c == sep then [] ∷ t ∷ ts else (c ∷ t) ∷ ts
]

parse_digits : ℕ → Text → Option ℕ
parse_digits n [] = some n
parse_digits n (c ∷ s) =
    let rest = parse_digits (n * 10 + (c - 0x30)) s in
    if leb 0x30 c && leb c 0x39 then rest else none

parse_magnitude : Text → Option ℕ
unfolding parse_digits
parse_magnitude [] = none
parse_magnitude (c ∷ s) = parse_digits 0 (c ∷ s)

abbrev bounded : ℕ → (ℕ → ℤ) → Option ℕ → Option ℤ
bounded limit sign none = none
bounded limit sign (some n) = if ltb n limit then some (sign n) else none

-- strconv.ParseInt(s, 10, w): `none` for an error.
unfoldable pub parse_int : ℕ → Text → Option ℤ
unfolding parse_magnitude
parse_int w [] = none
parse_int w (c ∷ s) =
    let limit = 2 ^ (w - 1) in
    if c == 0x2d
    then bounded (limit + 1) (λ n. sub_ℕ 0 n) (parse_magnitude s)
    else bounded limit pos (parse_magnitude (if c == 0x2b then s else c ∷ s))

-- strconv.ParseUint(s, 10, w), which takes no sign.
unfoldable pub parse_uint : ℕ → Text → Option ℕ
unfolding parse_magnitude
parse_uint w s = elim (parse_magnitude s) [
  | none ↦ none
  | some n ↦ if ltb n (2 ^ w) then some n else none
]

-- SplitStringToInt32Slice of aop/fn/string.go: what does not parse is left out.
unfoldable pub int32s : List Text → List ℤ
unfolding parse_int
int32s [] = []
int32s (t ∷ ts) = elim (parse_int 32 t) [ none ↦ int32s ts | some z ↦ z ∷ int32s ts ]

unfoldable pub split_string_to_int32_slice : Text → List ℤ
unfolding int32s split
split_string_to_int32_slice src = int32s (split 0x2c src)

-- SplitStringToUint32Slice of the same file, by a separator of one letter.
unfoldable pub uint32s : List Text → List ℕ
unfolding parse_uint
uint32s [] = []
uint32s (t ∷ ts) = elim (parse_uint 32 t) [ none ↦ uint32s ts | some n ↦ n ∷ uint32s ts ]

unfoldable pub split_string_to_uint32_slice : Text → ℕ → List ℕ
unfolding uint32s split
split_string_to_uint32_slice src sep = uint32s (split sep src)

parse_runs :
    split_string_to_int32_slice (codes "3,-7,x,+12,2147483648") ≡ pos 3 ∷ negsuc 6 ∷ pos 12 ∷ []
unfolding split_string_to_int32_slice
parse_runs = refl

lower_runs : to_lower (codes "Close_Door") ≡ codes "close_door"
unfolding to_lower
lower_runs = refl
