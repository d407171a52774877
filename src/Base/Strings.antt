-- ===== src/Base/Strings.antt =====
-- The string methods that the program uses, over the native texts: `lower` (on ASCII), `split` on
-- one character, `join`, truncation, and the order of strings by code points.
use Prim.Native.Nat.{ℕ, zero, suc, ◌-◌, ◌/◌, ◌%◌, compare, Ordering}
use Prim.Native.Char.{Char, code}
use Prim.Native.String.{String, ◌∷◌, ◌++◌, char_at}
use text.Mathlib.Text.{starts_with}
use mathlib.Core.Bool.{Bool, true, false, ◌&&◌, ◌||◌}
use mathlib.Core.List.{List}
use azure_iot_ops_cli_extens.Base.Tests.{ltb, leb, if◌then◌else◌}
use azure_iot_ops_cli_extens.Base.Equality.{◌==◌, nat_eq, string_eq}

unfoldable pub lower_char : Char → Char
lower_char c =
    if leb 65 (code c) && leb (code c) 90
    then char_at "abcdefghijklmnopqrstuvwxyz" (code c - 65)
    else c

-- `s.lower()`
unfoldable pub lower : String → String
unfolding lower_char
lower String.[] = ""
lower (c ∷ s) = lower_char c ∷ lower s

-- `bool(s)`
abbrev pub truthy : String → Bool
truthy String.[] = false
truthy (_ ∷ _) = true

-- Puts a character in front of the first piece.
abbrev pub onto_first : Char → List String → List String
onto_first c List.[] = List.◌∷◌ (c ∷ "") List.[]
onto_first c (List.◌∷◌ p ps) = List.◌∷◌ (c ∷ p) ps

-- `s.split(sep)` for a separator of one character, given by its code.
unfoldable pub split : ℕ → String → List String
unfolding nat_eq
split sep String.[] = List.◌∷◌ "" List.[]
split sep (c ∷ s) = if code c == sep then List.◌∷◌ "" (split sep s) else onto_first c (split sep s)

-- `sep.join(parts)`
unfoldable pub join : String → List String → String
join sep List.[] = ""
join sep (List.◌∷◌ p List.[]) = p
join sep (List.◌∷◌ p (List.◌∷◌ q ps)) = p ++ (sep ++ join sep (List.◌∷◌ q ps))

-- The last piece, `s.rsplit(sep, 1)[-1]` on the pieces of `s.split(sep)`.
abbrev pub last_or : String → List String → String
last_or d List.[] = d
last_or d (List.◌∷◌ p ps) = last_or p ps

-- `s[:n]`
unfoldable pub truncate : ℕ → String → String
truncate zero s = ""
truncate (suc n) String.[] = ""
truncate (suc n) (c ∷ s) = c ∷ truncate n s

-- `len(s)`
unfoldable pub str_len : String → ℕ
str_len String.[] = 0
str_len (_ ∷ s) = suc (str_len s)

-- `s < t`, by code points.
unfoldable pub str_lt : String → String → Bool
str_lt s String.[] = false
str_lt String.[] (_ ∷ _) = true
str_lt (c ∷ s) (d ∷ t) =
    let rest = str_lt s t in
    elim (compare (code c) (code d)) [
      | Ordering.lt ↦ true
      | Ordering.eq ↦ rest
      | Ordering.gt ↦ false
    ]

digit : ℕ → String
digit n = char_at "0123456789" n ∷ ""

decimal : ℕ → ℕ → String
unfolding digit
decimal zero n = ""
decimal (suc fuel) n =
    let more = decimal fuel (n / 10) ++ digit (n % 10) in if ltb n 10 then digit n else more

-- `str(n)` of a natural number, whose digits are fewer than the number and one.
unfoldable pub str_nat : ℕ → String
unfolding decimal
str_nat n = decimal (suc n) n

-- `needle in text`
unfoldable pub is_inside : String → String → Bool
is_inside needle String.[] = starts_with "" needle
is_inside needle (c ∷ s) =
    let rest = is_inside needle s in if starts_with (c ∷ s) needle then true else rest

-- `not s.strip()`, on ASCII.
unfoldable pub blank : String → Bool
unfolding nat_eq
blank String.[] = true
blank (c ∷ s) =
    ((code c == 32 || (leb 9 (code c) && leb (code c) 13)) || (leb 28 (code c) && leb (code c) 31))
    && blank s
