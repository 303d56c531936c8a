-- ===== src/Common/Text.antt =====
-- Python's text operations that the program uses. Letters are lowered in the ASCII range.
use Prim.Native.Nat.{ℕ, zero, suc, ◌+◌, ◌-◌, ◌*◌, ◌/◌, ◌%◌}
use mathlib.Core.Option.{Option, none, some}
use Prim.Native.Char.{Char, code}
use Prim.Native.String
use Prim.Native.String.{String, char_at}
use mathlib.Core.Bool.{Bool, true, false, ◌||◌, ◌&&◌, not}
use mathlib.Core.List.{List, [], ◌∷◌}
use litestar_cqrs_example.Common.Tests.{nat_beq, leb, if◌then◌else◌}

infixr 65 ◌+s◌
abbrev pub ◌+s◌ : String → String → String
a +s b = String.◌++◌ a b

-- `bool(s)`
abbrev pub str_truthy : String → Bool
str_truthy String.[] = false
str_truthy (String.◌∷◌ _ _) = true

lower_char : Char → Char
lower_char c =
    if leb b'A' (code c) && leb (code c) b'Z'
    then char_at "abcdefghijklmnopqrstuvwxyz" (code c - b'A')
    else c

-- `s.lower()`
unfoldable pub str_lower : String → String
unfolding lower_char
str_lower String.[] = String.[]
str_lower (String.◌∷◌ c s) = String.◌∷◌ (lower_char c) (str_lower s)

-- The white space of ASCII that `strip` and `split` look for.
abbrev pub is_space : Char → Bool
is_space c = nat_beq (code c) 32 || (leb 9 (code c) && leb (code c) 13)

-- `s.split(":", 1)[-1]`: what follows the first colon, or all of it.
unfoldable pub after_colon_or : String → String → String
after_colon_or whole String.[] = whole
after_colon_or whole (String.◌∷◌ c s) =
    let later = after_colon_or whole s in if nat_beq (code c) b':' then s else later

abbrev pub after_colon : String → String
after_colon s = after_colon_or s s

unfoldable pub strip_left : String → String
strip_left String.[] = String.[]
strip_left (String.◌∷◌ c s) =
    let later = strip_left s in if is_space c then later else String.◌∷◌ c s

-- The text without its last white space: a space is dropped where nothing is kept behind it.
unfoldable pub strip_right : String → String
strip_right String.[] = String.[]
strip_right (String.◌∷◌ c s) =
    let rest = strip_right s in
    if is_space c && not (str_truthy rest) then String.[] else String.◌∷◌ c rest

-- `s.strip()`
unfoldable pub strip : String → String
unfolding strip_left strip_right
strip s = strip_right (strip_left s)

-- Puts a character in front of the first word.
abbrev onto_first : Char → List String → List String
onto_first c [] = String.◌∷◌ c String.[] ∷ []
onto_first c (w ∷ ws) = String.◌∷◌ c w ∷ ws

-- The pieces between white space, empty ones included.
pieces : String → List String
pieces String.[] = String.[] ∷ []
pieces (String.◌∷◌ c s) = if is_space c then String.[] ∷ pieces s else onto_first c (pieces s)

abbrev drop_blank : List String → List String
drop_blank [] = []
drop_blank (w ∷ ws) = if str_truthy w then w ∷ drop_blank ws else drop_blank ws

-- `s.split()`
unfoldable pub words : String → List String
unfolding pieces
words s = drop_blank (pieces s)

-- `"".join(ws)`
abbrev pub concat_words : List String → String
concat_words [] = String.[]
concat_words (w ∷ ws) = w +s concat_words ws

-- `"\n".join(ws)`
abbrev pub join_lines : List String → String
join_lines [] = String.[]
join_lines (w ∷ []) = w
join_lines (w ∷ v ∷ ws) = w +s "\n" +s join_lines (v ∷ ws)

-- `s.partition(" ")`, without its middle part.
unfoldable pub partition_space : String → String × String
partition_space String.[] = (String.[], String.[])
partition_space (String.◌∷◌ c s) =
    let (before, after) = partition_space s in
    if nat_beq (code c) 32 then (String.[], s) else (String.◌∷◌ c before, after)

-- `str(n)`: the decimal digits, on fuel that the number itself is enough for.
abbrev decimal : (fuel n : ℕ) → String → String
decimal zero n acc = acc
decimal (suc fuel) n acc =
    let longer = String.◌∷◌ (char_at "0123456789" (n % 10)) acc in
    let rest = decimal fuel (n / 10) longer in if nat_beq (n / 10) 0 then longer else rest

unfoldable pub str_nat : ℕ → String
str_nat n = decimal (suc n) n String.[]

-- `int(s)` of a text of decimal digits
unfoldable pub digits_from : ℕ → String → Option ℕ
digits_from n String.[] = some n
digits_from n (String.◌∷◌ c s) =
    let later = digits_from (n * 10 + (code c - b'0')) s in
    if leb b'0' (code c) && leb (code c) b'9' then later else none

unfoldable pub int_text : String → Option ℕ
unfolding digits_from
int_text s = if str_truthy s then digits_from 0 s else none
