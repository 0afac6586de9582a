-- ===== src/Base/Parsing.antt =====
-- Slices, searches and numbers in texts, as the program's calls of `str`, `re.split` and `int` have them.
use Prim.Native.Char.{Char, code}
use Prim.Native.Nat.{ℕ, zero, suc, ◌+◌, ◌-◌, ◌*◌}
use Prim.Native.String.{String, [], ◌∷◌}
use mathlib.Core.Path.{◌≡◌, refl}
use mathlib.Core.Bool.{Bool, true, false, ◌&&◌, ◌||◌}
use mathlib.Core.Option.{Option, none, some}
use mathlib.Core.List.{List}
use kaaval.Base.Tests.{if◌then◌else◌, nat_beq, leb}
use kaaval.Base.Text.{strip}

-- `s[:n]`
unfoldable pub take_chars : ℕ → String → String
take_chars zero s = []
take_chars (suc n) [] = []
take_chars (suc n) (c ∷ s) = c ∷ take_chars n s

-- `s.startswith(prefix)`
unfoldable pub starts_with : String → String → Bool
starts_with s [] = true
starts_with [] (p ∷ prefix) = false
starts_with (c ∷ s) (p ∷ prefix) = nat_beq (code c) (code p) && starts_with s prefix

take_chars_test : take_chars 4 "openssl" ≡ "open"
unfolding take_chars
take_chars_test = refl

-- `part in s`
unfoldable pub occurs_in : String → String → Bool
unfolding starts_with
occurs_in part [] = starts_with [] part
occurs_in part (c ∷ s) = starts_with (c ∷ s) part || occurs_in part s

-- `s.lstrip(c)` of one character
unfoldable pub lstrip_char : Char → String → String
lstrip_char a [] = []
lstrip_char a (c ∷ s) =
    let rest = lstrip_char a s in if nat_beq (code c) (code a) then rest else c ∷ s

-- `re.split("[...]", s)` at every one of the characters
unfoldable pub split_at : String → String → List String
split_at seps [] = List.◌∷◌ "" List.[]
split_at seps (c ∷ s) =
    let rest = split_at seps s in
    if occurs_in (c ∷ []) seps then List.◌∷◌ "" rest else elim rest [
      | List.[] ↦ List.◌∷◌ (c ∷ []) List.[]
      | List.◌∷◌ part parts ↦ List.◌∷◌ (c ∷ part) parts
    ]

is_digit : Char → Bool
is_digit c = leb b'0' (code c) && leb (code c) b'9'

-- The digits of a number, with single underscores between them; the flag says that a digit stands
-- just before.
digits : ℕ → Bool → String → Option ℕ
digits n after [] = if after then some n else none
digits n after (c ∷ s) =
    let number = digits (n * 10 + (code c - b'0')) true s in
    let rest = digits n false s in
    if is_digit c then number else if nat_beq (code c) b'_' && after then rest else none

-- `int(s)` of a text with no sign; `none` is the ValueError.
unfoldable pub to_int : String → Option ℕ
unfolding digits strip is_digit
to_int s = digits 0 false (strip s)

abbrev with_sign : Bool → Option ℕ → Option (Bool × ℕ)
with_sign minus none = none
with_sign minus (some n) = some (minus, n)

-- The sign of a number and its absolute value.
signed : String → Option (Bool × ℕ)
unfolding digits is_digit
signed [] = none
signed (c ∷ s) =
    if nat_beq (code c) b'-'
    then with_sign true (digits 0 false s)
    else if nat_beq (code c) b'+'
    then with_sign false (digits 0 false s)
    else with_sign false (digits 0 false (c ∷ s))

-- `int(s)`, with true for a minus sign.
unfoldable pub to_signed_int : String → Option (Bool × ℕ)
unfolding signed strip
to_signed_int s = signed (strip s)

split_at_test :
    split_at ".-+" "1.28.4-rc" ≡ List.◌∷◌ "1" (List.◌∷◌ "28" (List.◌∷◌ "4" (List.◌∷◌ "rc" List.[])))
unfolding split_at occurs_in starts_with
split_at_test = refl

to_int_test : to_int " 1_28" ≡ some 128
unfolding to_int is_digit
to_int_test = refl
