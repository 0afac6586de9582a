-- ===== src/Base/Text.antt =====
-- The methods of `str` that the program calls. Letters are the ASCII ones: other characters stay as
-- they are under `lower`, `upper` and `title`.
use Prim.Native.Char.{Char, code}
use Prim.Native.Nat.{ℕ, zero, suc, ◌/◌, ◌%◌, compare, Ordering}
use Prim.Native.String.{String, [], ◌∷◌, ◌++◌}
use mathlib.Core.Path.{◌≡◌, refl}
use mathlib.Core.Bool.{Bool, true, false, not, ◌&&◌, ◌||◌}
use mathlib.Core.Option.{Option, none, some}
use mathlib.Core.List.{List}
use text.Mathlib.Text
use native.Mathlib.Omega.{arith}
use kaaval.Base.Lists.{nonempty}
use kaaval.Base.Tests.{if◌then◌else◌, nat_beq, leb}

abbrev lower_letters : String
lower_letters = "abcdefghijklmnopqrstuvwxyz"

abbrev upper_letters : String
upper_letters = "ABCDEFGHIJKLMNOPQRSTUVWXYZ"

-- The character at the place in `to` that `c` has in `from`; `c` itself where it has none.
translate_char : String → String → Char → Char
translate_char (a ∷ from) (b ∷ to) c =
    if nat_beq (code c) (code a) then b else translate_char from to c
translate_char _ _ c = c

translate : String → String → String → String
unfolding translate_char
translate from to [] = []
translate from to (c ∷ s) = translate_char from to c ∷ translate from to s

-- `s.lower()`
unfoldable pub lower : String → String
unfolding translate
lower s = translate upper_letters lower_letters s

-- `s.upper()`
unfoldable pub upper : String → String
unfolding translate
upper s = translate lower_letters upper_letters s

-- `s.replace("_", " ")`
unfoldable pub spaced : String → String
unfolding translate
spaced s = translate "_" " " s

is_letter : Char → Bool
is_letter c = (leb b'a' (code c) && leb (code c) b'z') || (leb b'A' (code c) && leb (code c) b'Z')

-- The flag says that a letter stands just before.
title_from : Bool → String → String
unfolding translate_char is_letter
title_from after [] = []
title_from after (c ∷ s) =
    (if after
      then translate_char upper_letters lower_letters c
      else translate_char lower_letters upper_letters c)
    ∷ title_from (is_letter c) s

-- `s.title()`
unfoldable pub title : String → String
unfolding title_from
title s = title_from false s

-- `sep.join(xs)`
unfoldable pub join : String → List String → String
join sep List.[] = ""
join sep (List.◌∷◌ x List.[]) = x
join sep (List.◌∷◌ x (List.◌∷◌ y ys)) = x ++ (sep ++ join sep (List.◌∷◌ y ys))

-- What an f-string shows of a value that may be `None`.
abbrev pub show : Option String → String
show none = "None"
show (some s) = s

-- `bool(s)` of a text
abbrev pub is_text : String → Bool
is_text [] = false
is_text (c ∷ s) = true

-- `bool(o)` of a text or `None`
abbrev pub truthy : Option String → Bool
truthy none = false
truthy (some s) = is_text s

-- `o or None`
abbrev pub or_none : Option String → Option String
or_none o = if truthy o then o else none

-- `o or d`
abbrev pub or_text : Option String → String → String
or_text none d = d
or_text (some s) d = if is_text s then s else d

-- The order of texts, by code points.
unfoldable pub text_le : String → String → Bool
text_le s t = Text.is_le (Prim.Native.String.compare s t)

title_test : title (spaced "cluster_admin_binding") ≡ "Cluster Admin Binding"
unfolding title spaced
title_test = refl

lower_test : lower "LibSSL1.1" ≡ "libssl1.1"
unfolding lower
lower_test = refl

-- `sorted(set(xs))`
insert_text : String → List String → List String
insert_text s List.[] = List.◌∷◌ s List.[]
insert_text s (List.◌∷◌ t ts) =
    let rest = insert_text s ts in
    if Text.◌==◌ s t
    then List.◌∷◌ t ts
    else if text_le s t
    then List.◌∷◌ s (List.◌∷◌ t ts)
    else List.◌∷◌ t rest

unfoldable pub sorted_set : List String → List String
unfolding insert_text text_le
sorted_set List.[] = List.[]
sorted_set (List.◌∷◌ s ss) = insert_text s (sorted_set ss)

unfoldable pub is_space : Char → Bool
is_space c = (leb 28 (code c) && leb (code c) 32) || (leb 9 (code c) && leb (code c) 13)

unfoldable pub lstrip : String → String
unfolding is_space
lstrip [] = []
lstrip (c ∷ s) = let rest = lstrip s in if is_space c then rest else c ∷ s

unfoldable pub rstrip : String → String
unfolding is_space
rstrip [] = []
rstrip (c ∷ s) = let rest = rstrip s in if is_space c && not (is_text rest) then [] else c ∷ rest

-- `s.strip()`
unfoldable pub strip : String → String
unfolding lstrip rstrip
strip s = lstrip (rstrip s)

strip_test : strip " role  x \n" ≡ "role  x"
unfolding strip
strip_test = refl

nonempty-insert_text : (s : String) (ts : List String) → nonempty (insert_text s ts) ≡ true
unfolding insert_text
nonempty-insert_text s List.[] = refl
nonempty-insert_text s (List.◌∷◌ t ts) = ground arith

pub nonempty-sorted_set : (ss : List String) → nonempty (sorted_set ss) ≡ nonempty ss
unfolding sorted_set
nonempty-sorted_set List.[] = refl
nonempty-sorted_set (List.◌∷◌ s ss) = nonempty-insert_text s (sorted_set ss)

abbrev digit_text : ℕ → String
digit_text n = elim (compare n 5) [
  | Ordering.lt ↦
      (if nat_beq n 0
        then "0"
        else if nat_beq n 1
        then "1"
        else if nat_beq n 2
        then "2"
        else if nat_beq n 3
        then "3"
        else "4")
  | _ ↦
      (if nat_beq n 5
        then "5"
        else if nat_beq n 6
        then "6"
        else if nat_beq n 7
        then "7"
        else if nat_beq n 8
        then "8"
        else "9")
]

-- The digits of a number before those that stand already; a number has fewer digits than its successor
-- counts.
decimal_from : ℕ → ℕ → String → String
decimal_from zero n s = s
decimal_from (suc fuel) n s =
    let t = digit_text (n % 10) ++ s in
    let rest = decimal_from fuel (n / 10) t in if leb n 9 then t else rest

-- `str(n)`
unfoldable pub decimal : ℕ → String
unfolding decimal_from
decimal n = decimal_from (suc n) n ""

decimal_test : decimal 20480 ≡ "20480"
unfolding decimal
decimal_test = refl

-- `len(s)`
unfoldable pub text_length : String → ℕ
text_length [] = 0
text_length (c ∷ s) = suc (text_length s)
