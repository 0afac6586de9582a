-- ===== src/Base/Regex.antt =====
-- Python's `re.search` and `re.sub`, for the patterns of the program: one group at most, and only
-- single characters are repeated.
use Prim.Native.Char.{Char, code}
use Prim.Native.Nat.{ℕ, zero, suc, ◌-◌}
use Prim.Native.String.{String, [], ◌∷◌}
use mathlib.Core.Path.{◌≡◌, refl}
use mathlib.Core.Bool.{Bool, true, false, not, ◌&&◌, ◌||◌}
use mathlib.Core.Option.{Option, none, some}
use mathlib.Core.List.{List}
use kaaval.Base.Tests.{if◌then◌else◌, nat_beq, leb}
use kaaval.Base.Text.{lower, is_space, text_length}

abbrev pub Class : Type 0
Class = Char → Bool

pub data Piece : Type 0 where
  -- a class of characters
  one : Class → Piece
  -- `x*`, `x*?` and `x?`
  many : Class → Piece
  lazy : Class → Piece
  optional : Class → Piece
  -- `(?:a|b)` of texts whose case does not matter
  choice : List String → Piece
  -- `(` and `)`
  open_group : Piece
  close_group : Piece
  -- `$`
  at_end : Piece

-- `\d`, for the ASCII digits
abbrev pub digit : Class
digit c = leb b'0' (code c) && leb (code c) b'9'

-- `\s`
unfoldable pub space : Class
unfolding is_space
space c = is_space c

-- `\w`, for ASCII
abbrev pub word : Class
word c =
    digit c
    || ((leb b'a' (code c) && leb (code c) b'z')
        || ((leb b'A' (code c) && leb (code c) b'Z') || nat_beq (code c) b'_'))

-- The letter itself.
abbrev pub this : Char → Class
this a c = nat_beq (code c) (code a)

-- The letter in either case.
unfoldable pub either_case : Char → Class
unfolding lower
either_case a c = elim (lower (c ∷ [])) [
  | [] ↦ false
  | d ∷ s ↦ elim (lower (a ∷ [])) [ [] ↦ false | b ∷ t ↦ nat_beq (code d) (code b) ]
]

abbrev pub any_char : Class
any_char c = true

-- A literal, before the rest of a pattern.
abbrev pub literal : (Char → Class) → String → List Piece → List Piece
literal f [] ps = ps
literal f (c ∷ s) ps = List.◌∷◌ (one (f c)) (literal f s ps)

-- What a match leaves: the text of the group, and the text after the match.
pub record Match : Type 0 where
  pub group : String
  pub rest : String

-- The character belongs to the group while it is open.
abbrev keep : Bool → Char → Option Match → Option Match
keep inside c none = none
keep inside c (some m) = some (if inside then record { group = c ∷ m.group; rest = m.rest } else m)

abbrev or_else : Option Match → Option Match → Option Match
or_else none n = n
or_else (some m) n = some m

-- The text after a prefix whose case does not matter.
drop_prefix : String → String → Option String
unfolding either_case
drop_prefix [] s = some s
drop_prefix (a ∷ prefix) [] = none
drop_prefix (a ∷ prefix) (c ∷ s) =
    let rest = drop_prefix prefix s in if either_case a c then rest else none

-- The first alternative after which the rest of the pattern matches.
try_choices : (String → Option Match) → List String → String → Option Match
unfolding drop_prefix
try_choices k List.[] s = none
try_choices k (List.◌∷◌ prefix prefixes) s =
    let others = try_choices k prefixes s in
    elim (drop_prefix prefix s) [ none ↦ others | some rest ↦ or_else (k rest) others ]

-- The match of a pattern at the start of a text, by backtracking.
unfoldable pub match_here : List Piece → Bool → String → Option Match
unfolding try_choices
match_here List.[] inside s = some (record { group = ""; rest = s })
match_here (List.◌∷◌ (one p) ps) inside [] = none
match_here (List.◌∷◌ (one p) ps) inside (c ∷ s) =
    let next = keep inside c (match_here ps inside s) in if p c then next else none
match_here (List.◌∷◌ (many p) ps) inside [] = match_here ps inside []
match_here (List.◌∷◌ (many p) ps) inside (c ∷ s) =
    let more = keep inside c (match_here (List.◌∷◌ (many p) ps) inside s) in
    let stop = match_here ps inside (c ∷ s) in if p c then or_else more stop else stop
match_here (List.◌∷◌ (lazy p) ps) inside [] = match_here ps inside []
match_here (List.◌∷◌ (lazy p) ps) inside (c ∷ s) =
    let more = keep inside c (match_here (List.◌∷◌ (lazy p) ps) inside s) in
    let stop = match_here ps inside (c ∷ s) in or_else stop (if p c then more else none)
match_here (List.◌∷◌ (optional p) ps) inside [] = match_here ps inside []
match_here (List.◌∷◌ (optional p) ps) inside (c ∷ s) =
    let more = keep inside c (match_here ps inside s) in
    let stop = match_here ps inside (c ∷ s) in if p c then or_else more stop else stop
match_here (List.◌∷◌ (choice prefixes) ps) inside s =
    try_choices (λ rest. match_here ps inside rest) prefixes s
match_here (List.◌∷◌ open_group ps) inside s = match_here ps true s
match_here (List.◌∷◌ close_group ps) inside s = match_here ps false s
match_here (List.◌∷◌ at_end ps) inside [] = match_here ps inside []
match_here (List.◌∷◌ at_end ps) inside (c ∷ []) =
    let stop = match_here ps inside (c ∷ []) in if nat_beq (code c) b'\n' then stop else none
match_here (List.◌∷◌ at_end ps) inside (c ∷ (d ∷ s)) = none

-- `re.search(pattern, s)`: the leftmost match.
unfoldable pub search_in : List Piece → String → Option Match
unfolding match_here
search_in ps [] = match_here ps false []
search_in ps (c ∷ s) = or_else (match_here ps false (c ∷ s)) (search_in ps s)

-- The group of the leftmost match.
unfoldable pub find_group : List Piece → String → Option String
unfolding search_in
find_group ps s = elim (search_in ps s) [ none ↦ none | some m ↦ some m.group ]

-- The text after the characters to skip, without the matches.
erase_from : List Piece → ℕ → String → String
unfolding match_here text_length
erase_from ps n [] = []
erase_from ps (suc n) (c ∷ s) = erase_from ps n s
erase_from ps zero (c ∷ s) =
    let rest = λ (n : ℕ). erase_from ps n s in
    elim (match_here ps false (c ∷ s)) [
      | none ↦ c ∷ rest 0
      | some m ↦ rest (text_length s - text_length m.rest)
    ]

-- `re.sub(pattern, "", s)` of a pattern that matches no empty text.
unfoldable pub erase_matches : List Piece → String → String
unfolding erase_from
erase_matches ps s = erase_from ps 0 s

tag_test :
    erase_matches
      (List.◌∷◌ (one (this "<")) (
        List.◌∷◌
          (one (λ c. not (this ">" c)))
          (List.◌∷◌ (many (λ c. not (this ">" c))) (List.◌∷◌ (one (this ">")) List.[]))))
      "a <b>bold</b> <> c"
    ≡ "a bold <> c"
unfolding erase_matches
tag_test = refl
