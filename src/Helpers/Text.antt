-- ===== src/Helpers/Text.antt =====
-- Python's `str` as a list of code points, for ASCII text: strip, lstrip, lower, isdigit, int(text).
use Prim.Native.Char.{code}
use fansly_scraper.Common.{
  ℕ, ◌+◌, ◌-◌, ◌*◌, Bool, true, false, not, ◌&&◌, ◌||◌, Option, none, some, List, [], ◌∷◌, ltb, leb,
  nat_beq, all, String, if◌then◌else◌, map,
}
use fansly_scraper.Common.Int.{ℤ, pos, neg}

abbrev pub Text : Type 0
Text = List ℕ

-- `String` has its own `[]` and `∷`.
abbrev pub codes : String → Text
codes String.[] = []
codes (String.◌∷◌ c s) = code c ∷ codes s

-- str.isspace
abbrev pub is_space : ℕ → Bool
is_space c = (leb 9 c && leb c 13) || (leb 28 c && leb c 32)

abbrev pub is_digit : ℕ → Bool
is_digit c = leb b'0' c && leb c b'9'

unfoldable pub strip_left : (ℕ → Bool) → Text → Text
strip_left p [] = []
strip_left p (c ∷ cs) = if p c then strip_left p cs else c ∷ cs

-- drops the trailing characters that pass the test
unfoldable pub strip_right : (ℕ → Bool) → Text → Text
strip_right p [] = []
strip_right p (c ∷ cs) = elim (strip_right p cs) [
  | [] ↦ if p c then [] else c ∷ []
  | d ∷ ds ↦ c ∷ d ∷ ds
]

-- text.strip()
unfoldable pub strip : Text → Text
unfolding strip_left strip_right
strip s = strip_right is_space (strip_left is_space s)

abbrev pub lower_code : ℕ → ℕ
lower_code c = if leb b'A' c && leb c b'Z' then c + 32 else c

-- text.lower()
unfoldable pub lower : Text → Text
lower s = map lower_code s

-- text.strip().lstrip("@").lower(): how a creator is keyed
unfoldable pub creator_key : Text → Text
unfolding strip lower
creator_key s = lower (strip_left (nat_beq b'@') (strip s))

-- text.isdigit()
unfoldable pub is_digits : Text → Bool
is_digits [] = false
is_digits (c ∷ cs) = all is_digit (c ∷ cs)

-- The digits of `int(text)`, with single underscores between them; `need` asks for a digit next.
unfoldable pub int_digits : Bool → ℕ → Text → Option ℕ
int_digits need n [] = if need then none else some n
int_digits need n (c ∷ cs) =
    let next = int_digits false (n * 10 + (c - b'0')) cs in
    let under = int_digits true n cs in
    if is_digit c then next else if nat_beq c b'_' && not need then under else none

-- the white space that `int` skips
abbrev pub int_space : ℕ → Bool
int_space c = (leb 9 c && leb c 13) || nat_beq c 32

abbrev pub count_digits : Text → ℕ
count_digits [] = 0
count_digits (c ∷ cs) = (if is_digit c then 1 else 0) + count_digits cs

-- an optional sign, then the digits
unfoldable pub int_signed : Text → Option ℤ
unfolding int_digits
int_signed [] = none
int_signed (c ∷ cs) =
    if nat_beq c b'-'
    then elim (int_digits true 0 cs) [ none ↦ none | some n ↦ some (neg n) ]
    else if nat_beq c b'+'
    then elim (int_digits true 0 cs) [ none ↦ none | some n ↦ some (pos n) ]
    else elim (int_digits true 0 (c ∷ cs)) [ none ↦ none | some n ↦ some (pos n) ]

-- int(text): `none` is a ValueError, which a text of more than 4300 digits gives too.
unfoldable pub int_of_text : Text → Option ℤ
unfolding int_signed strip_left strip_right
int_of_text s =
    if ltb 4300 (count_digits s)
    then none
    else int_signed (strip_right int_space (strip_left int_space s))
