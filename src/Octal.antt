-- ===== src/Octal.antt =====
-- Octal numerals: Python's format `{n:o}` and the texts that `int(s, 8)` accepts.
use ansible_go.Base.{
  ℕ, zero, suc, ◌+◌, ◌-◌, ◌*◌, ◌/◌, ◌%◌, String, ◌<>◌, Bool, true, false, not, ◌&&◌, ◌||◌, List, [],
  ◌∷◌, codes, ltb, leb, eqb, if◌then◌else◌,
}
pub mod Laws

abbrev pub digit : ℕ → String
digit zero = "0"
digit (suc zero) = "1"
digit (suc (suc zero)) = "2"
digit (suc (suc (suc zero))) = "3"
digit (suc (suc (suc (suc zero)))) = "4"
digit (suc (suc (suc (suc (suc zero))))) = "5"
digit (suc (suc (suc (suc (suc (suc zero)))))) = "6"
digit _ = "7"

-- One digit for each unit of fuel; n has at most n + 1 digits.
octal_from : ℕ → ℕ → String
octal_from zero n = ""
octal_from (suc fuel) n =
    let front = octal_from fuel (n / 8) in if ltb n 8 then digit n else front <> digit (n % 8)

-- `f"{n:o}"`
unfoldable pub octal : ℕ → String
unfolding octal_from
octal n = octal_from (suc n) n

abbrev pub is_octal : ℕ → Bool
is_octal c = leb b'0' c && leb c b'7'

-- White space, over ASCII.
abbrev is_space : ℕ → Bool
is_space c = eqb c 32 || (leb 9 c && leb c 13) || (leb 28 c && leb c 31)

strip_left : List ℕ → List ℕ
strip_left [] = []
strip_left (c ∷ s) = let rest = strip_left s in if is_space c then rest else c ∷ s

all_space : List ℕ → Bool
all_space [] = true
all_space (c ∷ s) = is_space c && all_space s

-- Digits with single underscores between them, white space behind; `open` says that a digit
-- must follow.
digits_end : Bool → List ℕ → Bool
unfolding all_space
digits_end open_ [] = not open_
digits_end open_ (c ∷ s) =
    if is_octal c
    then digits_end false s
    else if eqb c b'_'
    then not open_ && digits_end true s
    else not open_ && all_space (c ∷ s)

-- Behind the prefix `0o` one underscore may stand.
after_prefix : List ℕ → Bool
unfolding digits_end
after_prefix [] = false
after_prefix (c ∷ s) = if eqb c b'_' then digits_end true s else digits_end true (c ∷ s)

unsigned : List ℕ → Bool
unfolding after_prefix digits_end
unsigned (c ∷ o ∷ s) =
    if eqb c b'0' && (eqb o b'o' || eqb o b'O') then after_prefix s else digits_end true (c ∷ o ∷ s)
unsigned s = digits_end true s

signed : List ℕ → Bool
unfolding unsigned
signed [] = false
signed (c ∷ s) = if eqb c b'+' || eqb c b'-' then unsigned s else unsigned (c ∷ s)

-- `int(s, 8)` returns, and does not raise ValueError.
unfoldable pub is_int8 : List ℕ → Bool
unfolding signed strip_left
is_int8 s = signed (strip_left s)

-- The number that octal digits stand for, behind the digits read so far.
abbrev pub octal_value : ℕ → List ℕ → ℕ
octal_value acc [] = acc
octal_value acc (c ∷ s) = octal_value (acc * 8 + (c - b'0')) s
