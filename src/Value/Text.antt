-- ===== src/Value/Text.antt =====
-- What the sources do with texts: search, `int(s)`, `strip`, `split` and `upper`, over the code
-- points. `int` and `strip` know the ASCII digits and white space only.
use Prim.Native.Char.{code}
use client_py.Prelude.{
  ℕ, zero, suc, ◌+◌, ◌*◌, ◌-◌, String, Bool, true, false, ◌&&◌, ◌||◌, Option, none, some, List, [],
  ◌∷◌, ◌≡◌, refl, ℤ, pos, negsuc, nat_eq, leb, if◌then◌else◌,
}

abbrev pub codes : String → List ℕ
codes String.[] = []
codes (String.◌∷◌ c s) = code c ∷ codes s

starts : List ℕ → List ℕ → Bool
starts [] cs = true
starts (p ∷ ps) [] = false
starts (p ∷ ps) (c ∷ cs) = nat_eq p c && starts ps cs

occurs : List ℕ → List ℕ → Bool
unfolding starts
occurs ps [] = starts ps []
occurs ps (c ∷ cs) = starts ps (c ∷ cs) || occurs ps cs

-- `part in s`
unfoldable pub find_text : String → String → Bool
unfolding occurs
find_text part s = occurs (codes part) (codes s)

abbrev is_digit : ℕ → Bool
is_digit c = leb b'0' c && leb c b'9'

-- The space, and the controls from tab to carriage return and from 0x1c to 0x1f.
abbrev pub is_space : ℕ → Bool
is_space c = nat_eq c 32 || leb 9 c && leb c 13 || leb 28 c && leb c 31

abbrev skip_spaces : List ℕ → List ℕ
skip_spaces [] = []
skip_spaces (c ∷ cs) = let rest = skip_spaces cs in if is_space c then rest else c ∷ cs

all_spaces : List ℕ → Bool
all_spaces [] = true
all_spaces (c ∷ cs) = is_space c && all_spaces cs

-- Digits, with one underscore allowed between two of them, then spaces to the end.
digits_from : ℕ → List ℕ → Option ℕ
unfolding all_spaces
digits_from n [] = some n
digits_from n (c ∷ []) =
    if is_digit c then some (n * 10 + (c - 48)) else if is_space c then some n else none
digits_from n (c ∷ d ∷ cs) =
    let rest = digits_from (n * 10 + (c - 48)) (d ∷ cs) in
    let after = digits_from (n * 10 + (d - 48)) cs in
    if is_digit c
    then rest
    else if nat_eq c b'_' && is_digit d
    then after
    else if all_spaces (c ∷ d ∷ cs)
    then some n
    else none

unsigned : List ℕ → Option ℕ
unfolding digits_from
unsigned [] = none
unsigned (c ∷ cs) = if is_digit c then digits_from (c - 48) cs else none

negate : ℕ → ℤ
negate zero = pos 0
negate (suc n) = negsuc n

signed : List ℕ → Option ℤ
unfolding unsigned negate
signed [] = none
signed (c ∷ cs) =
    if nat_eq c b'-'
    then elim (unsigned cs) [ none ↦ none | some n ↦ some (negate n) ]
    else if nat_eq c b'+'
    then elim (unsigned cs) [ none ↦ none | some n ↦ some (pos n) ]
    else elim (unsigned (c ∷ cs)) [ none ↦ none | some n ↦ some (pos n) ]

-- `int(s)`
unfoldable pub parse_int : String → Option ℤ
unfolding signed
parse_int s = signed (skip_spaces (codes s))

parse_int-runs : parse_int " -1_20 " ≡ some (negsuc 119)
unfolding parse_int
parse_int-runs = refl
