-- ===== src/Util/Text.antt =====
-- What the sources do with texts when they write them: f-strings and `join`, `str(n)`, `lower` and
-- `upper` on the ASCII letters, and `split`.
use Prim.Native.Char.{Char, code}
use Prim.Native.String.{◌++◌ as append}
use client_py.Prelude.{
  ℕ, zero, suc, ◌/◌, ◌%◌, ◌≡◌, refl, ◌&&◌, ℤ, pos, negsuc, String, none, some, List, [], ◌∷◌,
  nat_eq, ltb, str_eq, if◌then◌else◌, text_keys,
}
use client_py.Dict.{Dict}
use client_py.Dict
use client_py.Value.Text.{is_space}

-- `"".join(parts)`, which an f-string is too
unfoldable pub join : List String → String
join [] = ""
join (s ∷ parts) = append s (join parts)

abbrev nth : List String → ℕ → String
nth [] n = ""
nth (s ∷ rest) zero = s
nth (s ∷ rest) (suc n) = nth rest n

abbrev digit : ℕ → String
digit n = nth ("0" ∷ "1" ∷ "2" ∷ "3" ∷ "4" ∷ "5" ∷ "6" ∷ "7" ∷ "8" ∷ "9" ∷ []) n

-- The decimal digits; a number is not longer than its value.
decimal : ℕ → ℕ → String → String
decimal zero n rest = rest
decimal (suc fuel) n rest =
    let longer = decimal fuel (n / 10) (append (digit (n % 10)) rest) in
    if ltb n 10 then append (digit n) rest else longer

-- `str(n)` of a natural number
unfoldable pub nat_text : ℕ → String
unfolding decimal
nat_text n = decimal (suc n) n ""

-- `str(n)` of an integer
unfoldable pub int_text : ℤ → String
int_text (pos n) = nat_text n
int_text (negsuc n) = append "-" (nat_text (suc n))

abbrev letters : Dict String String
letters =
    ("A", "a")
    ∷ ("B", "b")
    ∷ ("C", "c")
    ∷ ("D", "d")
    ∷ ("E", "e")
    ∷ ("F", "f")
    ∷ ("G", "g")
    ∷ ("H", "h")
    ∷ ("I", "i")
    ∷ ("J", "j")
    ∷ ("K", "k")
    ∷ ("L", "l")
    ∷ ("M", "m")
    ∷ ("N", "n")
    ∷ ("O", "o")
    ∷ ("P", "p")
    ∷ ("Q", "q")
    ∷ ("R", "r")
    ∷ ("S", "s")
    ∷ ("T", "t")
    ∷ ("U", "u")
    ∷ ("V", "v")
    ∷ ("W", "w")
    ∷ ("X", "x")
    ∷ ("Y", "y")
    ∷ ("Z", "z")
    ∷ []

abbrev capitals : Dict String String
capitals =
    ("a", "A")
    ∷ ("b", "B")
    ∷ ("c", "C")
    ∷ ("d", "D")
    ∷ ("e", "E")
    ∷ ("f", "F")
    ∷ ("g", "G")
    ∷ ("h", "H")
    ∷ ("i", "I")
    ∷ ("j", "J")
    ∷ ("k", "K")
    ∷ ("l", "L")
    ∷ ("m", "M")
    ∷ ("n", "N")
    ∷ ("o", "O")
    ∷ ("p", "P")
    ∷ ("q", "Q")
    ∷ ("r", "R")
    ∷ ("s", "S")
    ∷ ("t", "T")
    ∷ ("u", "U")
    ∷ ("v", "V")
    ∷ ("w", "W")
    ∷ ("x", "X")
    ∷ ("y", "Y")
    ∷ ("z", "Z")
    ∷ []

abbrev letter : Dict String String → Char → String
letter table c = let s = String.◌∷◌ c "" in elim (Dict.get s table) [ none ↦ s | some t ↦ t ]

unfoldable pub lower : String → String
lower String.[] = ""
lower (String.◌∷◌ c s) = append (letter letters c) (lower s)

unfoldable pub upper : String → String
upper String.[] = ""
upper (String.◌∷◌ c s) = append (letter capitals c) (upper s)

abbrev pub add_to_first : Char → List String → List String
add_to_first c [] = String.◌∷◌ c "" ∷ []
add_to_first c (s ∷ parts) = String.◌∷◌ c s ∷ parts

-- `s.split(sep)` at one character
unfoldable pub split : Char → String → List String
split sep String.[] = "" ∷ []
split sep (String.◌∷◌ c s) =
    let parts = split sep s in
    if nat_eq (code c) (code sep) then "" ∷ parts else add_to_first c parts

abbrev strip_left : String → String
strip_left String.[] = ""
strip_left (String.◌∷◌ c s) =
    let rest = strip_left s in if is_space (code c) then rest else String.◌∷◌ c s

abbrev strip_right : String → String
strip_right String.[] = ""
strip_right (String.◌∷◌ c s) =
    let rest = strip_right s in
    if is_space (code c) && str_eq rest "" then "" else String.◌∷◌ c rest

-- `s.strip()`
unfoldable pub strip : String → String
strip s = strip_right (strip_left s)

text_runs :
    (nat_text 1203 ≡ "1203")
    × (lower "De-X" ≡ "de-x")
    × (upper "de1" ≡ "DE1")
    × (strip " a b " ≡ "a b")
unfolding nat_text lower upper strip Dict.get
text_runs = (refl, refl, refl, refl)
