-- ===== src/Auth/Codec/Defs.antt =====
-- packages/auth/src/codec.ts, with `btoa` and `atob`. No text here has whitespace, which `atob` drops.
use opfs_webauthn.Prelude.{
  Bool, List, Option, Text, [], if◌then◌else◌, leb, length, ltb, none, some, suc, true, zero, ℕ,
  ◌%◌, ◌&&◌, ◌*◌, ◌++◌, ◌+◌, ◌-◌, ◌/◌, ◌==◌, ◌||◌, ◌∷◌,
}

-- The character of a value below 64 in the standard alphabet.
unfoldable pub symbol : ℕ → ℕ
symbol v =
    if ltb v 26
    then 65 + v
    else if ltb v 52
    then 71 + v
    else if ltb v 62
    then v - 4
    else if v == 62
    then 43
    else 47

-- Its value, `none` for a character that is not in the alphabet.
unfoldable pub symbol_value : ℕ → Option ℕ
symbol_value c =
    if leb 65 c && leb c 90
    then some (c - 65)
    else if leb 97 c && leb c 122
    then some (c - 71)
    else if leb 48 c && leb c 57
    then some (c + 4)
    else if c == 43
    then some 62
    else if c == 47
    then some 63
    else none

unfoldable pub btoa : List ℕ → Text
unfolding symbol
btoa [] = []
btoa (a ∷ []) = symbol (a / 4) ∷ symbol (a % 4 * 16) ∷ 61 ∷ 61 ∷ []
btoa (a ∷ b ∷ []) = symbol (a / 4) ∷ symbol (a % 4 * 16 + b / 16) ∷ symbol (b % 16 * 4) ∷ 61 ∷ []
btoa (a ∷ b ∷ c ∷ rest) =
    symbol (a / 4)
    ∷ symbol (a % 4 * 16 + b / 16)
    ∷ symbol (b % 16 * 4 + c / 64)
    ∷ symbol (c % 64)
    ∷ btoa rest

-- Without one `=` at the end.
unfoldable pub trim_pad : Text → Text
trim_pad [] = []
trim_pad (c ∷ []) = if c == 61 then [] else c ∷ []
trim_pad (c ∷ d ∷ s) = c ∷ trim_pad (d ∷ s)

unfoldable pub symbol_values : Text → Option (List ℕ)
unfolding symbol_value
symbol_values [] = some []
symbol_values (c ∷ s) = elim (symbol_value c) [
  | none ↦ none
  | some v ↦ elim (symbol_values s) [ none ↦ none | some vs ↦ some (v ∷ vs) ]
]

-- Bytes from groups of four values. What is left of the bits of a short group is dropped.
unfoldable pub ungroup : List ℕ → Option (List ℕ)
ungroup [] = some []
ungroup (w ∷ []) = none
ungroup (w ∷ x ∷ []) = some ((w * 4 + x / 16) ∷ [])
ungroup (w ∷ x ∷ y ∷ []) = some ((w * 4 + x / 16) ∷ (x % 16 * 16 + y / 4) ∷ [])
ungroup (w ∷ x ∷ y ∷ z ∷ rest) = elim (ungroup rest) [
  | none ↦ none
  | some bytes ↦ some ((w * 4 + x / 16) ∷ (x % 16 * 16 + y / 4) ∷ (y % 4 * 64 + z) ∷ bytes)
]

unfoldable pub atob : Text → Option (List ℕ)
unfolding trim_pad symbol_values ungroup
atob s =
    let unpadded = if length s % 4 == 0 then trim_pad (trim_pad s) else s in
    elim (symbol_values unpadded) [ none ↦ none | some vs ↦ ungroup vs ]

-- `s.replaceAll(from, to)` for single characters.
unfoldable pub replace_all : ℕ → ℕ → Text → Text
replace_all from to [] = []
replace_all from to (c ∷ s) = (if c == from then to else c) ∷ replace_all from to s

-- `s.replaceAll(c, "")`.
unfoldable pub remove_all : ℕ → Text → Text
remove_all r [] = []
remove_all r (c ∷ s) = let rest = remove_all r s in if c == r then rest else c ∷ rest

unfoldable pub pads : ℕ → Text
pads zero = []
pads (suc n) = 61 ∷ pads n

-- The class `[A-Za-z0-9_-]`.
unfoldable pub is_url_safe : ℕ → Bool
is_url_safe c =
    (leb 65 c && leb c 90)
    || ((leb 97 c && leb c 122) || ((leb 48 c && leb c 57) || (c == 95 || c == 45)))

unfoldable pub all_url_safe : Text → Bool
unfolding is_url_safe
all_url_safe [] = true
all_url_safe (c ∷ s) = is_url_safe c && all_url_safe s

unfoldable pub bytes_to_base64url : List ℕ → Text
unfolding btoa replace_all remove_all
bytes_to_base64url bytes = remove_all 61 (replace_all 47 95 (replace_all 43 45 (btoa bytes)))

unfoldable pub base64url_to_bytes : Text → Option (List ℕ)
unfolding atob replace_all pads all_url_safe
base64url_to_bytes s =
    let pad_len = (4 - length s % 4) % 4 in
    if all_url_safe s then atob (replace_all 95 47 (replace_all 45 43 s) ++ pads pad_len) else none
