-- ===== src/Notes/Cursor.antt =====
-- packages/storage/src/note-repository.ts: the cursor `${updatedDay}:${id}` of a page, as `list` writes it
-- and `cursorWhere` reads it.
use opfs_webauthn.Prelude.{
  Bool, Option, Text, [], arith, false, if◌then◌else◌, leb, ltb, none, not, refl, some, suc, true,
  zero, ℕ, ◌%◌, ◌&&◌, ◌*◌, ◌++◌, ◌+◌, ◌-◌, ◌/◌, ◌==◌, ◌||◌, ◌∷◌, ◌≡◌, ◌≤◌,
}
use opfs_webauthn.Share.Code.{is_separator}

-- A number in a template literal.
unfoldable pub decimal_up_to : ℕ → ℕ → Text
decimal_up_to zero n = (48 + n) ∷ []
decimal_up_to (suc fuel) n =
    let rest = decimal_up_to fuel (n / 10) in
    if ltb n 10 then (48 + n) ∷ [] else rest ++ ((48 + n % 10) ∷ [])

abbrev pub decimal : ℕ → Text
decimal n = decimal_up_to n n

unfoldable pub cursor_text : ℕ → Text → Text
cursor_text day id = decimal day ++ (58 ∷ id)

abbrev is_digit : ℕ → Bool
is_digit c = leb 48 c && leb c 57

-- The digits of `Number.parseInt(_, 10)`, up to the first other character.
abbrev digits_value : ℕ → Text → ℕ
digits_value acc [] = acc
digits_value acc (c ∷ cs) =
    let rest = digits_value (acc * 10 + (c - 48)) cs in if is_digit c then rest else acc

abbrev starts_digit : Text → Bool
starts_digit [] = false
starts_digit (c ∷ cs) = is_digit c

abbrev skip_spaces : Text → Text
skip_spaces [] = []
skip_spaces (c ∷ cs) =
    let rest = skip_spaces cs in if is_separator c && not (c == 45) then rest else c ∷ cs

-- `none` for NaN and for numbers below zero: no day of a row is equal to one, or less.
abbrev signed_value : Text → Option ℕ
signed_value [] = none
signed_value (c ∷ cs) =
    if c == 45
    then (if starts_digit cs && digits_value 0 cs == 0 then some 0 else none)
    else if c == 43
    then (if starts_digit cs then some (digits_value 0 cs) else none)
    else if is_digit c
    then some (digits_value 0 (c ∷ cs))
    else none

unfoldable pub parse_day : Text → Option ℕ
parse_day s = signed_value (skip_spaces s)

-- The first two parts of `split(":")`.
abbrev up_to_colon : Text → Text
up_to_colon [] = []
up_to_colon (c ∷ cs) = let rest = up_to_colon cs in if c == 58 then [] else c ∷ rest

abbrev after_colon : Text → Text
after_colon [] = []
after_colon (c ∷ cs) = let rest = after_colon cs in if c == 58 then cs else rest

abbrev pub is_empty : Text → Bool
is_empty [] = true
is_empty (c ∷ cs) = false

-- What a cursor that is not empty says: `none` where `cursorWhere` throws.
unfoldable pub parse_cursor : Text → Option (Option ℕ × Text)
unfolding parse_day
parse_cursor s =
    let day = up_to_colon s in
    let id = up_to_colon (after_colon s) in
    if is_empty day || is_empty id then none else some (parse_day day, id)

abbrev all_digits : Text → Bool
all_digits [] = true
all_digits (c ∷ cs) = is_digit c && all_digits cs

all_digits-append : (xs ys : Text) → all_digits (xs ++ ys) ≡ (all_digits xs && all_digits ys)
all_digits-append [] ys = refl
all_digits-append (x ∷ xs) ys = ground (arith, all_digits-append xs ys)

decimal-digits :
    (fuel n : ℕ)
    → n ≤ fuel
    → (all_digits (decimal_up_to fuel n) ≡ true) × (is_empty (decimal_up_to fuel n) ≡ false)
unfolding decimal_up_to
decimal-digits zero n h = ground arith
decimal-digits (suc fuel) n h = ground (
  arith,
  decimal-digits fuel (n / 10),
  all_digits-append (decimal_up_to fuel (n / 10)) ((48 + n % 10) ∷ []),
)

digits_value-append :
    (acc : ℕ) (xs : Text) (c : ℕ)
    → all_digits xs ≡ true
    → is_digit c ≡ true
    → digits_value acc (xs ++ (c ∷ [])) ≡ digits_value acc xs * 10 + (c - 48)
digits_value-append acc [] c h d = ground arith
digits_value-append acc (x ∷ xs) c h d =
    ground (arith, digits_value-append (acc * 10 + (x - 48)) xs c)

digits_value-decimal : (fuel n : ℕ) → n ≤ fuel → digits_value 0 (decimal_up_to fuel n) ≡ n
unfolding decimal_up_to
digits_value-decimal zero n h = ground arith
digits_value-decimal (suc fuel) n h = ground (
  arith,
  digits_value-decimal fuel (n / 10),
  decimal-digits fuel (n / 10),
  digits_value-append 0 (decimal_up_to fuel (n / 10)) (48 + n % 10),
)

abbrev pub has_colon : Text → Bool
has_colon [] = false
has_colon (c ∷ cs) = c == 58 || has_colon cs

digits-no_colon : (s : Text) → all_digits s ≡ true → has_colon s ≡ false
digits-no_colon [] h = refl
digits-no_colon (c ∷ cs) h = ground (arith, digits-no_colon cs)

up_to_colon-append : (xs ys : Text) → has_colon xs ≡ false → up_to_colon (xs ++ (58 ∷ ys)) ≡ xs
up_to_colon-append [] ys h = refl
up_to_colon-append (x ∷ xs) ys h = ground (arith, up_to_colon-append xs ys)

after_colon-append : (xs ys : Text) → has_colon xs ≡ false → after_colon (xs ++ (58 ∷ ys)) ≡ ys
after_colon-append [] ys h = refl
after_colon-append (x ∷ xs) ys h = ground (arith, after_colon-append xs ys)

up_to_colon_all : (xs : Text) → has_colon xs ≡ false → up_to_colon xs ≡ xs
up_to_colon_all [] h = refl
up_to_colon_all (x ∷ xs) h = ground (arith, up_to_colon_all xs)

parse_digits :
    (s : Text) → all_digits s ≡ true → is_empty s ≡ false → parse_day s ≡ some (digits_value 0 s)
unfolding parse_day is_separator
parse_digits [] h e = cc
parse_digits (c ∷ cs) h e = ground arith

-- A page's cursor reads back as the day and the id that it was written from, for an id without a colon.
pub parse_cursor-text :
    (day : ℕ) (id : Text)
    → has_colon id ≡ false
    → is_empty id ≡ false
    → parse_cursor (cursor_text day id) ≡ some (some day, id)
unfolding parse_cursor cursor_text
parse_cursor-text day id h e =
    let (digits, long) = decimal-digits day day (omega arith) in
    let plain : has_colon (decimal day) ≡ false = digits-no_colon (decimal day) digits in
    rw
      (
        up_to_colon-append (decimal day) id plain,
        after_colon-append (decimal day) id plain,
        up_to_colon_all id h,
      )
      (rw (parse_digits (decimal day) digits long, digits_value-decimal day day (omega arith))
        (ground arith))

pub cursor_text-not_empty : (day : ℕ) (id : Text) → is_empty (cursor_text day id) ≡ false
unfolding cursor_text
cursor_text-not_empty day id = not_empty (decimal day) (decimal-digits day day (omega arith)).1
  where
    not_empty : (s : Text) → is_empty s ≡ false → is_empty (s ++ (58 ∷ id)) ≡ false
    not_empty [] e = refl
    not_empty (c ∷ s) e = refl
