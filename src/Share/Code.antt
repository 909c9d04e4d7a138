-- ===== src/Share/Code.antt =====
-- packages/share-client/src/code.ts, and apps/web/src/share/format-code.ts: the pickup code.
use opfs_webauthn.Prelude.{
  ==_iff, Bool, List, Option, Text, [], ap, arith, codes, drop, if_true, if◌then◌else◌, leb, length,
  length-drop, ltb, none, refl, some, suc, sym, take, take-append-drop, true, zero, ℕ, ◌&&◌, ◌++◌,
  ◌-◌, ◌==◌, ◌||◌, ◌∙◌, ◌∷◌, ◌≡◌, ◌≤◌,
}
use mathlib.Core.List.{append-nil}

abbrev pub code_len : ℕ
code_len = 12

-- `[\s-]`: the white space of a JavaScript regular expression, and the hyphen.
unfoldable pub is_separator : ℕ → Bool
is_separator c =
    c == 45
    || c == 32
    || leb 9 c && leb c 13
    || c == 160
    || c == 5760
    || leb 8192 c && leb c 8202
    || c == 8232
    || c == 8233
    || c == 8239
    || c == 8287
    || c == 12288
    || c == 65279

-- `[0-9A-Z]`
unfoldable pub is_code_char : ℕ → Bool
is_code_char c = leb 48 c && leb c 57 || leb 65 c && leb c 90

abbrev pub drop_separators : Text → Text
drop_separators [] = []
drop_separators (c ∷ cs) =
    let rest = drop_separators cs in if is_separator c then rest else c ∷ rest

abbrev pub all_code_chars : Text → Bool
all_code_chars [] = true
all_code_chars (c ∷ cs) = is_code_char c && all_code_chars cs

-- `formatCodeForDisplay`: groups of four, joined by hyphens. `fuel` bounds the number of groups.
abbrev pub group_size : ℕ
group_size = 4

unfoldable pub groups : ℕ → Text → List Text
groups zero code = []
groups (suc fuel) [] = []
groups (suc fuel) (c ∷ code) = take group_size (c ∷ code) ∷ groups fuel (drop group_size (c ∷ code))

unfoldable pub join : Text → List Text → Text
join sep [] = []
join sep (g ∷ gs) = join_from sep g gs
  where
    join_from : Text → Text → List Text → Text
    join_from sep g [] = g
    join_from sep g (h ∷ gs) = g ++ (sep ++ join_from sep h gs)

unfoldable pub format_code_for_display : Text → Text
unfolding groups join
format_code_for_display code = join (codes "-") (groups (length code) code)

drop_separators-append :
    (xs ys : Text) → drop_separators (xs ++ ys) ≡ drop_separators xs ++ drop_separators ys
drop_separators-append [] ys = refl
drop_separators-append (x ∷ xs) ys = ground (arith, drop_separators-append xs ys)

drop_separators-code : (code : Text) → all_code_chars code ≡ true → drop_separators code ≡ code
unfolding is_code_char is_separator
drop_separators-code [] h = refl
drop_separators-code (c ∷ cs) h = ground (arith, drop_separators-code cs)

abbrev concat : List Text → Text
concat [] = []
concat (g ∷ gs) = g ++ concat gs

concat-groups : (fuel : ℕ) (code : Text) → length code ≤ fuel → concat (groups fuel code) ≡ code
unfolding groups
concat-groups zero [] h = refl
concat-groups zero (c ∷ code) h = absurd (omega arith)
concat-groups (suc fuel) [] h = refl
concat-groups (suc fuel) (c ∷ code) h =
    ap (◌++◌ (take 4 (c ∷ code)))
      (concat-groups fuel (drop 4 (c ∷ code)) (omega (arith, length-drop 4 (c ∷ code))))
    ∙ take-append-drop 4 (c ∷ code)

drop_separators-join :
    (gs : List Text) → drop_separators (join (codes "-") gs) ≡ drop_separators (concat gs)
unfolding join is_separator
drop_separators-join [] = refl
drop_separators-join (g ∷ gs) = from g gs
  where
    from :
        (g : Text) (gs : List Text)
        → drop_separators (join (codes "-") (g ∷ gs)) ≡ drop_separators (g ++ concat gs)
    from g [] = ap drop_separators (sym (append-nil g))
    from g (h ∷ gs) =
        drop_separators-append g (codes "-" ++ join (codes "-") (h ∷ gs))
        ∙ ap (◌++◌ (drop_separators g)) (from h gs)
        ∙ sym (drop_separators-append g (h ++ concat gs))

-- `toUpperCase` outside of ASCII is an argument.
module _ (upper_other : ℕ → Text) where
  abbrev pub upper_char : ℕ → Text
  upper_char c =
      if leb 97 c && leb c 122 then (c - 32) ∷ [] else if ltb c 128 then c ∷ [] else upper_other c

  abbrev pub to_upper_case : Text → Text
  to_upper_case [] = []
  to_upper_case (c ∷ cs) = upper_char c ++ to_upper_case cs

  unfoldable pub normalize_code : Text → Option Text
  normalize_code raw =
      let cleaned = to_upper_case (drop_separators raw) in
      if length cleaned == code_len && all_code_chars cleaned then some cleaned else none

  to_upper_case-code : (code : Text) → all_code_chars code ≡ true → to_upper_case code ≡ code
  unfolding is_code_char
  to_upper_case-code [] h = refl
  to_upper_case-code (c ∷ cs) h = ground (arith, to_upper_case-code cs)

  normalize_code-clean :
      (raw code : Text)
      → to_upper_case (drop_separators raw) ≡ code
      → length code ≡ code_len
      → all_code_chars code ≡ true
      → normalize_code raw ≡ some code
  unfolding normalize_code
  normalize_code-clean raw code e l a =
      rw e (if_true _ (some code) none (ground (arith, ==_iff (length code) 12)))

  normalize_code_self :
      (code : Text)
      → length code ≡ code_len
      → all_code_chars code ≡ true
      → normalize_code code ≡ some code
  normalize_code_self code l a =
      normalize_code-clean code code
        (ap to_upper_case (drop_separators-code code a) ∙ to_upper_case-code code a) l a

  -- A code that is normalized has 12 characters of the code's alphabet, and is its own normal form.
  pub normalize_code-normal :
      (raw code : Text)
      → normalize_code raw ≡ some code
      → (length code ≡ code_len) × (all_code_chars code ≡ true) × (normalize_code code ≡ some code)
  unfolding normalize_code
  normalize_code-normal raw code e =
      let cleaned : Text = to_upper_case (drop_separators raw) in
      let same : (length cleaned == code_len && all_code_chars cleaned ≡ true) × (cleaned ≡ code) =
        ground arith in
      let l : length code ≡ code_len = ground (arith, ==_iff (length cleaned) 12) in
      let a : all_code_chars code ≡ true = ground arith in (l, a, normalize_code_self code l a)

  -- The form that the recipient's screen shows normalizes to the code.
  pub normalize_code-format :
      (code : Text)
      → length code ≡ code_len
      → all_code_chars code ≡ true
      → normalize_code (format_code_for_display code) ≡ some code
  unfolding format_code_for_display
  normalize_code-format code l a =
      normalize_code-clean (format_code_for_display code) code
        (ap to_upper_case (
            drop_separators-join (groups (length code) code)
            ∙ ap drop_separators (concat-groups (length code) code (omega arith))
            ∙ drop_separators-code code a)
          ∙ to_upper_case-code code a)
        l a
