-- ===== src/Markdown/Words.antt =====
-- apps/web/src/notes/markdown.tsx: the plain text of a note, by its words.
use opfs_webauthn.Markdown.Defs.{collapse, is_space, join_spaced, tidy, trim, trim_end, trim_start}
use opfs_webauthn.Prelude.{
  Bool, Bool-cases, List, Text, [], ap, arith, false, if◌then◌else◌, inl, inr, not, refl, sym,
  text_beq, true, ℕ, ◌++◌, ◌∙◌, ◌∷◌, ◌≡◌, ◌⊎◌,
}
use mathlib.Core.List.{append-nil}

-- Whether a text begins with a word.

abbrev pub joins : Text → Bool
joins [] = false
joins (c ∷ s) = not (is_space c)

abbrev pub attach : ℕ → List Text → List Text
attach c [] = (c ∷ []) ∷ []
attach c (w ∷ ws) = (c ∷ w) ∷ ws

-- The words between spaces.
unfoldable pub words : Text → List Text
words [] = []
words (c ∷ s) =
    let rest = words s in
    if is_space c then rest else if joins s then attach c rest else (c ∷ []) ∷ rest

unfoldable pub all_words : List Text → List Text
unfolding words
all_words [] = []
all_words (s ∷ ss) = words s ++ all_words ss

words-cases :
    (s : Text)
    → (words s ≡ []) ⊎ ((c : ℕ) × (w : Text) × (ws : List Text) × (words s ≡ (c ∷ w) ∷ ws))
unfolding words
words-cases [] = inl refl
words-cases (c ∷ s) = elim (Bool-cases (is_space c)) [
  | inl b ↦ rw b (words-cases s)
  | inr b ↦ elim (Bool-cases (joins s)) [
    | inr j ↦ inr (c, [], words s, rw (b, j) refl)
    | inl j ↦ elim (words-cases s) [
      | inl n ↦ inr (c, [], [], rw (b, j, n) refl)
      | inr (d, w, ws, n) ↦ inr (c, d ∷ w, ws, rw (b, j, n) refl)
    ]
  ]
]

joins-words : (s : Text) → joins s ≡ true → (w : Text) × (ws : List Text) × (words s ≡ w ∷ ws)
unfolding words
joins-words [] j = absurd (ground arith)
joins-words (c ∷ s) j =
    let b : is_space c ≡ false = ground arith in
    elim (Bool-cases (joins s)) [
      | inr n ↦ (c ∷ [], words s, rw (b, n) refl)
      | inl n ↦ elim (words-cases s) [
        | inl e ↦ (c ∷ [], [], rw (b, n, e) refl)
        | inr (d, w, ws, e) ↦ (c ∷ d ∷ w, ws, rw (b, n, e) refl)
      ]
    ]

-- The text of some words after another text.
abbrev spaced : List Text → Text
spaced [] = []
spaced (w ∷ ws) = 32 ∷ join_spaced (w ∷ ws)

join_spaced-attach : (c : ℕ) (ws : List Text) → join_spaced (attach c ws) ≡ c ∷ join_spaced ws
unfolding join_spaced
join_spaced-attach c [] = refl
join_spaced-attach c (w ∷ []) = refl
join_spaced-attach c (w ∷ v ∷ ws) = refl

join_spaced-cons : (c : ℕ) (ws : List Text) → join_spaced ((c ∷ []) ∷ ws) ≡ c ∷ spaced ws
unfolding join_spaced
join_spaced-cons c [] = refl
join_spaced-cons c (w ∷ ws) = refl

join_spaced-first :
    (c : ℕ) (w : Text) (ws : List Text) → text_beq (join_spaced ((c ∷ w) ∷ ws)) [] ≡ false
unfolding join_spaced text_beq
join_spaced-first c w [] = refl
join_spaced-first c w (v ∷ ws) = refl

trim_end-space :
    (s : Text)
    → trim_end (collapse true s) ≡ join_spaced (words s)
    → trim_end (32 ∷ collapse true s) ≡ spaced (words s)
unfolding trim_end is_space text_beq join_spaced
trim_end-space s h = elim (words-cases s) [
  | inl n ↦ rw (h, n) refl
  | inr (c, w, ws, n) ↦ rw (h, n, join_spaced-first c w ws) refl
]

trim_start-collapse : (s : Text) → trim_start (collapse true s) ≡ collapse true s
unfolding trim_start collapse
trim_start-collapse [] = refl
trim_start-collapse (c ∷ s) = elim (Bool-cases (is_space c)) [
  | inl b ↦ rw b (trim_start-collapse s)
  | inr b ↦ rw (b, b) refl
]

trim_start-collapse_first : (s : Text) → trim_start (collapse false s) ≡ collapse true s
unfolding trim_start collapse is_space
trim_start-collapse_first [] = refl
trim_start-collapse_first (c ∷ s) = elim (Bool-cases (is_space c)) [
  | inl b ↦ rw b (trim_start-collapse s)
  | inr b ↦ rw (b, b) refl
]

-- After a space, and at the start of a text or within a word.
abbrev Trims : Text → Type 0
Trims s =
    (trim_end (collapse true s) ≡ join_spaced (words s))
    × (trim_end (collapse false s) ≡ (if joins s then join_spaced (words s) else spaced (words s)))

trim_end-word :
    (c : ℕ) (s : Text)
    → is_space c ≡ false
    → Trims s
    → trim_end (c ∷ collapse false s) ≡ join_spaced (words (c ∷ s))
unfolding trim_end words
trim_end-word c s b t = elim (Bool-cases (joins s)) [
  | inl j ↦ rw (b, t.1, j) (sym (join_spaced-attach c (words s)))
  | inr j ↦ rw (b, t.1, j) (sym (join_spaced-cons c (words s)))
]

nil-Trims : Trims []
unfolding collapse trim_end words join_spaced
nil-Trims = (refl, refl)

word-Trims : (c : ℕ) (s : Text) → is_space c ≡ false → Trims s → Trims (c ∷ s)
unfolding collapse
word-Trims c s b t = let e = trim_end-word c s b t in rw b (e, e)

text-Trims : (s : Text) → Trims s
unfolding collapse words
text-Trims [] = nil-Trims
text-Trims (c ∷ s) = elim (Bool-cases (is_space c)) [
  | inl b ↦ rw b ((text-Trims s).0, trim_end-space s (text-Trims s).0)
  | inr b ↦ word-Trims c s b (text-Trims s)
]

-- Trimmed and with its spaces collapsed, a text is its words with single spaces between them.
pub tidy-words : (s : Text) → tidy s ≡ join_spaced (words s)
unfolding tidy trim
tidy-words s = ap trim_end (trim_start-collapse_first s) ∙ (text-Trims s).0

attach-append :
    (c : ℕ) (s : Text) (ws : List Text)
    → joins s ≡ true
    → attach c (words s ++ ws) ≡ attach c (words s) ++ ws
attach-append c s ws j = let (v, vs, e) = joins-words s j in rw e refl

joins-append : (s t : Text) → joins (s ++ (32 ∷ t)) ≡ joins s
unfolding is_space
joins-append [] t = refl
joins-append (c ∷ s) t = refl

words-append : (s t : Text) → words (s ++ (32 ∷ t)) ≡ words s ++ words t
unfolding words is_space
words-append [] t = refl
words-append (c ∷ s) t = elim (Bool-cases (is_space c)) [
  | inl b ↦ rw b (words-append s t)
  | inr b ↦ elim (Bool-cases (joins s)) [
    | inl j ↦ rw (b, joins-append s t, j, words-append s t) (attach-append c s (words t) j)
    | inr j ↦ rw (b, joins-append s t, j, words-append s t) refl
  ]
]

pub words-join_spaced : (ss : List Text) → words (join_spaced ss) ≡ all_words ss
unfolding words join_spaced all_words
words-join_spaced [] = refl
words-join_spaced (s ∷ []) = sym (append-nil (words s))
words-join_spaced (s ∷ t ∷ ts) =
    words-append s (join_spaced (t ∷ ts)) ∙ ap (λ ws. words s ++ ws) (words-join_spaced (t ∷ ts))
