-- ===== src/Editor/Search.antt =====
-- apps/web/src/notes/notes-shell.tsx, `applySearch`.
-- Lower case, of the language.
use opfs_webauthn.Markdown.Defs.{trim}
use opfs_webauthn.Prelude.{
  ==_iff, Bool, Bool-cases, List, Text, [], ap, arith, if◌then◌else◌, includes, inl, inr, refl,
  starts_with, sym, text_beq, text_beq_iff, true, ◌||◌, ◌∙◌, ◌∷◌, ◌≡◌,
}
use opfs_webauthn.Repo.Defs.{Note}

module _ (to_lower_case : Text → Text) where
  abbrev pub needle : Text → Text
  needle query = to_lower_case (trim query)

  abbrev pub matches : Text → Note → Bool
  matches q n = includes q (to_lower_case n.title) || includes q (to_lower_case n.body)

  unfoldable pub filter_notes : Text → List Note → List Note
  filter_notes q [] = []
  filter_notes q (n ∷ ns) = let rest = filter_notes q ns in if matches q n then n ∷ rest else rest

  unfoldable pub apply_search : List Note → Text → List Note
  unfolding filter_notes
  apply_search ns query = if text_beq (needle query) [] then ns else filter_notes (needle query) ns

starts_with_trans :
    (p q s : Text) → starts_with p q ≡ true → starts_with q s ≡ true → starts_with p s ≡ true
unfolding starts_with
starts_with_trans [] q s a b = refl
starts_with_trans (c ∷ p) [] s a b = absurd (ground arith)
starts_with_trans (c ∷ p) (d ∷ q) [] a b = absurd (ground arith)
starts_with_trans (c ∷ p) (d ∷ q) (x ∷ s) a b =
    ground (arith, starts_with_trans p q s, ==_iff c d, ==_iff d x, ==_iff c x)

includes-nil : (s : Text) → includes [] s ≡ true
unfolding includes starts_with
includes-nil [] = refl
includes-nil (c ∷ s) = refl

starts_with-includes : (p s : Text) → starts_with p s ≡ true → includes p s ≡ true
unfolding includes
starts_with-includes p [] a = a
starts_with-includes p (c ∷ s) a = rw a refl

includes-starts_with :
    (p q s : Text) → includes p q ≡ true → starts_with q s ≡ true → includes p s ≡ true
unfolding includes starts_with
includes-starts_with [] q s a b = includes-nil s
includes-starts_with (c ∷ p) [] s a b = absurd (ground arith)
includes-starts_with (c ∷ p) (d ∷ q) [] a b = absurd (ground arith)
includes-starts_with (c ∷ p) (d ∷ q) (x ∷ s) a b = elim (Bool-cases (starts_with (c ∷ p) (d ∷ q))) [
  | inl h ↦ starts_with-includes (c ∷ p) (x ∷ s) (starts_with_trans (c ∷ p) (d ∷ q) (x ∷ s) h b)
  | inr h ↦ ground (arith, includes-starts_with (c ∷ p) q s)
]

includes_trans : (p q s : Text) → includes p q ≡ true → includes q s ≡ true → includes p s ≡ true
unfolding includes starts_with
includes_trans p [] [] a b = a
includes_trans p (c ∷ q) [] a b = absurd (ground arith)
includes_trans p q (x ∷ s) a b = elim (Bool-cases (starts_with q (x ∷ s))) [
  | inl h ↦ includes-starts_with p q (x ∷ s) a h
  | inr h ↦ ground (arith, includes_trans p q s a)
]

module _ (to_lower_case : Text → Text) where
  matches_trans :
      (p q : Text) (n : Note)
      → includes p q ≡ true
      → matches to_lower_case q n ≡ true
      → matches to_lower_case p n ≡ true
  matches_trans p q n i m = ground (
    arith,
    includes_trans p q (to_lower_case n.title) i,
    includes_trans p q (to_lower_case n.body) i,
  )

  filter_notes_narrows :
      (p q : Text) (ns : List Note)
      → includes p q ≡ true
      → filter_notes to_lower_case p (filter_notes to_lower_case q ns)
        ≡ filter_notes to_lower_case q ns
  unfolding filter_notes
  filter_notes_narrows p q [] i = refl
  filter_notes_narrows p q (n ∷ ns) i = elim (Bool-cases (matches to_lower_case q n)) [
    | inl m ↦ rw (m, matches_trans p q n i m, filter_notes_narrows p q ns i) refl
    | inr m ↦ rw m (filter_notes_narrows p q ns i)
  ]

  includes-empty : (p : Text) → includes p [] ≡ true → p ≡ []
  unfolding includes starts_with
  includes-empty [] i = refl
  includes-empty (c ∷ p) i = absurd (ground arith)

  -- A longer query narrows the search: if it has the shorter one in it, trimmed and in lower case, then every note
  -- that it finds is one that the shorter one finds, in the same order.
  pub apply_search_narrows :
      (query longer : Text) (ns : List Note)
      → includes (needle to_lower_case query) (needle to_lower_case longer) ≡ true
      → apply_search to_lower_case (apply_search to_lower_case ns longer) query
        ≡ apply_search to_lower_case ns longer
  unfolding apply_search
  apply_search_narrows query longer ns i =
      elim (Bool-cases (text_beq (needle to_lower_case query) [])) [
        | inl e ↦ rw e refl
        | inr e ↦ elim (Bool-cases (text_beq (needle to_lower_case longer) [])) [
          | inr f ↦
              rw (e, f)
                (filter_notes_narrows (needle to_lower_case query) (needle to_lower_case longer) ns
                  i)
          | inl f ↦
              let q = needle to_lower_case query in
              let gone = (text_beq_iff (needle to_lower_case longer) []).0 f in
              let none_left = includes-empty q (sym (ap (includes q) gone) ∙ i) in
              absurd (cc (sym e ∙ (text_beq_iff q []).1 none_left))
        ]
      ]
