-- ===== src/Editor/Drafts.antt =====
-- apps/web/src/notes/note-editor.tsx: what becomes of the draft.
use opfs_webauthn.Editor.Defs.{
  Editor, EditorEffect, EditorEvent, View, archive, calls, cancels_delete, clicks_archive,
  clicks_cancel, clicks_delete, clicks_save, clicks_save_button, clicks_share, confirms_delete,
  delete, dirty, from_note, leaves, opened_editor, react, react_all, renders, run_guarded, save,
  settle, settles, shares, swaps, toggles, types_body, types_title,
}
use opfs_webauthn.Prelude.{
  Bool, List, Option, [], arith, false, none, refl, some, text_beq_iff, true, ◌++◌, ◌||◌, ◌∙◌, ◌∷◌,
  ◌≡◌,
}
use opfs_webauthn.Repo.Defs.{Note}

abbrev pub types_or_swaps : List EditorEvent → Bool
types_or_swaps [] = false
types_or_swaps (e ∷ es) = changes e || types_or_swaps es
  where
    changes : EditorEvent → Bool
    changes clicks_delete = false
    changes renders = false
    changes clicks_save = false
    changes clicks_archive = false
    changes confirms_delete = false
    changes cancels_delete = false
    changes toggles = false
    changes clicks_share = false
    changes clicks_cancel = false
    changes (types_title t) = true
    changes (types_body t) = true
    changes (swaps n) = true
    changes (settles r) = false

abbrev pub saves_any : List EditorEffect → Bool
saves_any [] = false
saves_any (calls (save d) ∷ out) = true
saves_any (calls (delete id) ∷ out) = saves_any out
saves_any (calls (archive id) ∷ out) = saves_any out
saves_any (shares t b ∷ out) = saves_any out
saves_any (leaves ∷ out) = saves_any out

saves_any-append : (xs ys : List EditorEffect) → saves_any (xs ++ ys) ≡ saves_any xs || saves_any ys
saves_any-append [] ys = refl
saves_any-append (calls (save d) ∷ xs) ys = refl
saves_any-append (calls (delete id) ∷ xs) ys = saves_any-append xs ys
saves_any-append (calls (archive id) ∷ xs) ys = saves_any-append xs ys
saves_any-append (shares t b ∷ xs) ys = saves_any-append xs ys
saves_any-append (leaves ∷ xs) ys = saves_any-append xs ys

abbrev IsFresh : Option Note → View → Type 0
IsFresh subject v = (v.note ≡ subject) × (v.draft ≡ from_note subject)

dirty-IsFresh : (subject : Option Note) (v : View) → IsFresh subject v → dirty v ≡ false
unfolding dirty from_note
dirty-IsFresh none v f = ground (arith, f.0, f.1)
dirty-IsFresh (some n) v f =
    ground (arith, f.0, f.1, text_beq_iff n.title n.title, text_beq_iff n.body n.body)

react-IsFresh :
    (subject : Option Note) (e : EditorEvent) (s : Editor)
    → types_or_swaps (e ∷ []) ≡ false
    → IsFresh subject s.seen
    → IsFresh subject s.current
    → IsFresh subject (react e s).0.seen
      × IsFresh subject (react e s).0.current
      × (saves_any (react e s).1 ≡ false)
unfolding react run_guarded clicks_save_button settle
react-IsFresh subject e s c f g = ground (arith, dirty-IsFresh subject s.seen f)

react_all-IsFresh :
    (subject : Option Note) (es : List EditorEvent) (s : Editor)
    → types_or_swaps es ≡ false
    → IsFresh subject s.seen
    → IsFresh subject s.current
    → ((react_all es s).0.current.draft ≡ from_note subject)
      × (saves_any (react_all es s).1 ≡ false)
unfolding react_all
react_all-IsFresh subject [] s c f g = (g.1, refl)
react_all-IsFresh subject (e ∷ es) s c f g =
    let (s1, out) = react e s in
    let (f1, g1, quiet) = react-IsFresh subject e s (ground arith) f g in
    let (same, rest) = react_all-IsFresh subject es s1 (ground arith) f1 g1 in
    (same, saves_any-append out (react_all es s1).1 ∙ rw quiet rest)

-- A note that nobody changes is not saved: without typing, and while the parent gives no other note, the draft is
-- the note's text after any clicks and any failures, and nothing is saved.
pub react_all-untyped :
    (subject : Option Note) (es : List EditorEvent)
    → types_or_swaps es ≡ false
    → let (s, out) = react_all es (opened_editor subject) in
      (s.current.draft ≡ from_note subject) × (saves_any out ≡ false)
react_all-untyped subject es c =
    react_all-IsFresh subject es (opened_editor subject) c (refl, refl) (refl, refl)
