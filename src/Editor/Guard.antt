-- ===== src/Editor/Guard.antt =====
-- apps/web/src/notes/note-editor.tsx: the guard of the actions, and the confirmation of a deletion.
-- One action at most, and the guard and the buttons know of it.
use opfs_webauthn.Editor.Defs.{
  Action, Editor, EditorEffect, EditorEvent, archive, calls, cancels_delete, clicks_archive,
  clicks_cancel, clicks_delete, clicks_save, clicks_save_button, clicks_share, confirms_delete,
  delete, leaves, opened_editor, react, react_all, renders, run_guarded, save, settle, settles,
  shares, swaps, toggles, types_body, types_title,
}
use opfs_webauthn.Prelude.{
  Bool, List, Option, Option-cases, [], arith, false, if◌then◌else◌, inl, inr, length,
  length-append, ltb, refl, true, ◌++◌, ◌||◌, ◌∙◌, ◌∷◌, ◌≡◌, ◌≤◌,
}
use opfs_webauthn.Repo.Defs.{Note}

abbrev IsGuarded : Editor → Type 0
IsGuarded s = (length s.running ≡ (if s.inflight then 1 else 0)) × (s.current.busy ≡ s.inflight)

run_guarded-IsGuarded : (a : Action) (s : Editor) → IsGuarded s → IsGuarded (run_guarded a s).0
unfolding run_guarded
run_guarded-IsGuarded a s g = ground (arith, length-append s.running (a ∷ []))

react-IsGuarded : (e : EditorEvent) (s : Editor) → IsGuarded s → IsGuarded (react e s).0
unfolding react clicks_save_button settle
react-IsGuarded clicks_save s g = ground (arith, run_guarded-IsGuarded (save s.seen.draft) s g)
react-IsGuarded clicks_archive s g = elim (Option-cases s.seen.note) [
  | inl n ↦ rw n g
  | inr (k, n) ↦ ground (arith, n, run_guarded-IsGuarded (archive k.id) s g)
]
react-IsGuarded confirms_delete s g = elim (Option-cases s.seen.note) [
  | inl n ↦ ground arith
  | inr (k, n) ↦ ground (arith, n, run_guarded-IsGuarded (delete k.id) s g)
]
react-IsGuarded clicks_delete s g = ground arith
react-IsGuarded renders s g = g
react-IsGuarded cancels_delete s g = ground arith
react-IsGuarded toggles s g = ground arith
react-IsGuarded clicks_share s g = ground arith
react-IsGuarded clicks_cancel s g = ground arith
react-IsGuarded (types_title t) s g = ground arith
react-IsGuarded (types_body t) s g = ground arith
react-IsGuarded (swaps subject) s g = g
react-IsGuarded (settles result) s g = ground arith

react_all-IsGuarded :
    (es : List EditorEvent) (s : Editor) → IsGuarded s → IsGuarded (react_all es s).0
unfolding react_all
react_all-IsGuarded [] s g = g
react_all-IsGuarded (e ∷ es) s g = react_all-IsGuarded es (react e s).0 (react-IsGuarded e s g)

-- Whatever is clicked, twice before the page is rendered included, one action of the editor is under way at
-- most. The guard is up exactly while one is, and so is the state that disables the buttons.
pub react_all-single :
    (note : Option Note) (es : List EditorEvent)
    → let s = (react_all es (opened_editor note)).0 in
      (length s.running ≤ 1)
      × (s.inflight ≡ ltb 0 (length s.running))
      × (s.current.busy ≡ s.inflight)
react_all-single note es =
    let (one, busy) = react_all-IsGuarded es (opened_editor note) (refl, refl) in
    (ground arith, ground arith, busy)

abbrev pub asks_deletion : List EditorEvent → Bool
asks_deletion [] = false
asks_deletion (e ∷ es) = asks e || asks_deletion es
  where
    asks : EditorEvent → Bool
    asks clicks_delete = true
    asks renders = false
    asks clicks_save = false
    asks clicks_archive = false
    asks confirms_delete = false
    asks cancels_delete = false
    asks toggles = false
    asks clicks_share = false
    asks clicks_cancel = false
    asks (types_title t) = false
    asks (types_body t) = false
    asks (swaps n) = false
    asks (settles r) = false

abbrev pub deletes : List EditorEffect → Bool
deletes [] = false
deletes (calls (delete id) ∷ out) = true
deletes (calls (save d) ∷ out) = deletes out
deletes (calls (archive id) ∷ out) = deletes out
deletes (shares t b ∷ out) = deletes out
deletes (leaves ∷ out) = deletes out

deletes-append : (xs ys : List EditorEffect) → deletes (xs ++ ys) ≡ deletes xs || deletes ys
deletes-append [] ys = refl
deletes-append (calls (delete id) ∷ xs) ys = refl
deletes-append (calls (save d) ∷ xs) ys = deletes-append xs ys
deletes-append (calls (archive id) ∷ xs) ys = deletes-append xs ys
deletes-append (shares t b ∷ xs) ys = deletes-append xs ys
deletes-append (leaves ∷ xs) ys = deletes-append xs ys

abbrev pub IsClosed : Editor → Type 0
IsClosed s = (s.seen.confirming_delete ≡ false) × (s.current.confirming_delete ≡ false)

react-IsClosed :
    (e : EditorEvent) (s : Editor)
    → asks_deletion (e ∷ []) ≡ false
    → IsClosed s
    → IsClosed (react e s).0 × (deletes (react e s).1 ≡ false)
unfolding react run_guarded clicks_save_button settle
react-IsClosed e s a c = ground arith

-- From an editor whose dialog of confirmation is closed, in its state and on the screen, be it that it was never
-- open or that it was cancelled, nothing is deleted until the button is clicked that opens the dialog, whatever
-- else is clicked, typed, settled or swapped in.
pub react_all-IsClosed :
    (es : List EditorEvent) (s : Editor)
    → asks_deletion es ≡ false
    → IsClosed s
    → deletes (react_all es s).1 ≡ false
unfolding react_all
react_all-IsClosed [] s a c = refl
react_all-IsClosed (e ∷ es) s a c =
    let (s1, out) = react e s in
    let (still, none_now) = react-IsClosed e s (ground arith) c in
    deletes-append out (react_all es s1).1
    ∙ rw none_now (react_all-IsClosed es s1 (ground arith) still)
