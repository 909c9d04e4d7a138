-- ===== src/Editor/Tests.antt =====
-- apps/web/src/notes: an editor and a search.
use opfs_webauthn.Editor.Defs.{
  EditorEvent, calls, clicks_archive, clicks_delete, clicks_save, clicks_save_button,
  confirms_delete, delete, dirty, from_note, opened_editor, react, react_all, renders, run_guarded,
  save, settle, settles, types_title,
}
use opfs_webauthn.Editor.Guard.{deletes, react_all-IsClosed, react_all-single}
use opfs_webauthn.Editor.Shell.{
  ShellEvent, acts, clicks_receive, closes_dialog, drafts, leaves_editor, no_dialog, no_shell,
  opens_note, received_note, settled_well, shares_draft, shell_run, shell_step, shown_dialog,
}
use opfs_webauthn.Prelude.{
  List, [], codes, false, length, ltb, refl, some, text_beq, true, ◌∷◌, ◌≡◌, ◌≤◌,
}
use opfs_webauthn.Repo.Defs.{Note}

abbrev stored_note : Note
stored_note = record {
  id = codes "n1";
  title = codes "Milk";
  body = codes "two";
  updated_day = 20000;
  archived = false;
}

abbrev clicks_twice : List EditorEvent
clicks_twice =
    types_title (codes "Milk!")
    ∷ renders
    ∷ clicks_save
    ∷ clicks_save
    ∷ settles (some (codes "full"))
    ∷ renders
    ∷ clicks_delete
    ∷ renders
    ∷ confirms_delete
    ∷ []

saved_once :
    (react_all clicks_twice (opened_editor (some stored_note))).1
    ≡ calls (save (record { id = some (codes "n1"); title = codes "Milk!"; body = codes "two" }))
      ∷ calls (delete (codes "n1"))
      ∷ []
unfolding react_all react run_guarded clicks_save_button dirty settle from_note text_beq
saved_once = refl

react_all-single_example :
    let s = (react_all clicks_twice (opened_editor (some stored_note))).0 in
    (length s.running ≤ 1) × (s.inflight ≡ ltb 0 (length s.running)) × (s.current.busy ≡ s.inflight)
react_all-single_example = react_all-single (some stored_note) clicks_twice

react_all-IsClosed_example :
    deletes
      (react_all
        (confirms_delete ∷ clicks_archive ∷ confirms_delete ∷ [])
        (opened_editor (some stored_note))).1
    ≡ false
react_all-IsClosed_example =
    react_all-IsClosed (confirms_delete ∷ clicks_archive ∷ confirms_delete ∷ [])
      (opened_editor (some stored_note)) refl (refl, refl)

abbrev shares_then_leaves : List ShellEvent
shares_then_leaves =
    opens_note stored_note
    ∷ shares_draft (record { title = codes "Milk"; body = codes "two" })
    ∷ leaves_editor
    ∷ closes_dialog
    ∷ acts
    ∷ leaves_editor
    ∷ settled_well true
    ∷ clicks_receive
    ∷ received_note stored_note
    ∷ []

back_in_editor : shell_run true shares_then_leaves no_shell ≡ record {
  selection = drafts (some stored_note);
  share = no_dialog;
  query = [];
  acting = false;
}
unfolding shell_run shell_step shown_dialog
back_in_editor = refl
