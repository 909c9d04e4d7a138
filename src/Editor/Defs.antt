-- ===== src/Editor/Defs.antt =====
-- apps/web/src/notes/note-editor.tsx: the draft of a note and what is done with it.
use opfs_webauthn.Prelude.{
  Bool, List, Option, Text, [], false, if◌then◌else◌, length, ltb, none, not, some, text_beq, true,
  ◌++◌, ◌||◌, ◌∷◌,
}
use opfs_webauthn.Repo.Defs.{Note}

pub record Draft : Type 0 where
  pub id : Option Text
  pub title : Text
  pub body : Text

abbrev pub empty_draft : Draft
empty_draft = record { id = none; title = []; body = [] }

unfoldable pub from_note : Option Note → Draft
from_note none = empty_draft
from_note (some n) = record { id = some n.id; title = n.title; body = n.body }

pub data Mode : Type 0 where
  preview edit : Mode

abbrev pub mode_of : Option Note → Mode
mode_of none = edit
mode_of (some n) = preview

abbrev pub toggle : Mode → Mode
toggle preview = edit
toggle edit = preview

-- The state that a rendering shows.
pub record View : Type 0 where
  pub note : Option Note
  pub draft : Draft
  pub busy : Bool
  pub error : Option Text
  pub confirming_delete : Bool
  pub mode : Mode

pub data Action : Type 0 where
  save : Draft → Action
  archive delete : (id : Text) → Action

-- What was rendered last, on which the handlers run, the state that is rendered next, the guard `inflight`, and
-- the actions that are unsettled, the oldest first.
pub record Editor : Type 0 where
  pub seen : View
  pub current : View
  pub inflight : Bool
  pub running : List Action

pub data EditorEvent : Type 0 where
  renders clicks_save clicks_archive clicks_delete confirms_delete cancels_delete : EditorEvent
  toggles clicks_share clicks_cancel : EditorEvent
  types_title types_body : Text → EditorEvent
  -- The parent gives another note.
  swaps : Option Note → EditorEvent
  -- The oldest action is settled, with the message of its error if it failed. The page was rendered before.
  settles : Option Text → EditorEvent

pub data EditorEffect : Type 0 where
  calls : Action → EditorEffect
  shares : (title body : Text) → EditorEffect
  leaves : EditorEffect

unfoldable pub dirty : View → Bool
dirty v = elim v.note [
  | some n ↦ not (text_beq v.draft.title n.title) || not (text_beq v.draft.body n.body)
  | none ↦ ltb 0 (length v.draft.title) || ltb 0 (length v.draft.body)
]

abbrev pub view_of : Option Note → View
view_of note = record {
  note = note;
  draft = from_note note;
  busy = false;
  error = none;
  confirming_delete = false;
  mode = mode_of note;
}

abbrev pub opened_editor : Option Note → Editor
opened_editor note = record {
  seen = view_of note;
  current = view_of note;
  inflight = false;
  running = [];
}

-- A state update.
abbrev pub with_view : View → Editor → Editor × List EditorEffect
with_view v s =
    (record { seen = s.seen; current = v; inflight = s.inflight; running = s.running }, [])

unfoldable pub run_guarded : Action → Editor → Editor × List EditorEffect
run_guarded action s = if s.inflight then (s, []) else (
  record {
    seen = s.seen;
    current = record s.current { busy = true; error = none };
    inflight = true;
    running = s.running ++ (action ∷ []);
  },
  calls action ∷ [],
)

-- `handleArchive`, `handleConfirmDelete` and the buttons of a note that is there.
abbrev pub on_note :
    Option Note → (Note → Editor → Editor × List EditorEffect) → Editor → Editor × List EditorEffect
on_note none f s = (s, [])
on_note (some n) f s = f n s

-- A button or a field that is disabled while an action runs.
abbrev pub unless_busy : (Editor → Editor × List EditorEffect) → Editor → Editor × List EditorEffect
unless_busy f s = if s.seen.busy then (s, []) else f s

abbrev pub shows_body : Mode → Bool
shows_body preview = false
shows_body edit = true

unfoldable pub clicks_save_button : Editor → Editor × List EditorEffect
unfolding dirty run_guarded
clicks_save_button s =
    if s.seen.busy || not (dirty s.seen) then (s, []) else run_guarded (save s.seen.draft) s

unfoldable pub settle : Option Text → Editor → Editor × List EditorEffect
settle result s = elim s.running [
  | [] ↦ (s, [])
  | action ∷ rest ↦ (
    record {
      seen = s.current;
      current = after action result s.current;
      inflight = false;
      running = rest;
    },
    [],
  )
]
  where
    after : Action → Option Text → View → View
    after a (some message) v = record v { busy = false; error = some message }
    after (delete id) none v = record v { busy = false; confirming_delete = false }
    after (save d) none v = record v { busy = false }
    after (archive id) none v = record v { busy = false }

unfoldable pub react : EditorEvent → Editor → Editor × List EditorEffect
unfolding run_guarded clicks_save_button settle from_note
react renders s = (
  record { seen = s.current; current = s.current; inflight = s.inflight; running = s.running },
  [],
)
react clicks_save s = clicks_save_button s
react clicks_archive s = on_note s.seen.note (λ n. unless_busy (run_guarded (archive n.id))) s
react clicks_delete s =
    on_note s.seen.note
      (λ n. unless_busy (with_view (record s.current { error = none; confirming_delete = true }))) s
react confirms_delete s =
    if s.seen.confirming_delete
    then on_note s.seen.note (λ n. unless_busy (run_guarded (delete n.id))) s
    else (s, [])
-- Escape cancels also while an action runs.
react cancels_delete s =
    if s.seen.confirming_delete
    then with_view (record s.current { error = none; confirming_delete = false }) s
    else (s, [])
react toggles s = unless_busy (with_view (record s.current { mode = toggle s.current.mode })) s
react clicks_share s =
    on_note s.seen.note
      (λ n. unless_busy (λ r. (r, shares r.seen.draft.title r.seen.draft.body ∷ []))) s
react clicks_cancel s = unless_busy (λ r. (r, leaves ∷ [])) s
react (types_title t) s =
    unless_busy (with_view (record s.current { draft = record s.current.draft { title = t } })) s
react (types_body t) s =
    if shows_body s.seen.mode
    then unless_busy (with_view (record s.current { draft = record s.current.draft { body = t } }))
        s
    else (s, [])
-- The new note is rendered before the effect resets the draft, the error and the mode.
react (swaps note) s = (
  record {
    seen = record s.current { note = note };
    current = record s.current {
      note = note;
      draft = from_note note;
      error = none;
      mode = mode_of note;
    };
    inflight = s.inflight;
    running = s.running;
  },
  [],
)
react (settles result) s = settle result s

unfoldable pub react_all : List EditorEvent → Editor → Editor × List EditorEffect
unfolding react
react_all [] s = (s, [])
react_all (e ∷ es) s =
    let (s1, out) = react e s in let (s2, more) = react_all es s1 in (s2, out ++ more)
