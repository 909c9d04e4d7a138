-- ===== src/Editor/Shell.antt =====
-- apps/web/src/notes/notes-shell.tsx, `NotesView`: the selection and the dialogs around the editor. A dialog is
-- modal: while one is shown, nothing else is clicked.
use opfs_webauthn.Dialog.Defs.{SharedNote}
use opfs_webauthn.Prelude.{
  Bool, List, Option, Text, [], false, if◌then◌else◌, none, not, some, true, ◌&&◌, ◌||◌, ◌∷◌, ◌≡◌,
}
use opfs_webauthn.Repo.Defs.{Note}

pub data Selection : Type 0 where
  nothing : Selection
  drafts : Option Note → Selection

pub data ShareDialog : Type 0 where
  no_dialog receiving : ShareDialog
  sending_of : SharedNote → ShareDialog

-- `acting` is the editor's `busy`.
pub record Shell : Type 0 where
  pub selection : Selection
  pub share : ShareDialog
  pub query : Text
  pub acting : Bool

pub data ShellEvent : Type 0 where
  clicks_new clicks_receive closes_dialog leaves_editor : ShellEvent
  opens_note received_note : Note → ShellEvent
  searches : Text → ShellEvent
  -- The editor shares its draft, and starts an action, which is settled, well or not.
  shares_draft : SharedNote → ShellEvent
  acts : ShellEvent
  settled_well : Bool → ShellEvent

abbrev pub no_shell : Shell
no_shell = record { selection = nothing; share = no_dialog; query = []; acting = false }

-- The dialog that is rendered: one to send in the editor, one to receive by the list, where sharing is enabled.
unfoldable pub shown_dialog : Bool → Shell → ShareDialog
shown_dialog enabled s = elim s.share [
  | no_dialog ↦ no_dialog
  | receiving ↦ elim s.selection [
    | nothing ↦ if enabled then receiving else no_dialog
    | drafts n ↦ no_dialog
  ]
  | sending_of p ↦ elim s.selection [
    | nothing ↦ no_dialog
    | drafts n ↦ if enabled then sending_of p else no_dialog
  ]
]

abbrev pub is_shut : ShareDialog → Bool
is_shut no_dialog = true
is_shut receiving = false
is_shut (sending_of p) = false

-- A click in the list, and one in the editor, when no dialog is over it.
abbrev pub in_list : Bool → (Shell → Shell) → Shell → Shell
in_list enabled f s = elim s.selection [
  | nothing ↦ if is_shut (shown_dialog enabled s) then f s else s
  | drafts n ↦ s
]

abbrev pub in_editor : Bool → (Option Note → Shell → Shell) → Shell → Shell
in_editor enabled f s = elim s.selection [
  | nothing ↦ s
  | drafts n ↦ if is_shut (shown_dialog enabled s) && not s.acting then f n s else s
]

abbrev pub select : Selection → Shell → Shell
select x s = record s { selection = x }

-- The share button is there for a note that is stored.
abbrev pub share_of : Bool → SharedNote → Option Note → Shell → Shell
share_of enabled p none s = s
share_of enabled p (some n) s = if enabled then record s { share = sending_of p } else s

unfoldable pub shell_step : Bool → ShellEvent → Shell → Shell
unfolding shown_dialog
shell_step enabled clicks_new s = in_list enabled (select (drafts none)) s
shell_step enabled (opens_note n) s = in_list enabled (select (drafts (some n))) s
shell_step enabled clicks_receive s =
    in_list enabled (λ r. if enabled then record r { share = receiving } else r) s
shell_step enabled (searches q) s = in_list enabled (λ r. record r { query = q }) s
shell_step enabled leaves_editor s = in_editor enabled (λ n r. select nothing r) s
shell_step enabled (shares_draft p) s = in_editor enabled (share_of enabled p) s
shell_step enabled acts s = in_editor enabled (λ n r. record r { acting = true }) s
shell_step enabled (settled_well good) s =
    if s.acting
    then (if good
        then record s { selection = nothing; acting = false }
        else record s { acting = false })
    else s
shell_step enabled closes_dialog s =
    if is_shut (shown_dialog enabled s) then s else record s { share = no_dialog }
shell_step enabled (received_note n) s = elim (shown_dialog enabled s) [
  | no_dialog ↦ s
  | receiving ↦ record s { share = no_dialog; selection = drafts (some n) }
  | sending_of p ↦ s
]

unfoldable pub shell_run : Bool → List ShellEvent → Shell → Shell
unfolding shell_step
shell_run enabled [] s = s
shell_run enabled (e ∷ es) s = shell_run enabled es (shell_step enabled e s)

abbrev pub is_list : Selection → Bool
is_list nothing = true
is_list (drafts n) = false

-- No dialog waits behind another view, none is over an editor that is busy, and the list has no busy editor.
abbrev IsTidy : Bool → Shell → Type 0
IsTidy enabled s =
    (shown_dialog enabled s ≡ s.share)
    × ((s.acting && (is_list s.selection || not (is_shut s.share))) ≡ false)
