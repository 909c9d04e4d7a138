-- ===== src/Screen/Defs.antt =====
-- apps/web/src/app/auth-screen.tsx, `AuthScreen`. React runs a handler on the state that is shown; texts are left
-- out, and a vault is the number of its handle in the memory of the wasm core.
use opfs_webauthn.Prelude.{
  Bool, List, Option, [], false, if◌then◌else◌, none, some, suc, true, ℕ, ◌∷◌,
}

pub data Retry (C : Type 0) : Type 0 where
  to_fresh : Retry C
  to_locked : C → Retry C

pub data State (C : Type 0) : Type 0 where
  loading unsupported fresh enrolling unlocking : State C
  locked : C → State C
  unlocked : (vault : ℕ) → C → State C
  error : Retry C → State C

-- What a handler waits for. The credential is the one in its closure.
pub data Wait (C : Type 0) : Type 0 where
  for_enrolment : Wait C
  -- The storing of the credential of the vault that was made.
  for_storing : (vault : ℕ) → C → Wait C
  for_vault : C → Wait C
  for_clearing : Option C → Wait C

-- How the read of the stored credential ends.
pub data Stored (C : Type 0) : Type 0 where
  stored : Option C → Stored C
  store_unavailable store_fails : Stored C

-- `freed` are the handles that were freed, the last one first, and `next` is the handle that the core
-- gives next.
pub record Screen (C : Type 0) : Type 0 where
  pub state : State C
  pub waits : Option (Wait C)
  pub next : ℕ
  pub freed : List ℕ

pub data Event (C : Type 0) : Type 0 where
  -- The effect of the first render, and the end of the read that it starts.
  mounts : (webauthn : Bool) → Event C
  boots : Stored C → Event C
  -- The buttons, and the lock of the vault by the user or by the idle timer.
  clicks_enroll clicks_unlock clicks_forget clicks_retry locks : Event C
  -- `enroll` throws, or gives a credential and a vault; then `set` goes through or throws.
  enrol_fails : Event C
  enrols : C → Event C
  storing_settles : (went : Bool) → Event C
  -- `unlock` throws or gives a vault, and `clear` goes through or throws.
  unlock_ends cleared : Bool → Event C

module _ {C : Type 0} where
  unfoldable pub after_boot : Stored C → State C
  after_boot (stored none) = fresh
  after_boot (stored (some c)) = locked c
  after_boot store_unavailable = unsupported
  after_boot store_fails = error to_fresh

  unfoldable pub after_retry : Retry C → State C
  after_retry to_fresh = fresh
  after_retry (to_locked c) = locked c

  -- `doLock`.
  unfoldable pub do_lock : State C → Screen C → Screen C
  do_lock (unlocked v c) s = record s { state = locked c; freed = v ∷ s.freed }
  do_lock _ s = s

  -- `doForget`. Only the locked screen offers it: while the vault is open the notes are shown.
  unfoldable pub do_forget : State C → Screen C → Screen C
  do_forget (locked c) s = record s { state = enrolling; waits = some (for_clearing (some c)) }
  do_forget (unlocked v c) s = record s {
    state = enrolling;
    waits = some (for_clearing (some c));
    freed = v ∷ s.freed;
  }
  do_forget _ s = s

  unfoldable pub do_unlock : State C → Screen C → Screen C
  do_unlock (locked c) s = record s { state = unlocking; waits = some (for_vault c) }
  do_unlock _ s = s

  unfoldable pub do_enroll : State C → Screen C → Screen C
  do_enroll fresh s = record s { state = enrolling; waits = some for_enrolment }
  do_enroll _ s = s

  unfoldable pub do_retry : State C → Screen C → Screen C
  unfolding after_retry
  do_retry (error r) s = record s { state = after_retry r }
  do_retry _ s = s

  -- `doEnroll` once `enroll` has thrown or has given a vault.
  unfoldable pub enrol_ends : Option C → Option (Wait C) → Screen C → Screen C
  enrol_ends none (some for_enrolment) s = record s { state = error to_fresh; waits = none }
  enrol_ends (some c) (some for_enrolment) s = record s {
    waits = some (for_storing s.next c);
    next = suc s.next;
  }
  enrol_ends _ _ s = s

  -- The rest of `doEnroll` once `set` has ended.
  unfoldable pub storing_ends : Bool → Option (Wait C) → Screen C → Screen C
  storing_ends true (some (for_storing v c)) s = record s { state = unlocked v c; waits = none }
  storing_ends false (some (for_storing v c)) s = record s {
    state = error to_fresh;
    waits = none;
    freed = v ∷ s.freed;
  }
  storing_ends _ _ s = s

  unfoldable pub vault_ends : Bool → Option (Wait C) → Screen C → Screen C
  vault_ends true (some (for_vault c)) s = record s {
    state = unlocked s.next c;
    waits = none;
    next = suc s.next;
  }
  vault_ends false (some (for_vault c)) s = record s { state = error (to_locked c); waits = none }
  vault_ends _ _ s = s

  unfoldable pub clearing_ends : Bool → Option (Wait C) → Screen C → Screen C
  clearing_ends true (some (for_clearing c)) s = record s { state = fresh; waits = none }
  clearing_ends false (some (for_clearing none)) s = record s {
    state = error to_fresh;
    waits = none;
  }
  clearing_ends false (some (for_clearing (some c))) s = record s {
    state = error (to_locked c);
    waits = none;
  }
  clearing_ends _ _ s = s

  -- The read ends once, while the screen loads.
  unfoldable pub boot : State C → Stored C → Screen C → Screen C
  unfolding after_boot
  boot loading r s = record s { state = after_boot r }
  boot _ r s = s

  unfoldable pub mount : State C → Bool → Screen C → Screen C
  mount loading webauthn s = if webauthn then s else record s { state = unsupported }
  mount _ webauthn s = s

  unfoldable pub react : Event C → Screen C → Screen C
  unfolding mount boot do_enroll do_unlock do_forget do_retry do_lock enrol_ends storing_ends
      vault_ends clearing_ends
  react (mounts webauthn) s = mount s.state webauthn s
  react (boots r) s = boot s.state r s
  react clicks_enroll s = do_enroll s.state s
  react clicks_unlock s = do_unlock s.state s
  react clicks_forget s = do_forget s.state s
  react clicks_retry s = do_retry s.state s
  react locks s = do_lock s.state s
  react enrol_fails s = enrol_ends none s.waits s
  react (enrols c) s = enrol_ends (some c) s.waits s
  react (storing_settles went) s = storing_ends went s.waits s
  react (unlock_ends given) s = vault_ends given s.waits s
  react (cleared went) s = clearing_ends went s.waits s

  unfoldable pub react_all : List (Event C) → Screen C → Screen C
  unfolding react
  react_all [] s = s
  react_all (e ∷ es) s = react_all es (react e s)

abbrev pub first_screen : {C : Type 0} → Screen C
first_screen = record { state = loading; waits = none; next = 0; freed = [] }
