-- ===== src/Screen/Stored.antt =====
-- apps/web/src/app/auth-screen.tsx with the credential store: the screen and the credential that is stored.
use opfs_webauthn.Prelude.{
  All, List, Option, [], arith, is_some, none, refl, some, true, ◌∷◌, ◌≡◌, ◌≢◌,
}
use opfs_webauthn.Screen.Defs.{
  Event, Screen, State, Wait, boots, cleared, clicks_enroll, clicks_forget, clicks_retry,
  clicks_unlock, enrol_fails, enrolling, enrols, error, first_screen, for_clearing, for_enrolment,
  for_storing, for_vault, fresh, loading, locked, locks, mounts, react, react_all, store_fails,
  store_unavailable, stored, storing_settles, to_fresh, to_locked, unlock_ends, unlocked, unlocking,
  unsupported,
}
use opfs_webauthn.Screen.Handles.{is_busy}

module _ {C : Type 0} where
  -- The credential that is stored after an event, `set` and `clear` being as the event says.
  abbrev pub disk_after : Event C → Option (Wait C) → Option C → Option C
  disk_after (storing_settles true) (some (for_storing v c)) d = some c
  disk_after (cleared true) (some (for_clearing c)) d = none
  disk_after _ _ d = d

  abbrev pub disk_after_all : List (Event C) → Screen C → Option C → Option C
  disk_after_all [] s d = d
  disk_after_all (e ∷ es) s d = disk_after_all es (react e s) (disk_after e s.waits d)

  -- The screen says what is stored: nothing on the first screen, the credential on a locked one.
  abbrev pub Agrees : State C → Option (Wait C) → Option C → Type 0
  Agrees fresh w d = d ≡ none
  Agrees (locked c) w d = d ≡ some c
  Agrees (unlocked v c) w d = d ≡ some c
  Agrees (error to_fresh) w d = d ≡ none
  Agrees (error (to_locked c)) w d = d ≡ some c
  Agrees enrolling none d = ⊥
  Agrees enrolling (some for_enrolment) d = d ≡ none
  Agrees enrolling (some (for_storing v c)) d = d ≡ none
  Agrees enrolling (some (for_vault c)) d = ⊥
  Agrees enrolling (some (for_clearing none)) d = ⊥
  Agrees enrolling (some (for_clearing (some c))) d = d ≡ some c
  Agrees unlocking none d = ⊥
  Agrees unlocking (some for_enrolment) d = ⊥
  Agrees unlocking (some (for_storing v c)) d = ⊥
  Agrees unlocking (some (for_vault c)) d = d ≡ some c
  Agrees unlocking (some (for_clearing c)) d = ⊥
  Agrees loading w d = Unit
  Agrees unsupported w d = Unit

  -- The first read gives what is stored, and does not fail.
  abbrev pub IsTrue : Event C → Option C → Type 0
  IsTrue (boots (stored o)) d = o ≡ d
  IsTrue (boots store_fails) d = ⊥
  IsTrue (boots store_unavailable) d = Unit
  IsTrue (mounts w) d = Unit
  IsTrue _ d = Unit

  abbrev pub AreTrue : List (Event C) → Screen C → Option C → Type 0
  AreTrue [] s d = Unit
  AreTrue (e ∷ es) s d = IsTrue e d × AreTrue es (react e s) (disk_after e s.waits d)

  pub record StoredInv (s : Screen C) (d : Option C) : Type 0 where
    pub waiting : is_some s.waits ≡ is_busy s.state
    pub agrees : Agrees s.state s.waits d

  react-StoredInv :
      (e : Event C) (s : Screen C) (d : Option C)
      → IsTrue e d
      → StoredInv s d
      → StoredInv (react e s) (disk_after e s.waits d)
  unfolding react
  react-StoredInv locks s d t i = ground arith
  react-StoredInv clicks_forget s d t i = ground arith
  react-StoredInv (mounts webauthn) s d t i = ground arith
  react-StoredInv (boots (stored o)) s d t i = ground arith
  react-StoredInv (boots store_fails) s d t i = absurd t
  react-StoredInv (boots store_unavailable) s d t i = ground arith
  react-StoredInv clicks_enroll s d t i = ground arith
  react-StoredInv clicks_unlock s d t i = ground arith
  react-StoredInv clicks_retry s d t i = ground arith
  react-StoredInv enrol_fails s d t i = ground arith
  react-StoredInv (enrols c) s d t i = ground arith
  react-StoredInv (storing_settles went) s d t i = ground arith
  react-StoredInv (unlock_ends given) s d t i = ground arith
  react-StoredInv (cleared went) s d t i = ground arith

  react_all-StoredInv :
      (es : List (Event C)) (s : Screen C) (d : Option C)
      → AreTrue es s d
      → StoredInv s d
      → StoredInv (react_all es s) (disk_after_all es s d)
  unfolding react_all
  react_all-StoredInv [] s d t i = i
  react_all-StoredInv (e ∷ es) s d t i =
      react_all-StoredInv es (react e s) (disk_after e s.waits d) t.1 (react-StoredInv e s d t.0 i)

  -- The screen agrees with the store. Whatever happens after a start, unless the first read of the store
  -- fails: a screen that offers to create a vault, a retry that leads there, and an enrolment under way
  -- all mean that no credential is stored; a locked screen and an open vault have the credential that is
  -- stored.
  pub react_all-Agrees :
      (es : List (Event C)) (d : Option C)
      → AreTrue es first_screen d
      → let s = react_all es first_screen in
        Agrees s.state s.waits (disk_after_all es first_screen d)
  react_all-Agrees es d t =
      let start : StoredInv first_screen d = record { waiting = refl; agrees = tt } in
      (react_all-StoredInv es first_screen d t start).agrees

  -- No credential but `old` is known to the screen, and what it shows is stored.
  abbrev pub Replaced : C → State C → Option (Wait C) → Option C → Type 0
  Replaced old loading w d = ⊥
  Replaced old unsupported w d = Unit
  Replaced old fresh w d = Unit
  Replaced old (locked c) w d = (c ≢ old) × (d ≡ some c)
  Replaced old (unlocked v c) w d = (c ≢ old) × (d ≡ some c)
  Replaced old (error to_fresh) w d = Unit
  Replaced old (error (to_locked c)) w d = (c ≢ old) × (d ≡ some c)
  Replaced old enrolling none d = ⊥
  Replaced old enrolling (some for_enrolment) d = Unit
  Replaced old enrolling (some (for_storing v c)) d = c ≢ old
  Replaced old enrolling (some (for_vault c)) d = ⊥
  Replaced old enrolling (some (for_clearing none)) d = ⊥
  Replaced old enrolling (some (for_clearing (some c))) d = (c ≢ old) × (d ≡ some c)
  Replaced old unlocking none d = ⊥
  Replaced old unlocking (some for_enrolment) d = ⊥
  Replaced old unlocking (some (for_storing v c)) d = ⊥
  Replaced old unlocking (some (for_vault c)) d = (c ≢ old) × (d ≡ some c)
  Replaced old unlocking (some (for_clearing c)) d = ⊥

  -- An enrolment makes another credential than `old`.
  abbrev pub IsOther : C → Event C → Type 0
  IsOther old (enrols c) = c ≢ old
  IsOther old _ = Unit

  pub record ReplacedInv (old : C) (s : Screen C) (d : Option C) : Type 0 where
    pub waiting : is_some s.waits ≡ is_busy s.state
    pub replaced : Replaced old s.state s.waits d

  react-ReplacedInv :
      (old : C) (e : Event C) (s : Screen C) (d : Option C)
      → IsOther old e
      → ReplacedInv old s d
      → ReplacedInv old (react e s) (disk_after e s.waits d)
  unfolding react
  react-ReplacedInv old locks s d t i = ground arith
  react-ReplacedInv old clicks_forget s d t i = ground arith
  react-ReplacedInv old (mounts webauthn) s d t i = ground arith
  react-ReplacedInv old (boots r) s d t i = ground arith
  react-ReplacedInv old clicks_enroll s d t i = ground arith
  react-ReplacedInv old clicks_unlock s d t i = ground arith
  react-ReplacedInv old clicks_retry s d t i = ground arith
  react-ReplacedInv old enrol_fails s d t i = ground arith
  react-ReplacedInv old (enrols c) s d t i = ground arith
  react-ReplacedInv old (storing_settles went) s d t i = ground arith
  react-ReplacedInv old (unlock_ends given) s d t i = ground arith
  react-ReplacedInv old (cleared went) s d t i = ground arith

  react_all-ReplacedInv :
      (old : C) (es : List (Event C)) (s : Screen C) (d : Option C)
      → All (IsOther old) es
      → ReplacedInv old s d
      → ReplacedInv old (react_all es s) (disk_after_all es s d)
  unfolding react_all
  react_all-ReplacedInv old [] s d t i = i
  react_all-ReplacedInv old (e ∷ es) s d t i =
      react_all-ReplacedInv old es (react e s) (disk_after e s.waits d) t.1
        (react-ReplacedInv old e s d t.0 i)

  -- A vault that is locked or open after a start whose first read failed is a new one, and the stored credential
  -- has been overwritten by its: whatever happens after that read, however often the user retries, no
  -- screen comes back to the credential that was stored. An enrolment never makes that credential again.
  pub react_all-overwrites :
      (old : C) (es : List (Event C))
      → All (IsOther old) es
      → let s = react_all (boots store_fails ∷ es) first_screen in
        Replaced old s.state s.waits
          (disk_after_all (boots store_fails ∷ es) first_screen (some old))
  unfolding react_all react
  react_all-overwrites old es t =
      let start : ReplacedInv old (react (boots store_fails) first_screen) (some old) = record {
        waiting = refl;
        replaced = tt;
      } in
      (react_all-ReplacedInv old es _ (some old) t start).replaced
