-- ===== src/Screen/Handles.antt =====
-- apps/web/src/app/auth-screen.tsx: the handle of a vault is freed once, and the screen agrees with the store.
use opfs_webauthn.Prelude.{
  Bool, List, Option, [], arith, false, if◌then◌else◌, is_some, ltb, some, true, ℕ, ◌+◌, ◌==◌, ◌∷◌,
  ◌≡◌,
}
use opfs_webauthn.Screen.Defs.{
  Event, Screen, State, Wait, boots, cleared, clicks_enroll, clicks_forget, clicks_retry,
  clicks_unlock, enrol_fails, enrolling, enrols, first_screen, for_storing, locks, mounts, react,
  react_all, storing_settles, unlock_ends, unlocked, unlocking,
}

abbrev pub count : ℕ → List ℕ → ℕ
count h [] = 0
count h (v ∷ vs) = (if h == v then 1 else 0) + count h vs

module _ {C : Type 0} where
  -- How often a handle is shown: the notes have the handle of an open vault.
  abbrev pub shows : ℕ → State C → ℕ
  shows h (unlocked v c) = if h == v then 1 else 0
  shows h _ = 0

  -- How often it is kept by an enrolment whose credential is being stored.
  abbrev pub keeps : ℕ → Option (Wait C) → ℕ
  keeps h (some (for_storing v c)) = if h == v then 1 else 0
  keeps h _ = 0

  abbrev pub is_busy : State C → Bool
  is_busy enrolling = true
  is_busy unlocking = true
  is_busy _ = false

  pub record ScreenInv (h : ℕ) (s : Screen C) : Type 0 where
    pub waiting : is_some s.waits ≡ is_busy s.state
    pub held : count h s.freed + shows h s.state + keeps h s.waits ≡ (if ltb h s.next then 1 else 0)

  react-ScreenInv : (h : ℕ) (e : Event C) (s : Screen C) → ScreenInv h s → ScreenInv h (react e s)
  unfolding react
  react-ScreenInv h locks s i = ground arith
  react-ScreenInv h clicks_forget s i = ground arith
  react-ScreenInv h (mounts webauthn) s i = ground arith
  react-ScreenInv h (boots r) s i = ground arith
  react-ScreenInv h clicks_enroll s i = ground arith
  react-ScreenInv h clicks_unlock s i = ground arith
  react-ScreenInv h clicks_retry s i = ground arith
  react-ScreenInv h enrol_fails s i = ground arith
  react-ScreenInv h (enrols c) s i = ground arith
  react-ScreenInv h (storing_settles went) s i = ground arith
  react-ScreenInv h (unlock_ends given) s i = ground arith
  react-ScreenInv h (cleared went) s i = ground arith

  react_all-ScreenInv :
      (h : ℕ) (es : List (Event C)) (s : Screen C) → ScreenInv h s → ScreenInv h (react_all es s)
  unfolding react_all
  react_all-ScreenInv h [] s i = i
  react_all-ScreenInv h (e ∷ es) s i =
      react_all-ScreenInv h es (react e s) (react-ScreenInv h e s i)

  -- No vault is leaked and none is freed twice. Whatever happens to a new screen, each handle that the core
  -- has given is either the one of the vault that is open, or of the one whose credential is being stored, or
  -- has been freed exactly once; no other has been freed. React shows a state before a handler of it runs.
  pub react_all-held :
      (h : ℕ) (es : List (Event C))
      → let s = react_all es first_screen in
        count h s.freed + shows h s.state + keeps h s.waits ≡ (if ltb h s.next then 1 else 0)
  react_all-held h es =
      let start : ScreenInv h first_screen = ground arith in
      (react_all-ScreenInv h es first_screen start).held
