-- ===== src/Screen/Tests.antt =====
-- apps/web/src/app/auth-screen.tsx: the theorems on a screen whose first enrolment is not stored.
use opfs_webauthn.Prelude.{
  List, [], arith, false, if◌then◌else◌, ltb, none, refl, some, true, ℕ, ◌+◌, ◌∷◌, ◌≡◌,
}
use opfs_webauthn.Screen.Defs.{
  Event, boots, clicks_enroll, clicks_retry, clicks_unlock, enrols, first_screen, locks, mounts,
  react, react_all, store_fails, stored, storing_settles, unlock_ends, unlocked,
}
use opfs_webauthn.Screen.Handles.{count, keeps, react_all-held, shows}
use opfs_webauthn.Screen.Stored.{
  Agrees, Replaced, disk_after_all, react_all-Agrees, react_all-overwrites,
}

-- A first enrolment whose credential is not stored, a second, a lock and an unlocking.
abbrev course : List (Event ℕ)
course =
    mounts true
    ∷ boots (stored none)
    ∷ clicks_enroll
    ∷ enrols 7
    ∷ storing_settles false
    ∷ clicks_retry
    ∷ clicks_enroll
    ∷ enrols 8
    ∷ storing_settles true
    ∷ locks
    ∷ clicks_unlock
    ∷ unlock_ends true
    ∷ []

react_all-held_example :
    let s = react_all course first_screen in
    count 1 s.freed + shows 1 s.state + keeps 1 s.waits ≡ (if ltb 1 s.next then 1 else 0)
react_all-held_example = react_all-held 1 course

react_all-Agrees_example :
    let s = react_all course first_screen in
    Agrees s.state s.waits (disk_after_all course first_screen none)
unfolding react
react_all-Agrees_example =
    react_all-Agrees course none
      (tt, (refl, (tt, (tt, (tt, (tt, (tt, (tt, (tt, (tt, (tt, (tt, tt))))))))))))

-- A retry, an enrolment whose credential is stored, a lock and an unlocking.
abbrev retried : List (Event ℕ)
retried =
    clicks_retry
    ∷ clicks_enroll
    ∷ enrols 8
    ∷ storing_settles true
    ∷ locks
    ∷ clicks_unlock
    ∷ unlock_ends true
    ∷ []

replaces : (react_all (boots store_fails ∷ retried) first_screen).state ≡ unlocked 1 8
unfolding react_all react
replaces = refl

react_all-overwrites_example :
    let s = react_all (boots store_fails ∷ retried) first_screen in
    Replaced 7 s.state s.waits (disk_after_all (boots store_fails ∷ retried) first_screen (some 7))
react_all-overwrites_example =
    react_all-overwrites 7 retried (tt, (tt, ((λ e. omega arith), (tt, (tt, (tt, (tt, tt)))))))
