-- ===== src/Leader/System/Defs.antt =====
-- packages/storage/src/leader.ts: the tabs of one origin and the lock `opfs-db-writer`. What messages
-- arrive, when writers fail and who is granted the lock is open: any event may come next.
use opfs_webauthn.Leader.Tab.{Event, Tab, create, granted, posts, step}
use opfs_webauthn.Leader.Tab.Calls.{LockCall, aborts, asks, lock_calls, releases}
use opfs_webauthn.Leader.Wire.{Effect}
use opfs_webauthn.Prelude.{
  List, Option, Text, [], if◌then◌else◌, none, some, ℕ, ◌+◌, ◌==◌, ◌∷◌, ◌≡◌, ◌≢◌, ◌≤◌,
}

-- What the transport relies on of `navigator.locks` in exclusive mode.
pub record LockManager : Type 1 where
  pub State : Type 0
  pub Holds : State → ℕ → Type 0
  pub queued : State → ℕ → ℕ
  pub call : LockCall → ℕ → State → State
  pub Grants : State → ℕ → State → Type 0
  pub exclusive : (s : State) (i j : ℕ) → Holds s i → Holds s j → i ≡ j
  pub asks_holds : (s : State) (i j : ℕ) → Holds s j → Holds (call asks i s) j
  pub aborts_holds : (s : State) (i j : ℕ) → Holds s j → Holds (call aborts i s) j
  pub releases_holds : (s : State) (i j : ℕ) → i ≢ j → Holds s j → Holds (call releases i s) j
  pub asks_queued :
      (s : State) (i j : ℕ) → queued (call asks i s) j ≡ queued s j + (if i == j then 1 else 0)
  pub aborts_queued : (s : State) (i j : ℕ) → queued (call aborts i s) j ≤ queued s j
  pub releases_queued : (s : State) (i j : ℕ) → queued (call releases i s) j ≡ queued s j
  -- A free lock goes to a request that is queued, and takes it off the queue.
  pub grant_free : (s : State) (i : ℕ) (s' : State) (j : ℕ) → Grants s i s' → ¬ Holds s j
  pub grant_holds : (s : State) (i : ℕ) (s' : State) → Grants s i s' → Holds s' i
  pub grant_queued :
      (s : State) (i : ℕ) (s' : State) (j : ℕ)
      → Grants s i s'
      → queued s j ≡ queued s' j + (if i == j then 1 else 0)

-- An event of the tab's surroundings other than a grant of the lock.
abbrev pub IsLocal : Event → Type 0
IsLocal (granted id) = ⊥
IsLocal (posts m) = Unit {0}
IsLocal _ = Unit

abbrev pub update {ℓ} : {A : Type ℓ} → (ℕ → A) → ℕ → A → ℕ → A
update f i x j = if i == j then x else f j

module _ (L : LockManager) where
  open L use {State, queued, call, Grants}

  pub record System : Type 0 where
    pub tabs : ℕ → Option Tab
    pub lock : State

  unfoldable pub make_calls : List LockCall → ℕ → State → State
  make_calls [] i l = l
  make_calls (c ∷ cs) i l = make_calls cs i (call c i l)

  -- A tab's new state, and its calls to the lock manager.
  abbrev pub apply : ℕ → Tab × List Effect → State → (ℕ → Option Tab) → System
  apply i r l tabs = record {
    tabs = update tabs i (some r.0);
    lock = make_calls (lock_calls r.1) i l;
  }

  pub data SystemStep (s : System) : System → Type 0 where
    opens :
        (i : ℕ) (client_id : Text)
        → s.tabs i ≡ none
        → SystemStep s (apply i (create client_id) s.lock s.tabs)
    acts :
        (i : ℕ) (t : Tab) (e : Event)
        → s.tabs i ≡ some t
        → IsLocal e
        → SystemStep s (apply i (step e t) s.lock s.tabs)
    grants :
        (i : ℕ) (t : Tab) (id : Text) (l : State)
        → s.tabs i ≡ some t
        → Grants s.lock i l
        → SystemStep s (apply i (step (granted id) t) l s.tabs)

  pub data Reach (s : System) : System → Type 0 where
    start : Reach s s
    then_step : {t u : System} → Reach s t → SystemStep t u → Reach s u
