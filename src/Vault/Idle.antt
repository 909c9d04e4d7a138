-- ===== src/Vault/Idle.antt =====
-- apps/web/src/app/idle-lock-coordinator.ts: the tabs of one origin over the channel `opfs-vault`, which
-- delivers at once and to every other tab.
use opfs_webauthn.Prelude.{
  List, Option, [], false, if◌then◌else◌, none, some, ℕ, ◌+◌, ◌<◌, ◌==◌, ◌∷◌, ◌≡◌, ◌≤◌,
}
use opfs_webauthn.Vault.Defs.{
  Coordinator, VaultEffect, hear, new_coordinator, note_activity, on_lock, publish, tick,
}

pub record VaultSystem : Type 0 where
  pub tabs : ℕ → Option Coordinator
  pub clock : ℕ
  -- When the user was last active in an open tab whose vault was unlocked.
  pub touched : ℕ

-- What a tab hears when another tab has these effects.
unfoldable pub hear_all : List VaultEffect → ℕ → Coordinator → Coordinator
hear_all [] now c = c
hear_all (publish m ∷ out) now c = hear_all out now (hear m now c).0
hear_all (on_lock ∷ out) now c = hear_all out now c

-- Tab `i` has moved to the first part of `r` at `now`, and the others hear what it published.
unfoldable pub moved :
    ℕ → ℕ → Coordinator × List VaultEffect → (ℕ → Option Coordinator) → ℕ → Option Coordinator
unfolding hear_all
moved i now r tabs j =
    if i == j then some r.0 else elim (tabs j) [ none ↦ none | some c ↦ some (hear_all r.1 now c) ]

module _ (idle_ms interval : ℕ) where
  pub data VaultStep (s : VaultSystem) : VaultSystem → Type 0 where
    tab_opens :
        (i now : ℕ)
        → s.tabs i ≡ none
        → s.clock ≤ now
        → VaultStep s (record s {
          tabs = moved i now (new_coordinator idle_ms interval now, []) s.tabs;
          clock = now;
        })
    user_acts :
        (i now : ℕ) (c : Coordinator)
        → s.tabs i ≡ some c
        → s.clock ≤ now
        → VaultStep s (record {
          tabs = moved i now (note_activity now c) s.tabs;
          clock = now;
          touched = if c.locked then s.touched else now;
        })
    timer_ticks :
        (i now : ℕ) (c : Coordinator)
        → s.tabs i ≡ some c
        → s.clock ≤ now
        → VaultStep s (record s { tabs = moved i now (tick now c) s.tabs; clock = now })

  pub data VaultReach (s : VaultSystem) : VaultSystem → Type 0 where
    here : VaultReach s s
    further : {t u : VaultSystem} → VaultReach s t → VaultStep t u → VaultReach s u

  -- What holds of an unlocked tab: it has heard of the user within one heartbeat interval, and of
  -- every heartbeat.
  record Awake (s : VaultSystem) (c : Coordinator) : Type 0 where
    same_idle : c.idle_ms ≡ idle_ms
    same_interval : c.heartbeat_interval_ms ≡ interval
    recent_activity : c.locked ≡ false → s.touched < c.last_activity + interval
    sent : c.last_heartbeat_sent ≤ s.clock

  record VaultInv (s : VaultSystem) : Type 0 where
    past : s.touched ≤ s.clock
    tab : (j : ℕ) (c : Coordinator) → s.tabs j ≡ some c → Awake s c
    heard :
        (i j : ℕ) (b c : Coordinator)
        → s.tabs i ≡ some b
        → s.tabs j ≡ some c
        → c.locked ≡ false
        → b.locked ≡ false
        → b.last_heartbeat_sent ≤ c.last_activity
