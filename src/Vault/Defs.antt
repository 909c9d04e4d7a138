-- ===== src/Vault/Defs.antt =====
-- apps/web/src/app/idle-lock-coordinator.ts, class IdleLockCoordinator. `#now()` is an argument: a clock
-- in milliseconds, which no tab's first activity precedes.
use opfs_webauthn.Prelude.{
  Bool, List, [], false, if◌then◌else◌, leb, ltb, true, ℕ, ◌*◌, ◌++◌, ◌+◌, ◌∷◌,
}

pub data VaultChannelMessage : Type 0 where
  vault_heartbeat vault_locked : VaultChannelMessage

pub data VaultEffect : Type 0 where
  publish : VaultChannelMessage → VaultEffect
  on_lock : VaultEffect

pub record Coordinator : Type 0 where
  pub idle_ms : ℕ
  pub heartbeat_interval_ms : ℕ
  pub last_activity : ℕ
  pub last_heartbeat_sent : ℕ
  pub locked : Bool

abbrev pub heartbeat_interval_ms_default : ℕ
heartbeat_interval_ms_default = 30000

abbrev pub idle_ms_default : ℕ
idle_ms_default = 5 * 60 * 1000

unfoldable pub new_coordinator : (idle_ms heartbeat_interval_ms now : ℕ) → Coordinator
new_coordinator idle_ms heartbeat_interval_ms now = record {
  idle_ms = idle_ms;
  heartbeat_interval_ms = heartbeat_interval_ms;
  last_activity = now;
  last_heartbeat_sent = 0;
  locked = false;
}

-- `now - lastHeartbeatSent >= heartbeatIntervalMs`, on numbers that may be negative.
unfoldable pub note_activity : ℕ → Coordinator → Coordinator × List VaultEffect
note_activity now c =
    if c.locked
    then (c, [])
    else if leb (c.last_heartbeat_sent + c.heartbeat_interval_ms) now
    then (record c { last_activity = now; last_heartbeat_sent = now }, publish vault_heartbeat ∷ [])
    else (record c { last_activity = now }, [])

unfoldable pub hear : VaultChannelMessage → ℕ → Coordinator → Coordinator × List VaultEffect
hear vault_heartbeat now c = if c.locked then (c, []) else (record c { last_activity = now }, [])
hear vault_locked now c = if c.locked then (c, []) else (record c { locked = true }, on_lock ∷ [])

unfoldable pub tick : ℕ → Coordinator → Coordinator × List VaultEffect
tick now c =
    if c.locked
    then (c, [])
    else if ltb now (c.last_activity + c.idle_ms)
    then (c, [])
    else (record c { locked = true }, publish vault_locked ∷ on_lock ∷ [])

pub data VaultEvent : Type 0 where
  acts : VaultEvent
  hears : VaultChannelMessage → VaultEvent
  ticks : VaultEvent

-- An event, and the clock when it happens.
unfoldable pub react : VaultEvent → ℕ → Coordinator → Coordinator × List VaultEffect
unfolding note_activity hear tick
react acts now c = note_activity now c
react (hears m) now c = hear m now c
react ticks now c = tick now c

unfoldable pub run_vault : List (VaultEvent × ℕ) → Coordinator → Coordinator × List VaultEffect
unfolding react
run_vault [] c = (c, [])
run_vault ((e, now) ∷ es) c =
    let (c', out) = react e now c in let (c'', rest) = run_vault es c' in (c'', out ++ rest)
