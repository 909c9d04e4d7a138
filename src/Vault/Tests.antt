-- ===== src/Vault/Tests.antt =====
-- apps/web/src/app/idle-lock-coordinator.ts: the theorems at two tabs, one of which the user is active in.
use opfs_webauthn.Prelude.{[], none, ℕ}
use opfs_webauthn.Vault.Defs.{
  Coordinator, heartbeat_interval_ms_default, idle_ms_default, new_coordinator, note_activity,
}
use opfs_webauthn.Vault.Idle.{VaultSystem, moved}

abbrev no_tabs : VaultSystem
no_tabs = record { tabs = λ i. none; clock = 1000000; touched = 0 }

abbrev fresh_at : ℕ → Coordinator
fresh_at now = new_coordinator idle_ms_default heartbeat_interval_ms_default now

abbrev one_tab : VaultSystem
one_tab = record {
  tabs = moved 0 1000000 (fresh_at 1000000, []) no_tabs.tabs;
  clock = 1000000;
  touched = 0;
}

abbrev two_tabs : VaultSystem
two_tabs = record {
  tabs = moved 1 1005000 (fresh_at 1005000, []) one_tab.tabs;
  clock = 1005000;
  touched = 0;
}

-- The user is active in the first tab, which sends a heartbeat.
abbrev touched_tabs : VaultSystem
touched_tabs = record {
  tabs = moved 0 1010000 (note_activity 1010000 (fresh_at 1000000)) two_tabs.tabs;
  clock = 1010000;
  touched = 1010000;
}

abbrev second_tab : Coordinator
second_tab = record (fresh_at 1005000) { last_activity = 1010000 }
