-- ===== src/Opening/Tests.antt =====
-- apps/web/src/notes/use-notes-repo.ts: a vault that is exchanged while a repository is being opened.
use opfs_webauthn.Opening.Defs.{
  HookEvent, attached, calls_create_repo, cleanup, closes_repo, created, gets_vault, hook_run,
  hook_step, no_hook, obtains, ready, stale_created,
}
use opfs_webauthn.Prelude.{List, [], refl, ◌∷◌, ◌≡◌}

abbrev exchanged : List HookEvent
exchanged = gets_vault ∷ gets_vault ∷ created ∷ stale_created ∷ []

exchanged-closes : hook_run exchanged no_hook ≡ (
  record { live = attached; stale = 0; state = ready },
  calls_create_repo ∷ calls_create_repo ∷ obtains ∷ obtains ∷ closes_repo ∷ [],
)
unfolding hook_run hook_step cleanup
exchanged-closes = refl
