-- ===== src/Opening/Defs.antt =====
-- apps/web/src/notes/use-notes-repo.ts: the repository of the vault that the page has.
-- What the hook returns.
use opfs_webauthn.Prelude.{List, [], suc, zero, ℕ, ◌++◌, ◌∷◌}

pub data RepoState : Type 0 where
  idle loading ready broken : RepoState

-- The run of the effect for the present vault: no vault, `createRepo` is under way, its repository is attached, or
-- it failed.
pub data Live : Type 0 where
  vacant creating attached gone_wrong : Live

-- Also how many runs that were cancelled still wait for `createRepo`.
pub record Hook : Type 0 where
  pub live : Live
  pub stale : ℕ
  pub state : RepoState

-- The page gets a vault, another one, or none, or is taken down; `createRepo` is settled for the present run or
-- for one that was cancelled.
pub data HookEvent : Type 0 where
  gets_vault loses_vault unmounted : HookEvent
  created create_failed stale_created stale_failed : HookEvent

pub data HookEffect : Type 0 where
  calls_create_repo : HookEffect
  -- A repository is there, and `close` is called on one.
  obtains closes_repo : HookEffect

abbrev pub no_hook : Hook
no_hook = record { live = vacant; stale = 0; state = idle }

-- The effect's cleanup.
unfoldable pub cleanup : Live → ℕ → ℕ × List HookEffect
cleanup vacant stale = (stale, [])
cleanup creating stale = (suc stale, [])
cleanup attached stale = (stale, closes_repo ∷ [])
cleanup gone_wrong stale = (stale, [])

unfoldable pub hook_step : HookEvent → Hook → Hook × List HookEffect
unfolding cleanup
hook_step gets_vault h =
    let (stale, out) = cleanup h.live h.stale in
    (record { live = creating; stale = stale; state = loading }, out ++ (calls_create_repo ∷ []))
hook_step loses_vault h =
    let (stale, out) = cleanup h.live h.stale in
    (record { live = vacant; stale = stale; state = idle }, out)
-- The state of a component that is taken down is dropped.
hook_step unmounted h =
    let (stale, out) = cleanup h.live h.stale in
    (record { live = vacant; stale = stale; state = idle }, out)
hook_step created h = elim h.live [
  | creating ↦ (record { live = attached; stale = h.stale; state = ready }, obtains ∷ [])
  | vacant ↦ (h, [])
  | attached ↦ (h, [])
  | gone_wrong ↦ (h, [])
]
hook_step create_failed h = elim h.live [
  | creating ↦ (record { live = gone_wrong; stale = h.stale; state = broken }, [])
  | vacant ↦ (h, [])
  | attached ↦ (h, [])
  | gone_wrong ↦ (h, [])
]
hook_step stale_created h = elim h.stale [
  | zero ↦ (h, [])
  | suc n ↦ (record { live = h.live; stale = n; state = h.state }, obtains ∷ closes_repo ∷ [])
]
hook_step stale_failed h = elim h.stale [
  | zero ↦ (h, [])
  | suc n ↦ (record { live = h.live; stale = n; state = h.state }, [])
]

unfoldable pub hook_run : List HookEvent → Hook → Hook × List HookEffect
unfolding hook_step
hook_run [] h = (h, [])
hook_run (e ∷ es) h =
    let (h1, out) = hook_step e h in let (h2, more) = hook_run es h1 in (h2, out ++ more)
