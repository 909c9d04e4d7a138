-- ===== src/Opening/Closing.antt =====
-- apps/web/src/notes/use-notes-repo.ts: each repository is closed once.
use opfs_webauthn.Opening.Defs.{
  Hook, HookEffect, Live, RepoState, attached, broken, calls_create_repo, closes_repo, creating,
  gone_wrong, idle, loading, obtains, ready, vacant,
}
use opfs_webauthn.Prelude.{Bool, List, [], false, ltb, suc, true, ℕ, ◌+◌, ◌∷◌, ◌≡◌}

abbrev pub obtained : List HookEffect → ℕ
obtained [] = 0
obtained (obtains ∷ out) = suc (obtained out)
obtained (closes_repo ∷ out) = obtained out
obtained (calls_create_repo ∷ out) = obtained out

abbrev pub closed_repos : List HookEffect → ℕ
closed_repos [] = 0
closed_repos (obtains ∷ out) = closed_repos out
closed_repos (closes_repo ∷ out) = suc (closed_repos out)
closed_repos (calls_create_repo ∷ out) = closed_repos out

-- The repositories that are open.
abbrev pub open_repos : Live → ℕ
open_repos vacant = 0
open_repos creating = 0
open_repos attached = 1
open_repos gone_wrong = 0

abbrev pub is_ready : RepoState → Bool
is_ready idle = false
is_ready loading = false
is_ready ready = true
is_ready broken = false

-- What a run obtained is what it closed, and what is open.
abbrev Balanced : Hook → Hook × List HookEffect → Type 0
Balanced h (h', out) = open_repos h.live + obtained out ≡ closed_repos out + open_repos h'.live

-- What is shown as ready is open.
abbrev IsTrue : Hook → Type 0
IsTrue h = is_ready h.state ≡ ltb 0 (open_repos h.live)
