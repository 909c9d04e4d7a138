-- ===== src/Boot/Ladder.antt =====
-- packages/storage/src/index.ts: what `createRepo` leaves open, and when it takes the next step.
use opfs_webauthn.Boot.Defs.{
  BootEffect, Booted, Thrown, Tier, World, boot_dedicated, boot_leader, boot_repo, boot_shared,
  bootstraps, closes, create_repo, dedicated, fails, given, is_opfs_unavailable, leader, opens,
  repo, shared,
}
use opfs_webauthn.Prelude.{
  Bool, List, Option, [], arith, false, none, not, some, true, ◌&&◌, ◌||◌, ◌∷◌, ◌≡◌,
}

abbrev pub same_tier : Tier → Tier → Bool
same_tier given given = true
same_tier shared shared = true
same_tier leader leader = true
same_tier dedicated dedicated = true
same_tier given _ = false
same_tier shared _ = false
same_tier leader _ = false
same_tier dedicated _ = false

-- Whether a transport is open after the effects.
abbrev pub open_after : Tier → List BootEffect → Bool → Bool
open_after t [] b = b
open_after t (opens u ∷ out) b = open_after t out (same_tier u t || b)
open_after t (closes u ∷ out) b = open_after t out (not (same_tier u t) && b)
open_after t (bootstraps u ∷ out) b = open_after t out b

abbrev pub runs_over : Booted → Tier → Bool
runs_over (repo u) t = same_tier u t
runs_over (fails e) t = false

-- One transport is left open, the one that the repository uses, and none if `createRepo` throws: every step
-- that fails closes what it opened. A transport of the caller is open from the start. The wasm core
-- has been loaded.
pub create_repo-open :
    (t : Tier) (w : World)
    → w.wasm ≡ none
    → let (r, out) = create_repo w in
      open_after t out (w.has_transport && same_tier t given) ≡ runs_over r t
unfolding create_repo boot_shared boot_leader boot_dedicated boot_repo
create_repo-open given w h = ground arith
create_repo-open shared w h = ground arith
create_repo-open leader w h = ground arith
create_repo-open dedicated w h = ground arith

abbrev pub is_fine : Option Thrown → Bool
is_fine none = true
is_fine (some e) = false

abbrev pub is_missing : Option Thrown → Bool
is_missing none = false
is_missing (some e) = is_opfs_unavailable e

-- The shared worker is not there, or says that the file system is missing.
abbrev pub lacks_shared : World → Bool
lacks_shared w =
    not w.supports_shared_worker
    || (is_missing w.shared_made || (is_fine w.shared_made && is_missing w.shared_boot))

abbrev pub leads : World → Bool
leads w =
    w.has_leader && (is_fine w.leader_made && (is_fine w.leader_ready && is_fine w.leader_boot))

-- There is no election, or its transport is made but fails.
abbrev pub passes_on : World → Bool
passes_on w = not w.has_leader || (is_fine w.leader_made && not (leads w))

-- When a repository runs over a transport, by the choice that is documented.
abbrev pub chosen : Tier → World → Bool
chosen given w = w.has_transport && is_fine w.given_boot
chosen shared w =
    not w.has_transport
    && (w.supports_shared_worker && (is_fine w.shared_made && is_fine w.shared_boot))
chosen leader w = not w.has_transport && (lacks_shared w && leads w)
chosen dedicated w =
    not w.has_transport
    && (lacks_shared w && (passes_on w && (is_fine w.dedicated_made && is_fine w.dedicated_boot)))

-- The ladder. A page takes the shared worker if it boots; the election of a leader only if there is no shared
-- worker or that says that the file system is missing; and a worker of its own, which other tabs do
-- not share, only if there is no election either or its transport was made and failed in any way. Any other
-- failure of the shared worker, and one in the making of the election's transport, is thrown. The wasm core
-- has been loaded.
pub create_repo-chosen :
    (t : Tier) (w : World) → w.wasm ≡ none → runs_over (create_repo w).0 t ≡ chosen t w
unfolding create_repo boot_shared boot_leader boot_dedicated boot_repo
create_repo-chosen given w h = ground arith
create_repo-chosen shared w h = ground arith
create_repo-chosen leader w h = ground arith
create_repo-chosen dedicated w h = ground arith
