-- ===== src/Boot/Tests.antt =====
-- packages/storage/src/index.ts: a browser whose shared workers cannot open the file system.
use opfs_webauthn.Boot.Defs.{
  World, boot_dedicated, boot_leader, boot_repo, boot_shared, bootstraps, closes, create_repo,
  dedicated, error, is_opfs_unavailable, leader, opens, other, shared,
}
use opfs_webauthn.Boot.Ladder.{chosen, create_repo-chosen, create_repo-open, open_after, runs_over}
use opfs_webauthn.Prelude.{Text, [], codes, false, includes, none, refl, some, true, ◌∷◌, ◌≡◌}

abbrev missing_message : Text
missing_message = codes "RuntimeError: Missing required OPFS APIs."

abbrev shared_without_files : World
shared_without_files = record {
  wasm = none;
  has_transport = false;
  given_boot = none;
  supports_shared_worker = true;
  shared_made = none;
  shared_boot = some (error missing_message);
  has_leader = true;
  leader_made = none;
  leader_ready = none;
  leader_boot = some other;
  dedicated_made = none;
  dedicated_boot = none;
}

effects :
    (create_repo shared_without_files).1
    ≡ opens shared
      ∷ bootstraps shared
      ∷ closes shared
      ∷ opens leader
      ∷ bootstraps leader
      ∷ closes leader
      ∷ closes leader
      ∷ opens dedicated
      ∷ bootstraps dedicated
      ∷ []
unfolding create_repo boot_shared boot_leader boot_dedicated boot_repo is_opfs_unavailable includes
effects = refl

create_repo-open_example :
    let (r, out) = create_repo shared_without_files in
    open_after dedicated out false ≡ runs_over r dedicated
create_repo-open_example = create_repo-open dedicated shared_without_files refl

create_repo-chosen_example :
    runs_over (create_repo shared_without_files).0 dedicated ≡ chosen dedicated shared_without_files
create_repo-chosen_example = create_repo-chosen dedicated shared_without_files refl
