-- ===== src/Worker/Tests.antt =====
-- apps/web/public/sw.js: a build, its installation, and requests afterwards.
use opfs_webauthn.Map
use opfs_webauthn.Map.{Map}
use opfs_webauthn.Prelude.{
  List, Option, Text, [], codes, drop, includes, map, nat_eq, none, refl, some, starts_with, take,
  text_beq, text_eq, true, ◌∷◌, ◌≡◌,
}
use opfs_webauthn.Worker.Caching.{AllKept, handle_all-AllKept}
use opfs_webauthn.Worker.Defs.{
  Caches, Request, Response, Site, SwEvent, activates, cache_first, delete_stale, ends_with,
  fetch_all, fetches, handle, handle_all, install, installs, is_ok, is_runtime_config, is_stale,
  on_fetch, opened, put_all, respond_to, responds, shell_url,
}
use opfs_webauthn.Worker.Offline.{on_fetch_offline}

abbrev site : Site
site = record {
  precache_manifest =
      some (record { version = codes "v1"; urls = codes "./index.html" ∷ codes "/app.js" ∷ [] });
  origin = codes "https://notes.example";
  absolute = λ url. url;
  origin_of = λ url. take 21 url;
  pathname_of = λ url. drop 21 url;
}

abbrev shell_response : Response
shell_response = record { status = 200; body = codes "<html>" }

abbrev reachable : Text → Option Response
reachable url = some shell_response

abbrev page : Request
page = record {
  method = codes "GET";
  mode = codes "navigate";
  url = codes "https://notes.example/notes";
}

abbrev image : Request
image = record {
  method = codes "GET";
  mode = codes "no-cors";
  url = codes "https://notes.example/i.png";
}

abbrev forbidden : Response
forbidden = record { status = 403; body = codes "no" }

abbrev busy : List SwEvent
busy =
    installs reachable
    ∷ fetches image (some forbidden) true
    ∷ fetches image (some shell_response) true
    ∷ activates
    ∷ []

abbrev others : Caches
others = (codes "opfs-shell-v0", []) ∷ (codes "fonts", []) ∷ []

after_busy :
    map (λ c. c.0) (handle_all site busy others) ≡ codes "fonts" ∷ codes "opfs-shell-v1" ∷ []
unfolding handle_all handle install delete_stale is_stale on_fetch respond_to cache_first fetch_all
    put_all is_ok is_runtime_config ends_with includes starts_with Map.set Map.get text_beq
after_busy = refl

handle_all-AllKept_example : AllKept site (opened site (handle_all site busy others))
unfolding Map.get text_beq
handle_all-AllKept_example = handle_all-AllKept site busy others tt

on_fetch_offline_example :
    let last = handle_all site (activates ∷ []) (install site reachable others).0 in
    (shell : Response) × (Map.get (site.absolute shell_url) (opened site last) ≡ some shell)
    × (is_ok shell ≡ true)
    × ((on_fetch site page none true last).1 ≡ responds shell)
unfolding install fetch_all is_ok put_all is_runtime_config ends_with includes text_beq Map.get
on_fetch_offline_example =
    on_fetch_offline site reachable (activates ∷ []) others page none true refl refl tt refl refl
      refl
