-- ===== src/Worker/Defs.antt =====
-- apps/web/public/sw.js: the handlers of `install`, `activate`, `message` and `fetch`.
use opfs_webauthn.Map
use opfs_webauthn.Map.{Map}
use opfs_webauthn.Prelude.{
  Bool, List, Option, Text, [], codes, false, if◌then◌else◌, includes, leb, map, nat_eq, none, not,
  some, starts_with, text_beq, text_eq, true, ℕ, ◌&&◌, ◌++◌, ◌==◌, ◌||◌, ◌∷◌,
}

pub record Response : Type 0 where
  pub status : ℕ
  pub body : Text

-- What the worker reads of a request.
pub record Request : Type 0 where
  pub method : Text
  pub mode : Text
  pub url : Text

pub record Manifest : Type 0 where
  pub version : Text
  pub urls : List Text

-- `self.__OPFS_PRECACHE`, which the build writes, the worker's origin, the URLs that relative ones stand for, and
-- the origin and the path that `new URL` gives of a URL.
pub record Site : Type 0 where
  pub precache_manifest : Option Manifest
  pub origin : Text
  pub absolute : Text → Text
  pub origin_of : Text → Text
  pub pathname_of : Text → Text

abbrev pub Cache : Type 0
Cache = Map Text Response

abbrev pub Caches : Type 0
Caches = Map Text Cache

-- What a handler does: it leaves the request to the browser, responds, or rejects the event's promise.
pub data Handled : Type 0 where
  passes : Handled
  responds : Response → Handled
  rejects : Handled
  finishes : (skips_waiting : Bool) → Handled

pub data SwEvent : Type 0 where
  -- What the network gives for each URL, `none` if it cannot be reached.
  installs : (Text → Option Response) → SwEvent
  activates : SwEvent
  messages : Text → SwEvent
  -- A request, what the network gives for it, and whether the cache takes a new entry.
  fetches : Request → Option Response → Bool → SwEvent

abbrev pub precache : Option Manifest → Manifest
precache none = record { version = codes "dev"; urls = [] }
precache (some m) = m

abbrev pub cache_prefix : Text
cache_prefix = codes "opfs-shell-"

abbrev pub shell_url : Text
shell_url = codes "./index.html"

unfoldable pub is_ok : Response → Bool
is_ok r = leb 200 r.status && leb r.status 299

unfoldable pub ends_with : Text → Text → Bool
ends_with p [] = text_beq p []
ends_with p (c ∷ s) = text_beq p (c ∷ s) || ends_with p s

unfoldable pub is_runtime_config : Text → Bool
unfolding ends_with
is_runtime_config pathname =
    text_beq pathname (codes "/config.js") || ends_with (codes "/config.js") pathname

-- `cache.addAll` gets every URL before it keeps any.
unfoldable pub fetch_all : (Text → Option Response) → List Text → Option Cache
unfolding is_ok
fetch_all web [] = some []
fetch_all web (url ∷ urls) = elim (web url) [
  | none ↦ none
  | some r ↦ elim (fetch_all web urls) [
    | none ↦ none
    | some entries ↦ if is_ok r then some ((url, r) ∷ entries) else none
  ]
]

unfoldable pub put_all : Cache → Cache → Cache
put_all [] cache = cache
put_all ((url, r) ∷ entries) cache = put_all entries (Map.set url r cache)

abbrev pub or_empty : Option Cache → Cache
or_empty none = []
or_empty (some cache) = cache

abbrev pub found_or : Option Response → Response → Handled
found_or (some shell) r = responds shell
found_or none r = responds r

abbrev pub offline : Response
offline = record { status = 503; body = codes "Offline" }

abbrev pub is_empty : List Text → Bool
is_empty [] = true
is_empty (url ∷ urls) = false

module _ (W : Site) where
  open W use {precache_manifest, origin, absolute, origin_of, pathname_of}

  abbrev pub cache_name : Text
  cache_name = cache_prefix ++ (precache precache_manifest).version

  -- `caches.open`: a cache that is not there is made.
  abbrev pub opened : Caches → Cache
  opened caches = or_empty (Map.get cache_name caches)

  unfoldable pub install : (Text → Option Response) → Caches → Caches × Handled
  unfolding fetch_all put_all
  install web caches = elim (fetch_all web (map absolute (precache precache_manifest).urls)) [
    | none ↦ (Map.set cache_name (opened caches) caches, rejects)
    | some entries ↦ (Map.set cache_name (put_all entries (opened caches)) caches, finishes true)
  ]

  unfoldable pub is_stale : Text → Bool
  is_stale key = starts_with cache_prefix key && not (text_beq key cache_name)

  unfoldable pub delete_stale : Caches → Caches
  unfolding is_stale
  delete_stale [] = []
  delete_stale ((key, cache) ∷ caches) =
      let rest = delete_stale caches in if is_stale key then rest else (key, cache) ∷ rest

  unfoldable pub navigation_strategy : Option Response → Cache → Handled
  unfolding is_ok
  navigation_strategy none cache = found_or (Map.get (absolute shell_url) cache) offline
  navigation_strategy (some r) cache =
      if is_ok r || r.status == 404
      then responds r
      else found_or (Map.get (absolute shell_url) cache) r

  -- The response, and the cache after it.
  unfoldable pub cache_first : Text → Option Response → Bool → Cache → Cache × Handled
  unfolding is_ok
  cache_first url answer takes cache = elim (Map.get url cache) [
    | some r ↦ (cache, responds r)
    | none ↦ elim answer [
      | none ↦ (cache, rejects)
      | some r ↦ (if is_ok r && takes then Map.set url r cache else cache, responds r)
    ]
  ]

  unfoldable pub respond_to : Request → Option Response → Bool → Caches → Caches × Handled
  unfolding navigation_strategy cache_first
  respond_to req answer takes caches =
      if text_beq req.mode (codes "navigate")
      then (Map.set cache_name (opened caches) caches, navigation_strategy answer (opened caches))
      else let (cache, handled) = cache_first req.url answer takes (opened caches) in
        (Map.set cache_name cache caches, handled)

  unfoldable pub on_fetch : Request → Option Response → Bool → Caches → Caches × Handled
  unfolding is_runtime_config respond_to includes
  on_fetch req answer takes caches =
      if not (text_beq req.method (codes "GET"))
      then (caches, passes)
      else if not (text_beq (origin_of req.url) origin)
      then (caches, passes)
      else if includes (codes "/api/") (pathname_of req.url)
      then (caches, passes)
      else if is_runtime_config (pathname_of req.url)
      then (caches, passes)
      else if is_empty (precache precache_manifest).urls
      then (caches, passes)
      else respond_to req answer takes caches

  unfoldable pub handle : SwEvent → Caches → Caches × Handled
  unfolding install delete_stale on_fetch
  handle (installs web) caches = install web caches
  handle activates caches = (delete_stale caches, finishes false)
  handle (messages m) caches = (caches, finishes (text_beq m (codes "SKIP_WAITING")))
  handle (fetches req answer takes) caches = on_fetch req answer takes caches

  unfoldable pub handle_all : List SwEvent → Caches → Caches
  unfolding handle
  handle_all [] caches = caches
  handle_all (e ∷ es) caches = handle_all es (handle e caches).0
