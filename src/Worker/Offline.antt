-- ===== src/Worker/Offline.antt =====
-- apps/web/public/sw.js: once installed, the shell is there without a network.
use opfs_webauthn.Map
use opfs_webauthn.Map.{Map}
use opfs_webauthn.Prelude.{
  Bool, Bool-cases, List, Option, Option-cases, Text, [], ap, arith, codes, false, inl, inr,
  is_some, map, nat_eq, none, refl, some, subst, sym, text_beq, text_beq_iff, text_eq, true, ◌==◌,
  ◌||◌, ◌∙◌, ◌∷◌, ◌≡◌, ◌≢◌,
}
use opfs_webauthn.Worker.Caching.{
  AllKept, cache_first-cases, handle_all-AllKept, install-cases, may_cache, mem_url, on_fetch-cases,
  opened-delete_stale, opened-set, precached,
}
use opfs_webauthn.Worker.Defs.{
  Cache, Caches, Request, Response, Site, SwEvent, activates, cache_first, cache_name, fetch_all,
  fetches, finishes, handle, handle_all, install, installs, is_empty, is_ok, messages,
  navigation_strategy, on_fetch, opened, precache, put_all, respond_to, responds, shell_url,
}

abbrev Has : Text → Cache → Type 0
Has url cache = is_some (Map.get url cache) ≡ true

Has-set : (k url : Text) (r : Response) (cache : Cache) → Has k cache → Has k (Map.set url r cache)
Has-set k url r cache h = ground (arith, Map.get-set url k r cache)

Has-put_all : (k : Text) (entries cache : Cache) → Has k cache → Has k (put_all entries cache)
unfolding put_all
Has-put_all k [] cache h = h
Has-put_all k ((url, r) ∷ entries) cache h =
    Has-put_all k entries (Map.set url r cache) (Has-set k url r cache h)

-- What is put is there.
Has-put_all_new :
    (k : Text) (entries cache : Cache)
    → is_some (Map.get k entries) ≡ true
    → Has k (put_all entries cache)
unfolding put_all Map.get
Has-put_all_new k [] cache h = cc
Has-put_all_new k ((url, r) ∷ entries) cache h = elim (Bool-cases (text_beq url k)) [
  | inl e ↦ Has-put_all k entries (Map.set url r cache) (ground (arith, Map.get-set url k r cache))
  | inr e ↦ Has-put_all_new k entries (Map.set url r cache) (ground arith)
]

-- `addAll` gets every URL.
Has-fetch_all :
    (k : Text) (web : Text → Option Response) (urls : List Text) (entries : Cache)
    → fetch_all web urls ≡ some entries
    → mem_url k urls ≡ true
    → is_some (Map.get k entries) ≡ true
unfolding fetch_all Map.get
Has-fetch_all k web [] entries e m = cc
Has-fetch_all k web (url ∷ urls) entries e m = elim (Option-cases (web url)) [
  | inl n ↦ absurd (ground arith)
  | inr (r, n) ↦ elim (Option-cases (fetch_all web urls)) [
    | inl f ↦ absurd (ground arith)
    | inr (rest, f) ↦
        let same : (url, r) ∷ rest ≡ entries = ground arith in
        subst (λ c. is_some (Map.get k c) ≡ true) same
          (ground (arith, Has-fetch_all k web urls rest f))
  ]
]

-- Whether the network's answer to a navigation is passed on.
abbrev pub is_served : Option Response → Bool
is_served none = false
is_served (some r) = is_ok r || r.status == 404

get-AllKept :
    (W : Site) (k : Text) (cache : Cache) (r : Response)
    → Map.get k cache ≡ some r
    → AllKept W cache
    → is_ok r ≡ true
unfolding Map.get
get-AllKept W k [] r e a = absurd (ground arith)
get-AllKept W k ((url, q) ∷ cache) r e (kept, a) = elim (Bool-cases (text_beq url k)) [
  | inl b ↦ let same : q ≡ r = ground arith in subst (λ x. is_ok x ≡ true) same kept.good
  | inr b ↦ get-AllKept W k cache r (ground arith) a
]

is_empty-mem_url :
    (k : Text) (f : Text → Text) (urls : List Text)
    → mem_url k (map f urls) ≡ true
    → is_empty urls ≡ false
is_empty-mem_url k f [] m = absurd (ground arith)
is_empty-mem_url k f (url ∷ urls) m = refl

module _ (W : Site) where
  kept_by :
      (k : Text) (cache : Cache) (caches last : Caches)
      → last ≡ Map.set (cache_name W) cache caches
      → Has k cache
      → Has k (opened W last)
  kept_by k cache caches last e h =
      subst (Has k) (sym (ap (opened W) e ∙ opened-set W cache caches)) h

  cache_first-Has :
      (k url : Text) (answer : Option Response) (takes : Bool) (cache : Cache)
      → Has k cache
      → Has k (cache_first W url answer takes cache).0
  cache_first-Has k url answer takes cache h = elim (cache_first-cases W url answer takes cache) [
    | inl same ↦ subst (Has k) (sym same) h
    | inr (r, fine, set) ↦ subst (Has k) (sym set) (Has-set k url r cache h)
  ]

  handle-Has :
      (e : SwEvent) (k : Text) (caches : Caches)
      → Has k (opened W caches)
      → Has k (opened W (handle W e caches).0)
  unfolding handle
  handle-Has (installs web) k caches h = elim (install-cases W web caches) [
    | inl same ↦ kept_by k _ caches _ same h
    | inr (entries, f, set) ↦ kept_by k _ caches _ set (Has-put_all k entries (opened W caches) h)
  ]
  handle-Has activates k caches h = subst (Has k) (sym (opened-delete_stale W caches)) h
  handle-Has (messages m) k caches h = h
  handle-Has (fetches req answer takes) k caches h =
      elim (on_fetch-cases W req answer takes caches) [
        | inl same ↦ subst (λ c. Has k (opened W c)) (sym same) h
        | inr (m, inl same) ↦ kept_by k _ caches _ same h
        | inr (m, inr set) ↦
            kept_by k _ caches _ set (cache_first-Has k req.url answer takes (opened W caches) h)
      ]

  handle_all-Has :
      (es : List SwEvent) (k : Text) (caches : Caches)
      → Has k (opened W caches)
      → Has k (opened W (handle_all W es caches))
  unfolding handle_all
  handle_all-Has [] k caches h = h
  handle_all-Has (e ∷ es) k caches h =
      handle_all-Has es k (handle W e caches).0 (handle-Has e k caches h)

  refused :
      (web : Text → Option Response) (caches : Caches)
      → fetch_all web (precached W) ≡ none
      → (install W web caches).1 ≢ finishes true
  unfolding install
  refused web caches f i = ground arith

  installed :
      (web : Text → Option Response) (caches : Caches) (entries : Cache)
      → fetch_all web (precached W) ≡ some entries
      → (install W web caches).0 ≡ Map.set (cache_name W) (put_all entries (opened W caches)) caches
  unfolding install
  installed web caches entries f = ground arith

  installed-Has :
      (web : Text → Option Response) (k : Text) (caches : Caches)
      → (install W web caches).1 ≡ finishes true
      → mem_url k (precached W) ≡ true
      → Has k (opened W (install W web caches).0)
  installed-Has web k caches i m = elim (Option-cases (fetch_all web (precached W))) [
    | inl f ↦ absurd (refused web caches f i)
    | inr (entries, f) ↦ kept_by k _ caches _ (installed web caches entries f) (
        Has-put_all_new k entries (opened W caches) (Has-fetch_all k web (precached W) entries f m))
  ]

  navigation_strategy-shell :
      (answer : Option Response) (cache : Cache) (shell : Response)
      → is_served answer ≡ false
      → Map.get (W.absolute shell_url) cache ≡ some shell
      → navigation_strategy W answer cache ≡ responds shell
  unfolding navigation_strategy
  navigation_strategy-shell none cache shell s g = rw g
  navigation_strategy-shell (some r) cache shell s g = rw (s, g)

  on_fetch-navigates :
      (req : Request) (answer : Option Response) (takes : Bool) (caches : Caches)
      → is_empty (precache W.precache_manifest).urls ≡ false
      → may_cache W req ≡ true
      → req.mode ≡ codes "navigate"
      → (on_fetch W req answer takes caches).1 ≡ navigation_strategy W answer (opened W caches)
  unfolding on_fetch respond_to
  on_fetch-navigates req answer takes caches u c n =
      let same = (text_beq_iff req.mode (codes "navigate")).1 n in ground arith

  -- Offline. After an installation that succeeded for a build that has the shell, and whatever the worker is
  -- asked to do then, a navigation that may be cached and that finds no network, or an answer that is neither
  -- good nor 404, is answered with the shell from the cache, and that is a good response. It may be cached if
  -- it is a GET of the worker's own origin, whose path has no `/api/` and is not the run-time configuration.
  -- At first, the cache holds only what `IsKept` allows.
  pub on_fetch_offline :
      (web : Text → Option Response) (es : List SwEvent) (caches : Caches) (req : Request)
      (answer : Option Response) (takes : Bool)
      → (install W web caches).1 ≡ finishes true
      → mem_url (W.absolute shell_url) (precached W) ≡ true
      → AllKept W (opened W caches)
      → may_cache W req ≡ true
      → req.mode ≡ codes "navigate"
      → is_served answer ≡ false
      → let last = handle_all W es (install W web caches).0 in
        (shell : Response) × (Map.get (W.absolute shell_url) (opened W last) ≡ some shell)
        × (is_ok shell ≡ true)
        × ((on_fetch W req answer takes last).1 ≡ responds shell)
  unfolding handle_all handle
  on_fetch_offline web es caches req answer takes i m a c n s =
      let first = (install W web caches).0 in
      let last = handle_all W es first in
      let kept = handle_all-AllKept W (installs web ∷ es) caches a in
      let there = handle_all-Has es (W.absolute shell_url) first (installed-Has web _ caches i m) in
      let some_urls = is_empty-mem_url _ W.absolute (precache W.precache_manifest).urls m in
      elim (Option-cases (Map.get (W.absolute shell_url) (opened W last))) [
        | inl g ↦ absurd (cc (ap (λ o. is_some o) g, there))
        | inr (shell, g) ↦ (
          shell,
          g,
          get-AllKept W _ (opened W last) shell g kept,
          on_fetch-navigates req answer takes last some_urls c n
              ∙ navigation_strategy-shell answer (opened W last) shell s g,
        )
      ]
