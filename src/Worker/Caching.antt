-- ===== src/Worker/Caching.antt =====
-- apps/web/public/sw.js: what gets into the worker's cache, and which caches it touches.
use opfs_webauthn.Map
use opfs_webauthn.Map.{Map}
use opfs_webauthn.Prelude.{
  All, Bool, Bool-cases, List, Option, Option-cases, Text, [], ap, arith, codes, false,
  if◌then◌else◌, includes, inl, inr, map, nat_eq, none, not, refl, some, subst, sym, text_beq,
  text_beq_iff, text_eq, true, ◌&&◌, ◌||◌, ◌∙◌, ◌∷◌, ◌≡◌, ◌⊎◌,
}
use opfs_webauthn.Worker.Defs.{
  Cache, Caches, Request, Response, Site, SwEvent, activates, cache_first, cache_name, delete_stale,
  fetch_all, fetches, handle, handle_all, install, installs, is_empty, is_ok, is_runtime_config,
  is_stale, messages, on_fetch, opened, precache, put_all, respond_to,
}

abbrev pub mem_url : Text → List Text → Bool
mem_url url [] = false
mem_url url (u ∷ urls) = text_beq u url || mem_url url urls

-- The URLs of the application: of the worker's origin, with a path that has no `/api/` and is not the run-time
-- configuration.
abbrev pub is_cacheable : Site → Text → Bool
is_cacheable W url =
    text_beq (W.origin_of url) W.origin
    && (not (includes (codes "/api/") (W.pathname_of url))
        && not (is_runtime_config (W.pathname_of url)))

-- The requests that the worker may answer from its cache.
abbrev pub may_cache : Site → Request → Bool
may_cache W req = text_beq req.method (codes "GET") && is_cacheable W req.url

abbrev pub precached : Site → List Text
precached W = map W.absolute (precache W.precache_manifest).urls

-- A good response to a URL of the build or of the application.
pub record IsKept (W : Site) (entry : Text × Response) : Type 0 where
  pub good : is_ok entry.1 ≡ true
  pub source : (mem_url entry.0 (precached W) ≡ true) ⊎ (is_cacheable W entry.0 ≡ true)

abbrev pub AllKept : Site → Cache → Type 0
AllKept W = All (IsKept W)

rest_mem : (u url : Text) (urls : List Text) → mem_url u urls ≡ true → mem_url u (url ∷ urls) ≡ true
rest_mem u url urls h = ground arith

module _ (W : Site) where
  AllKept-set :
      (url : Text) (r : Response) (cache : Cache)
      → IsKept W (url, r)
      → AllKept W cache
      → AllKept W (Map.set url r cache)
  unfolding Map.set
  AllKept-set url r [] k a = (k, tt)
  AllKept-set url r ((u, q) ∷ cache) k (ku, a) = elim (Bool-cases (text_beq u url)) [
    | inl e ↦ rw e (subst (λ x. IsKept W (x, r)) (sym ((text_beq_iff u url).0 e)) k, a)
    | inr e ↦ rw e (ku, AllKept-set url r cache k a)
  ]

  pub AllKept-put_all :
      (entries cache : Cache)
      → AllKept W entries
      → AllKept W cache
      → AllKept W (put_all entries cache)
  unfolding put_all
  AllKept-put_all [] cache e a = a
  AllKept-put_all ((url, r) ∷ entries) cache (k, e) a =
      AllKept-put_all entries (Map.set url r cache) e (AllKept-set url r cache k a)

  -- What `addAll` has got.
  AllKept-fetch_all :
      (web : Text → Option Response) (urls : List Text) (entries : Cache)
      → ((url : Text) → mem_url url urls ≡ true → mem_url url (precached W) ≡ true)
      → fetch_all web urls ≡ some entries
      → AllKept W entries
  unfolding fetch_all
  AllKept-fetch_all web [] entries m e =
      let same : [] ≡ entries = ground arith in subst (AllKept W) same tt
  AllKept-fetch_all web (url ∷ urls) entries m e = elim (Option-cases (web url)) [
    | inl n ↦ absurd (ground arith)
    | inr (r, n) ↦ elim (Option-cases (fetch_all web urls)) [
      | inl f ↦ absurd (ground arith)
      | inr (rest, f) ↦
          let fine : is_ok r ≡ true = ground arith in
          let same : (url, r) ∷ rest ≡ entries = ground arith in
          let here : mem_url url (url ∷ urls) ≡ true = rw ((text_beq_iff url url).1 refl) in
          subst (AllKept W) same (
            record { good = fine; source = inl (m url here) },
            AllKept-fetch_all web urls rest (λ u h. m u (rest_mem u url urls h)) f,
          )
    ]
  ]

  pub opened-set :
      (cache : Cache) (caches : Caches) → opened W (Map.set (cache_name W) cache caches) ≡ cache
  opened-set cache caches =
      rw (Map.get-set (cache_name W) (cache_name W) cache caches, Map.beq_refl (cache_name W))

  -- The activation drops the caches of other versions, and no other.
  pub get-delete_stale :
      (k : Text) (caches : Caches)
      → Map.get k (delete_stale W caches) ≡ (if is_stale W k then none else Map.get k caches)
  unfolding delete_stale Map.get
  get-delete_stale k [] = ground arith
  get-delete_stale k ((j, cache) ∷ caches) =
      ground (arith, text_beq_iff j k, get-delete_stale k caches)

  pub is_stale-own : is_stale W (cache_name W) ≡ false
  unfolding is_stale
  is_stale-own = ground (arith, (text_beq_iff (cache_name W) (cache_name W)).1 refl)

  pub opened-delete_stale : (caches : Caches) → opened W (delete_stale W caches) ≡ opened W caches
  opened-delete_stale caches = rw (get-delete_stale (cache_name W) caches, is_stale-own)

  -- A response that is good may be kept, and nothing else changes.
  pub cache_first-cases :
      (url : Text) (answer : Option Response) (takes : Bool) (cache : Cache)
      → ((cache_first W url answer takes cache).0 ≡ cache)
        ⊎ ((r : Response) × (is_ok r ≡ true)
            × ((cache_first W url answer takes cache).0 ≡ Map.set url r cache))
  unfolding cache_first
  cache_first-cases url answer takes cache = elim (Option-cases (Map.get url cache)) [
    | inr (r, f) ↦ inl (ground arith)
    | inl f ↦ elim (Option-cases answer) [
      | inl n ↦ inl (ground arith)
      | inr (r, n) ↦ elim (Bool-cases (is_ok r && takes)) [
        | inr b ↦ inl (ground arith)
        | inl b ↦ inr (r, ground arith, ground arith)
      ]
    ]
  ]

  AllKept-cache_first :
      (req : Request) (answer : Option Response) (takes : Bool) (cache : Cache)
      → may_cache W req ≡ true
      → AllKept W cache
      → AllKept W (cache_first W req.url answer takes cache).0
  AllKept-cache_first req answer takes cache m a =
      elim (cache_first-cases req.url answer takes cache) [
        | inl same ↦ subst (AllKept W) (sym same) a
        | inr (r, fine, set) ↦
            let kept : IsKept W (req.url, r) = record {
              good = fine;
              source = inr (ground arith);
            } in
            subst (AllKept W) (sym set) (AllKept-set req.url r cache kept a)
      ]

  -- The caches after a request: as they were, or with the worker's own cache as it was or as
  -- `cache_first` leaves it.
  pub on_fetch-cases :
      (req : Request) (answer : Option Response) (takes : Bool) (caches : Caches)
      → ((on_fetch W req answer takes caches).0 ≡ caches)
        ⊎ ((may_cache W req ≡ true)
            × (((on_fetch W req answer takes caches).0
                  ≡ Map.set (cache_name W) (opened W caches) caches)
                ⊎ ((on_fetch W req answer takes caches).0
                    ≡ Map.set
                        (cache_name W)
                        (cache_first W req.url answer takes (opened W caches)).0
                        caches)))
  unfolding on_fetch respond_to
  on_fetch-cases req answer takes caches =
      elim (Bool-cases (may_cache W req && not (is_empty (precache W.precache_manifest).urls))) [
        | inr b ↦ inl (ground arith)
        | inl b ↦ elim (Bool-cases (text_beq req.mode (codes "navigate"))) [
          | inl n ↦ inr (ground arith, inl (ground arith))
          | inr n ↦ inr (ground arith, inr (ground arith))
        ]
      ]

  pub install-cases :
      (web : Text → Option Response) (caches : Caches)
      → ((install W web caches).0 ≡ Map.set (cache_name W) (opened W caches) caches)
        ⊎ ((entries : Cache) × (fetch_all web (precached W) ≡ some entries)
            × ((install W web caches).0
                ≡ Map.set (cache_name W) (put_all entries (opened W caches)) caches))
  unfolding install
  install-cases web caches = elim (Option-cases (fetch_all web (precached W))) [
    | inl f ↦ inl (ground arith)
    | inr (entries, f) ↦ inr (entries, f, ground arith)
  ]

  kept_by :
      (cache : Cache) (last caches : Caches)
      → last ≡ Map.set (cache_name W) cache caches
      → AllKept W cache
      → AllKept W (opened W last)
  kept_by cache last caches e a =
      subst (AllKept W) (sym (ap (opened W) e ∙ opened-set cache caches)) a

  handle-AllKept :
      (e : SwEvent) (caches : Caches)
      → AllKept W (opened W caches)
      → AllKept W (opened W (handle W e caches).0)
  unfolding handle
  handle-AllKept (installs web) caches a = elim (install-cases web caches) [
    | inl same ↦ kept_by _ _ caches same a
    | inr (entries, f, set) ↦ kept_by _ _ caches set (
        AllKept-put_all entries (opened W caches)
          (AllKept-fetch_all web (precached W) entries (λ u h. h) f) a)
  ]
  handle-AllKept activates caches a = subst (AllKept W) (sym (opened-delete_stale caches)) a
  handle-AllKept (messages m) caches a = a
  handle-AllKept (fetches req answer takes) caches a =
      elim (on_fetch-cases req answer takes caches) [
        | inl same ↦ subst (λ c. AllKept W (opened W c)) (sym same) a
        | inr (m, inl same) ↦ kept_by _ _ caches same a
        | inr (m, inr set) ↦
            kept_by _ _ caches set (AllKept-cache_first req answer takes (opened W caches) m a)
      ]

  -- Whatever the worker is asked to do, its cache holds good responses only, each under a URL of the build or
  -- under one of its own origin, whose path has no `/api/` and is not the run-time configuration. This is of a
  -- cache that holds no others at first.
  pub handle_all-AllKept :
      (es : List SwEvent) (caches : Caches)
      → AllKept W (opened W caches)
      → AllKept W (opened W (handle_all W es caches))
  unfolding handle_all
  handle_all-AllKept [] caches a = a
  handle_all-AllKept (e ∷ es) caches a =
      handle_all-AllKept es (handle W e caches).0 (handle-AllKept e caches a)
