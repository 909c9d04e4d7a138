-- ===== src/Worker/Others.antt =====
-- apps/web/public/sw.js: the caches of other versions and of other applications.
use opfs_webauthn.Map
use opfs_webauthn.Map.{Map}
use opfs_webauthn.Prelude.{
  Bool-cases, List, Option, Text, [], ap, arith, false, if_false, if◌then◌else◌, inl, inr, nat_eq,
  none, refl, starts_with, text_beq, text_beq_iff, text_eq, true, ◌++◌, ◌∙◌, ◌∷◌, ◌≡◌,
}
use opfs_webauthn.Worker.Caching.{get-delete_stale, install-cases, on_fetch-cases}
use opfs_webauthn.Worker.Defs.{
  Cache, Caches, Site, SwEvent, activates, cache_name, cache_prefix, delete_stale, fetches, handle,
  handle_all, installs, is_stale, messages, precache,
}

module _ (W : Site) where
  -- The caches of others.
  starts_with-append : (p t : Text) → starts_with p (p ++ t) ≡ true
  unfolding starts_with
  starts_with-append [] t = refl
  starts_with-append (c ∷ p) t = ground (arith, starts_with-append p t)

  not_own : (k : Text) → starts_with cache_prefix k ≡ false → text_beq (cache_name W) k ≡ false
  not_own k p = elim (Bool-cases (text_beq (cache_name W) k)) [
    | inr n ↦ n
    | inl e ↦
        let same = (text_beq_iff (cache_name W) k).0 e in
        let own = starts_with-append cache_prefix (precache W.precache_manifest).version in
        absurd (cc (ap (starts_with cache_prefix) same, own, p))
  ]

  others_by :
      (k : Text) (cache : Cache) (caches last : Caches)
      → last ≡ Map.set (cache_name W) cache caches
      → text_beq (cache_name W) k ≡ false
      → Map.get k last ≡ Map.get k caches
  others_by k cache caches last e n =
      ap (Map.get k) e ∙ Map.get-set (cache_name W) k cache caches ∙ if_false _ _ _ n

  handle-others :
      (e : SwEvent) (k : Text) (caches : Caches)
      → starts_with cache_prefix k ≡ false
      → Map.get k (handle W e caches).0 ≡ Map.get k caches
  unfolding handle is_stale
  handle-others (installs web) k caches p = elim (install-cases W web caches) [
    | inl same ↦ others_by k _ caches _ same (not_own k p)
    | inr (entries, f, set) ↦ others_by k _ caches _ set (not_own k p)
  ]
  handle-others activates k caches p = get-delete_stale W k caches ∙ rw p
  handle-others (messages m) k caches p = refl
  handle-others (fetches req answer takes) k caches p =
      elim (on_fetch-cases W req answer takes caches) [
        | inl same ↦ ap (Map.get k) same
        | inr (m, inl same) ↦ others_by k _ caches _ same (not_own k p)
        | inr (m, inr set) ↦ others_by k _ caches _ set (not_own k p)
      ]

  handle_all-others :
      (es : List SwEvent) (k : Text) (caches : Caches)
      → starts_with cache_prefix k ≡ false
      → Map.get k (handle_all W es caches) ≡ Map.get k caches
  unfolding handle_all
  handle_all-others [] k caches p = refl
  handle_all-others (e ∷ es) k caches p =
      handle_all-others es k (handle W e caches).0 p ∙ handle-others e k caches p

  handle_all-last :
      (es : List SwEvent) (caches : Caches)
      → handle_all W (es ++ (activates ∷ [])) caches ≡ delete_stale W (handle_all W es caches)
  unfolding handle_all handle
  handle_all-last [] caches = refl
  handle_all-last (e ∷ es) caches = handle_all-last es (handle W e caches).0

  minded :
      (k : Text) (kept first : Option Cache)
      → (starts_with cache_prefix k ≡ false → kept ≡ first)
      → (if is_stale W k then none else kept) ≡ (
          if starts_with cache_prefix k
          then (if text_beq k (cache_name W) then kept else none)
          else first)
  unfolding is_stale
  minded k kept first same = ground arith

  -- The worker minds its own caches. Whatever it is asked to do, a cache without its prefix stays as it is;
  -- and once it is activated, a cache with its prefix is the one of its version.
  pub handle_all-activates :
      (es : List SwEvent) (k : Text) (caches : Caches)
      → Map.get k (handle_all W (es ++ (activates ∷ [])) caches) ≡ (
          if starts_with cache_prefix k
          then (if text_beq k (cache_name W) then Map.get k (handle_all W es caches) else none)
          else Map.get k caches)
  handle_all-activates es k caches =
      let last = handle_all W es caches in
      ap (Map.get k) (handle_all-last es caches)
      ∙ get-delete_stale W k last
      ∙ minded k (Map.get k last) (Map.get k caches) (handle_all-others es k caches)
