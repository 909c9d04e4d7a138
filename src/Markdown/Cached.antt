-- ===== src/Markdown/Cached.antt =====
-- apps/web/src/notes/markdown.tsx, `stripMarkdown`: the cache against the function without it.
use opfs_webauthn.Map
use opfs_webauthn.Leader.Tab.Failure.{counted}
use opfs_webauthn.Map.{Map}
use opfs_webauthn.Markdown.Defs.{
  Parser, StripState, evict_oldest, plain_text, reset_strip_markdown_cache, strip_all,
  strip_cache_cap, strip_markdown, strip_markdown_uncached,
}
use opfs_webauthn.Markdown.Pairs.{
  delete-pairs_of, evict-pairs_of, get-pairs_of, length-pairs_of, pairs_of, set-pairs_of,
}
use opfs_webauthn.Markdown.Recency.{
  Distinct, count, count-append, count-remove, last_n, last_n-Distinct, last_n-touch_hit,
  last_n-touch_miss, length-last_n, remove, touch, touch-Distinct,
}
use opfs_webauthn.Prelude.{
  Bool, Bool-cases, List, Text, [], ap, arith, false, if◌then◌else◌, inl, inr, leb, length,
  length-append, ltb, map, nat_eq, none, not, refl, some, suc, sym, text_beq, text_beq_iff, text_eq,
  ℕ, ◌&&◌, ◌++◌, ◌+◌, ◌∙◌, ◌∷◌, ◌≡◌, ◌≤◌,
}

snoc-Distinct :
    (k : Text) (ks : List Text) → Distinct ks → count k ks ≡ 0 → Distinct (ks ++ (k ∷ []))
snoc-Distinct k ks d c j = elim (Bool-cases (text_beq k j)) [
  | inl b ↦
      let same = ap (λ i. count i ks) ((text_beq_iff k j).0 b) in
      ground (arith, count-append j ks (k ∷ []), c, same)
  | inr b ↦ ground (arith, count-append j ks (k ∷ []), d j)
]

module _ (P : Parser) where
  -- What `stripMarkdown` gives without a cache.
  abbrev pub shown_text : Text → Text
  shown_text source = if text_beq source [] then [] else plain_text P source

  abbrev pub kept_sources : List Text → List Text
  kept_sources h = last_n strip_cache_cap h

  -- The distinct sources that were asked for, the last one at the end.
  abbrev pub noted : List Text → Text → List Text
  noted h source = if text_beq source [] then h else touch source h

  abbrev pub parses_for : List Text → Text → Bool
  parses_for h source = not (text_beq source []) && not (leb 1 (count source (kept_sources h)))

  abbrev pub history : List Text → List Text → List Text
  history h [] = h
  history h (source ∷ sources) = history (noted h source) sources

  abbrev pub misses : List Text → List Text → ℕ
  misses h [] = 0
  misses h (source ∷ sources) =
      (if parses_for h source then 1 else 0) + misses (noted h source) sources

  record Tracks (h : List Text) (s : StripState) : Type 0 where
    distinct : Distinct h
    window : s.cache ≡ pairs_of (plain_text P) (kept_sources h)

  hit :
      (h : List Text) (s : StripState) (source : Text)
      → Tracks h s
      → text_beq source [] ≡ false
      → count source (kept_sources h) ≡ 1
      → strip_markdown P source s ≡ (
        plain_text P source,
        record {
          cache = pairs_of (plain_text P) (kept_sources (touch source h));
          parse_calls = s.parse_calls;
        },
      )
  unfolding strip_markdown touch
  hit h s source t b c =
      let f = plain_text P in
      let there : Map.get source s.cache ≡ some (f source) =
        ap (Map.get source) t.window ∙ get-pairs_of f source (kept_sources h) ∙ rw c refl in
      let gone : count source (remove source (kept_sources h)) ≡ 0 =
        count-remove source source (kept_sources h) ∙ rw (Map.beq_refl source) refl in
      let moved : Map.set source (f source) (Map.delete source s.cache)
          ≡ pairs_of f (kept_sources (touch source h)) =
        ap (λ m. Map.set source (f source) (Map.delete source m)) t.window
        ∙ ap (Map.set source (f source)) (delete-pairs_of f source (kept_sources h))
        ∙ set-pairs_of f source (remove source (kept_sources h)) gone
        ∙ ap (pairs_of f) (sym (last_n-touch_hit strip_cache_cap source h t.distinct c)) in
      rw (b, there) (ap (λ m. (f source, record { cache = m; parse_calls = s.parse_calls })) moved)

  miss :
      (h : List Text) (s : StripState) (source : Text)
      → Tracks h s
      → text_beq source [] ≡ false
      → count source (kept_sources h) ≡ 0
      → strip_markdown P source s ≡ (
        plain_text P source,
        record {
          cache = pairs_of (plain_text P) (kept_sources (touch source h));
          parse_calls = suc s.parse_calls;
        },
      )
  unfolding strip_markdown strip_markdown_uncached
  miss h s source t b c =
      let f = plain_text P in
      let absent : Map.get source s.cache ≡ none =
        ap (Map.get source) t.window ∙ get-pairs_of f source (kept_sources h) ∙ rw c refl in
      let small : length (kept_sources h ++ (source ∷ [])) ≤ suc strip_cache_cap =
        omega
          (arith, length-append (kept_sources h) (source ∷ []), length-last_n strip_cache_cap h) in
      let put : Map.set source (f source) s.cache ≡ pairs_of f (kept_sources h ++ (source ∷ [])) =
        ap (Map.set source (f source)) t.window ∙ set-pairs_of f source (kept_sources h) c in
      let evicts : Map Text Text → Map Text Text =
        λ m. if ltb strip_cache_cap (length m) then evict_oldest m else m in
      let evicted : evicts (Map.set source (f source) s.cache)
          ≡ pairs_of f (kept_sources (touch source h)) =
        ap evicts put
        ∙ evict-pairs_of f strip_cache_cap (kept_sources h ++ (source ∷ []))
            (snoc-Distinct source (kept_sources h) (last_n-Distinct strip_cache_cap h t.distinct) c)
            small
        ∙ ap (pairs_of f) (sym (last_n-touch_miss strip_cache_cap source h t.distinct c)) in
      rw (b, absent)
        (ap (λ m. (f source, record { cache = m; parse_calls = suc s.parse_calls })) evicted)

  answers :
      (h : List Text) (s : StripState) (source : Text)
      → Tracks h s
      → ((strip_markdown P source s).0 ≡ shown_text source)
        × Tracks (noted h source) (strip_markdown P source s).1
        × ((strip_markdown P source s).1.parse_calls
            ≡ s.parse_calls + (if parses_for h source then 1 else 0))
  unfolding strip_markdown
  answers h s source t = elim (Bool-cases (text_beq source [])) [
    | inl b ↦ rw b (refl, t, omega arith)
    | inr b ↦
        let most_one = last_n-Distinct strip_cache_cap h t.distinct source in
        let next = touch-Distinct source h t.distinct in
        elim (Bool-cases (leb 1 (count source (kept_sources h)))) [
          | inl c ↦
              let e = hit h s source t b (ground (arith, most_one)) in
              rw (e, b, c) (refl, record { distinct = next; window = refl }, omega arith)
          | inr c ↦
              let e = miss h s source t b (ground arith) in
              rw (e, b, c) (refl, record { distinct = next; window = refl }, omega arith)
        ]
  ]

  strip_all-Tracks :
      (sources h : List Text) (s : StripState)
      → Tracks h s
      → ((strip_all P sources s).0 ≡ map shown_text sources)
        × Tracks (history h sources) (strip_all P sources s).1
        × ((strip_all P sources s).1.parse_calls ≡ s.parse_calls + misses h sources)
  unfolding strip_all
  strip_all-Tracks [] h s t = (refl, t, omega arith)
  strip_all-Tracks (source ∷ sources) h s t =
      let (same, tracks, counted) = answers h s source t in
      let rest = strip_all-Tracks sources (noted h source) (strip_markdown P source s).1 tracks in
      (rw (same, rest.0) refl, rest.1, omega (arith, counted, rest.2))

  -- The cache cannot be told from its absence, for any texts asked for in any order: each answer is what the
  -- parser gives for the source, and nothing for an empty one. The cache holds the plain texts of the
  -- last 200 distinct sources, in the order of their last uses, and the parser runs for a request exactly
  -- when its source is not among them.
  pub strip_all-shown_text :
      (sources : List Text)
      → let (texts, s) = strip_all P sources reset_strip_markdown_cache in
        (texts ≡ map shown_text sources)
        × (length s.cache ≤ strip_cache_cap)
        × (s.cache ≡ pairs_of (plain_text P) (kept_sources (history [] sources)))
        × (s.parse_calls ≡ misses [] sources)
  unfolding last_n
  strip_all-shown_text sources =
      let start : Tracks [] reset_strip_markdown_cache = record {
        distinct = λ k. omega arith;
        window = refl;
      } in
      let (same, tracks, counted) = strip_all-Tracks sources [] reset_strip_markdown_cache start in
      let size =
        ap (λ m. length m) tracks.window
        ∙ length-pairs_of (plain_text P) (kept_sources (history [] sources))
        ∙ length-last_n strip_cache_cap (history [] sources) in
      (same, omega (arith, size), tracks.window, omega (arith, counted))
