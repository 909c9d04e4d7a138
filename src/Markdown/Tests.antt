-- ===== src/Markdown/Tests.antt =====
-- apps/web/src/notes/markdown.tsx: a parser that gives one paragraph for each source, and some requests.
use opfs_webauthn.Map
use opfs_webauthn.Map.{Map}
use opfs_webauthn.Markdown.Blocks.{block_words, plain_text-words}
use opfs_webauthn.Markdown.Cached.{history, kept_sources, misses, shown_text, strip_all-shown_text}
use opfs_webauthn.Markdown.Defs.{
  Mdast, Parser, block_text_segments, child, collapse, is_block_container, is_space, join_spaced,
  last_child, node, plain_text, reset_strip_markdown_cache, strip_all, strip_cache_cap,
  strip_markdown, strip_markdown_uncached, tidy, trim, trim_end, trim_start,
}
use opfs_webauthn.Markdown.Pairs.{pairs_of}
use opfs_webauthn.Prelude.{
  List, Text, [], codes, length, map, nat_eq, refl, text_beq, text_eq, ◌∷◌, ◌≡◌, ◌≤◌,
}

abbrev whole_text : Mdast → Text
whole_text (node kind value ns) = value

abbrev paragraphs : Parser
paragraphs = record {
  parse = λ source. node (codes "root") [] (
      child (node (codes "paragraph") source last_child)
        (child (node (codes "paragraph") (codes "end") last_child) last_child));
  to_string = whole_text;
}

abbrev asked : List Text
asked = codes "a  b" ∷ [] ∷ codes " c" ∷ codes "a  b" ∷ []

answered : strip_all paragraphs asked reset_strip_markdown_cache ≡ (
  codes "a b end" ∷ [] ∷ codes "c end" ∷ codes "a b end" ∷ [],
  record {
    cache = (codes " c", codes "c end") ∷ (codes "a  b", codes "a b end") ∷ [];
    parse_calls = 2;
  },
)
unfolding strip_all strip_markdown strip_markdown_uncached plain_text block_text_segments
    is_block_container join_spaced tidy collapse trim trim_start trim_end is_space strip_cache_cap
    Map.get Map.set Map.delete text_beq
answered = refl

strip_all-shown_text_example :
    let (texts, s) = strip_all paragraphs asked reset_strip_markdown_cache in
    (texts ≡ map (shown_text paragraphs) asked)
    × (length s.cache ≤ strip_cache_cap)
    × (s.cache
        ≡ pairs_of (plain_text paragraphs) (kept_sources paragraphs (history paragraphs [] asked)))
    × (s.parse_calls ≡ misses paragraphs [] asked)
strip_all-shown_text_example = strip_all-shown_text paragraphs asked

plain_text-words_example :
    plain_text paragraphs (codes "a  b")
    ≡ join_spaced (block_words paragraphs (paragraphs.parse (codes "a  b")))
plain_text-words_example = plain_text-words paragraphs (codes "a  b")
