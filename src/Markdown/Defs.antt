-- ===== src/Markdown/Defs.antt =====
-- apps/web/src/notes/markdown.tsx: which links are external, and the plain text of a note.
-- What `remark-parse` and `mdast-util-to-string` give is a parameter.
-- A node of the parsed text. A node without `children` has none.
use opfs_webauthn.Map
use opfs_webauthn.Map.{Map}
use opfs_webauthn.Prelude.{
  Bool, List, Option, Text, [], codes, false, if◌then◌else◌, leb, length, ltb, map, nat_eq, none,
  some, starts_with, suc, text_beq, text_eq, true, ℕ, ◌&&◌, ◌++◌, ◌+◌, ◌==◌, ◌||◌, ◌∷◌,
}
use opfs_webauthn.Share.Errors.{plain}

mutual
  pub data Mdast : Type 0 where
    node : (kind value : Text) → Mdasts → Mdast

  pub data Mdasts : Type 0 where
    last_child : Mdasts
    child : Mdast → Mdasts → Mdasts

pub record Parser : Type 0 where
  pub parse : Text → Mdast
  pub to_string : Mdast → Text

-- `\s` of a regular expression, which is also what `trim` cuts.
abbrev pub spaces : List ℕ
spaces = 9 ∷ 10 ∷ 11 ∷ 12 ∷ 13 ∷ 32 ∷ 160 ∷ 5760 ∷ 8232 ∷ 8233 ∷ 8239 ∷ 8287 ∷ 12288 ∷ 65279 ∷ []

abbrev pub mem_code : ℕ → List ℕ → Bool
mem_code c [] = false
mem_code c (d ∷ ds) = d == c || mem_code c ds

unfoldable pub is_space : ℕ → Bool
is_space c = mem_code c spaces || leb 8192 c && leb c 8202

abbrev pub lower_ascii : ℕ → ℕ
lower_ascii c = if leb 65 c && leb c 90 then c + 32 else c

unfoldable pub is_http : Text → Bool
unfolding starts_with
is_http href =
    let lower = map lower_ascii href in
    starts_with (codes "http://") lower || starts_with (codes "https://") lower

unfoldable pub is_external_href : Option Text → Bool
unfolding is_http starts_with
is_external_href none = false
is_external_href (some href) =
    if text_beq href []
    then false
    else if starts_with (codes "#") href
    then false
    else if starts_with (codes "//") href
    then true
    else if starts_with (codes "/") href || starts_with (codes ".") href
    then false
    else is_http href

pub record LinkAttributes : Type 0 where
  pub href : Option Text
  pub rel : Option Text
  pub target : Option Text

unfoldable pub link : Option Text → LinkAttributes
unfolding is_external_href
link href = record {
  href = href;
  rel = if is_external_href href then some (codes "noopener noreferrer") else none;
  target = if is_external_href href then some (codes "_blank") else none;
}

unfoldable pub is_block_container : Text → Bool
is_block_container kind =
    text_beq kind (codes "root")
    || text_beq kind (codes "list")
    || text_beq kind (codes "listItem")
    || text_beq kind (codes "blockquote")

-- `if (text) out.push(text)`.
abbrev pub push_text : Text → List Text → List Text
push_text [] out = out
push_text (c ∷ s) out = out ++ ((c ∷ s) ∷ [])

module _ (P : Parser) where
  unfoldable mutual
    unfolding is_block_container

    pub block_text_segments : Mdast → List Text → List Text
    block_text_segments (node kind value last_child) out =
        push_text (P.to_string (node kind value last_child)) out
    block_text_segments (node kind value (child n ns)) out =
        let rest = all_text_segments ns (block_text_segments n out) in
        if is_block_container kind
        then rest
        else push_text (P.to_string (node kind value (child n ns))) out

    pub all_text_segments : Mdasts → List Text → List Text
    all_text_segments last_child out = out
    all_text_segments (child n ns) out = all_text_segments ns (block_text_segments n out)

unfoldable pub join_spaced : List Text → Text
join_spaced [] = []
join_spaced (s ∷ []) = s
join_spaced (s ∷ t ∷ ts) = s ++ (32 ∷ join_spaced (t ∷ ts))

-- `replace(/\s+/g, " ")`, before which a space was or was not read.
unfoldable pub collapse : (after_space : Bool) → Text → Text
unfolding is_space
collapse b [] = []
collapse b (c ∷ s) =
    if is_space c
    then (if b then collapse true s else 32 ∷ collapse true s)
    else c ∷ collapse false s

unfoldable pub trim_start : Text → Text
unfolding is_space
trim_start [] = []
trim_start (c ∷ s) = if is_space c then trim_start s else c ∷ s

unfoldable pub trim_end : Text → Text
unfolding is_space
trim_end [] = []
trim_end (c ∷ s) = let rest = trim_end s in if is_space c && text_beq rest [] then [] else c ∷ rest

unfoldable pub trim : Text → Text
unfolding trim_start trim_end
trim s = trim_end (trim_start s)

unfoldable pub tidy : Text → Text
unfolding collapse trim
tidy s = trim (collapse false s)

unfoldable pub strip_cache_cap : ℕ
strip_cache_cap = 200

-- `STRIP_CACHE` and `stripParseCalls`.
pub record StripState : Type 0 where
  pub cache : Map Text Text
  pub parse_calls : ℕ

abbrev pub reset_strip_markdown_cache : StripState
reset_strip_markdown_cache = record { cache = []; parse_calls = 0 }

abbrev pub evict_oldest : Map Text Text → Map Text Text
evict_oldest [] = []
evict_oldest ((oldest, plain) ∷ m) = Map.delete oldest ((oldest, plain) ∷ m)

module _ (P : Parser) where
  unfoldable pub plain_text : Text → Text
  unfolding block_text_segments join_spaced tidy
  plain_text source = tidy (join_spaced (block_text_segments P (P.parse source) []))

  unfoldable pub strip_markdown_uncached : Text → StripState → Text × StripState
  unfolding plain_text
  strip_markdown_uncached source s =
      (plain_text source, record { cache = s.cache; parse_calls = suc s.parse_calls })

  unfoldable pub strip_markdown : Text → StripState → Text × StripState
  unfolding strip_markdown_uncached strip_cache_cap Map.get Map.set Map.delete
  strip_markdown source s = if text_beq source [] then ([], s) else (elim (Map.get source s.cache) [
    | some cached ↦ (
      cached,
      record {
        cache = Map.set source cached (Map.delete source s.cache);
        parse_calls = s.parse_calls;
      },
    )
    | none ↦
        let (result, s') = strip_markdown_uncached source s in
        let m = Map.set source result s'.cache in
        (
          result,
          record {
            cache = if ltb strip_cache_cap (length m) then evict_oldest m else m;
            parse_calls = s'.parse_calls;
          },
        )
  ])

  unfoldable pub strip_all : List Text → StripState → List Text × StripState
  unfolding strip_markdown
  strip_all [] s = ([], s)
  strip_all (source ∷ sources) s =
      let (plain, s1) = strip_markdown source s in
      let (texts, s2) = strip_all sources s1 in (plain ∷ texts, s2)
