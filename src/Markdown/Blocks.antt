-- ===== src/Markdown/Blocks.antt =====
-- apps/web/src/notes/markdown.tsx: the plain text of a note, by the blocks of its parsed text.
use opfs_webauthn.Markdown.Defs.{
  Mdast, Mdasts, Parser, all_text_segments, block_text_segments, child, is_block_container,
  join_spaced, last_child, node, plain_text, push_text,
}
use opfs_webauthn.Markdown.Words.{all_words, tidy-words, words, words-join_spaced}
use opfs_webauthn.Prelude.{
  Bool, Bool-cases, List, Text, [], ap, arith, codes, false, if◌then◌else◌, inl, inr, refl, sym,
  text_beq, ◌++◌, ◌||◌, ◌∙◌, ◌∷◌, ◌≡◌,
}
use mathlib.Core.List.{append-nil, append_assoc}

all_words-append : (ss ts : List Text) → all_words (ss ++ ts) ≡ all_words ss ++ all_words ts
unfolding all_words
all_words-append [] ts = refl
all_words-append (s ∷ ss) ts =
    ap (λ ws. words s ++ ws) (all_words-append ss ts)
    ∙ sym (append_assoc (words s) (all_words ss) (all_words ts))

all_words-push_text :
    (s : Text) (out : List Text) → all_words (push_text s out) ≡ all_words out ++ words s
unfolding all_words words
all_words-push_text [] out = sym (append-nil (all_words out))
all_words-push_text (c ∷ s) out =
    all_words-append out ((c ∷ s) ∷ [])
    ∙ ap (λ ws. all_words out ++ ws) (append-nil (words (c ∷ s)))

-- The types of nodes whose children are blocks of their own: the document, lists, their items, and quotes.
abbrev pub block_holders : List Text
block_holders = codes "root" ∷ codes "blockquote" ∷ codes "list" ∷ codes "listItem" ∷ []

abbrev pub is_among : Text → List Text → Bool
is_among kind [] = false
is_among kind (k ∷ ks) = text_beq kind k || is_among kind ks

is_block_container_lem : (kind : Text) → is_block_container kind ≡ is_among kind block_holders
unfolding is_block_container
is_block_container_lem kind = ground arith

module _ (P : Parser) where
  -- The words of the blocks that hold text, in the order of the document.
  abbrev mutual
    pub block_words : Mdast → List Text
    block_words (node kind value last_child) = words (P.to_string (node kind value last_child))
    block_words (node kind value (child n ns)) =
        let rest = block_words n ++ blocks_words ns in
        if is_among kind block_holders
        then rest
        else words (P.to_string (node kind value (child n ns)))

    pub blocks_words : Mdasts → List Text
    blocks_words last_child = []
    blocks_words (child n ns) = block_words n ++ blocks_words ns

  mutual
    unfolding block_text_segments

    segments-words :
        (n : Mdast) (out : List Text)
        → all_words (block_text_segments P n out) ≡ all_words out ++ block_words n
    segments-words (node kind value last_child) out =
        all_words-push_text (P.to_string (node kind value last_child)) out
    segments-words (node kind value (child n ns)) out =
        elim (Bool-cases (is_among kind block_holders)) [
          | inr b ↦
              rw (is_block_container_lem kind, b)
                (all_words-push_text (P.to_string (node kind value (child n ns))) out)
          | inl b ↦
              rw (is_block_container_lem kind, b)
                (all_segments-words ns (block_text_segments P n out)
                  ∙ ap (λ ws. ws ++ blocks_words ns) (segments-words n out)
                  ∙ append_assoc (all_words out) (block_words n) (blocks_words ns))
        ]

    all_segments-words :
        (ns : Mdasts) (out : List Text)
        → all_words (all_text_segments P ns out) ≡ all_words out ++ blocks_words ns
    all_segments-words last_child out = sym (append-nil (all_words out))
    all_segments-words (child n ns) out =
        all_segments-words ns (block_text_segments P n out)
        ∙ ap (λ ws. ws ++ blocks_words ns) (segments-words n out)
        ∙ append_assoc (all_words out) (block_words n) (blocks_words ns)

  -- The plain text of a source is the words of its blocks, in order, with one space between any two, where the
  -- document, lists, list items and quotes are parted into the blocks that they hold, and any other node that
  -- has children is one block.
  pub plain_text-words :
      (source : Text) → plain_text P source ≡ join_spaced (block_words (P.parse source))
  unfolding plain_text all_words
  plain_text-words source =
      let segments = block_text_segments P (P.parse source) [] in
      tidy-words (join_spaced segments)
      ∙ ap join_spaced (words-join_spaced segments ∙ segments-words (P.parse source) [])
