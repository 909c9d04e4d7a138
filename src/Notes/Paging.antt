-- ===== src/Notes/Paging.antt =====
-- packages/storage/src/note-repository.ts: what `list` gives at a cursor that an earlier page gave.
-- packages/storage/src/note-repository.ts makes.
use opfs_webauthn.Notes.Cursor.{
  cursor_text, cursor_text-not_empty, has_colon, is_empty, parse_cursor-text,
}
use opfs_webauthn.Notes.Order.{
  IsDistinct, StoredRow, order_desc, order_desc-All, row_lt, where_rows,
}
use opfs_webauthn.Notes.Sorting.{All-middle, order_desc-below, where_rows-All}
use opfs_webauthn.Notes.Table.{
  clamp, cursor_where, cut_page, decode_row, is_listed, last_row, list_page, query_page,
}
use opfs_webauthn.Prelude.{
  All, Bool, List, Option, Text, [], ap, arith, drop, false, inl, inr, length, length-take, map,
  none, refl, some, subst, suc, sym, take, take-append-drop, true, zero, ℕ, ◌&&◌, ◌++◌, ◌<◌, ◌∙◌,
  ◌∷◌, ◌≡◌, ◌≤◌, ◌⊎◌,
}
use mathlib.Core.List.{append_assoc}

last-split :
    (r : StoredRow) (rows : List StoredRow)
    → (xs : List StoredRow) × (l : StoredRow) × (last_row (r ∷ rows) ≡ some l)
      × (r ∷ rows ≡ xs ++ (l ∷ []))
last-split r [] = ([], r, refl, refl)
last-split r (s ∷ rows) = let (xs, l, e, q) = last-split s rows in (r ∷ xs, l, e, ap (◌∷◌ r) q)

-- The rows up to the limit end in the row that the cursor names.
pub take-last :
    (limit : ℕ) (rows : List StoredRow)
    → 1 ≤ limit
    → limit < length rows
    → (xs : List StoredRow) × (l : StoredRow) × (last_row (take limit rows) ≡ some l)
      × (rows ≡ xs ++ (l ∷ drop limit rows))
take-last (suc n) (r ∷ rows) h k =
    let (xs, l, e, q) = last-split r (take n rows) in
    (
      xs,
      l,
      e,
      sym (take-append-drop (suc n) (r ∷ rows))
          ∙ ap (λ zs. zs ++ drop n rows) q
          ∙ append_assoc xs (l ∷ []) (drop n rows),
    )
take-last zero rows h k = absurd (omega arith)
take-last (suc n) [] h k = absurd (omega arith)

take-take : (n : ℕ) (rows : List StoredRow) → take n (take (suc n) rows) ≡ take n rows
take-take zero rows = refl
take-take (suc n) [] = refl
take-take (suc n) (r ∷ rows) = ap (◌∷◌ r) (take-take n rows)

take_all : (n : ℕ) (rows : List StoredRow) → length rows ≤ n → take n rows ≡ rows
take_all zero [] h = refl
take_all zero (r ∷ rows) h = absurd (omega arith)
take_all (suc n) [] h = refl
take_all (suc n) (r ∷ rows) h = ap (◌∷◌ r) (take_all n rows (omega arith))

pub map-split :
    {B : Type 0} (f : StoredRow → B) (n : ℕ) (rows : List StoredRow)
    → map f (take n rows) ++ map f (drop n rows) ≡ map f rows
map-split f zero rows = refl
map-split f (suc n) [] = refl
map-split f (suc n) (r ∷ rows) = ap (◌∷◌ (f r)) (map-split f n rows)

where_rows-true :
    (p : StoredRow → Bool) (rows : List StoredRow)
    → where_rows (λ r. p r && true) rows ≡ where_rows p rows
unfolding where_rows
where_rows-true p [] = refl
where_rows-true p (r ∷ rows) = ground (arith, where_rows-true p rows)

abbrev pub row_id_bytes : ℕ
row_id_bytes = 16

module _ (encode_row_id : List ℕ → Text) (decode_row_id : Text → Option (List ℕ)) where
  -- What the wasm core promises of row ids: 16 bytes encode to a text that decodes to them, that is not
  -- empty, and that has no colon.
  pub record RowIdCodec : Type 0 where
    pub back : (id : List ℕ) → length id ≡ row_id_bytes → decode_row_id (encode_row_id id) ≡ some id
    pub plain : (id : List ℕ) → length id ≡ row_id_bytes → has_colon (encode_row_id id) ≡ false
    pub filled : (id : List ℕ) → length id ≡ row_id_bytes → is_empty (encode_row_id id) ≡ false

  -- The rows of a listing, in the order of their display.
  abbrev pub listing : Bool → List StoredRow → List StoredRow
  listing include_archived table =
      order_desc (where_rows (is_listed encode_row_id decode_row_id include_archived) table)

  abbrev pub cursor_at : StoredRow → Text
  cursor_at r = cursor_text r.updated_day (encode_row_id r.id)

  -- `rest` are the rows of the listing that come after the cursor.
  abbrev pub At : List StoredRow → Option Text → List StoredRow → Type 0
  At all cursor rest =
      ((cursor ≡ none) × (all ≡ rest))
      ⊎ ((xs : List StoredRow) × (r : StoredRow) × (cursor ≡ some (cursor_at r))
          × (all ≡ xs ++ (r ∷ rest)))

  cursor_where-at :
      (r : StoredRow)
      → RowIdCodec
      → length r.id ≡ row_id_bytes
      → cursor_where encode_row_id decode_row_id (some (cursor_at r)) ≡ some (λ s. row_lt s r)
  unfolding cursor_where
  cursor_where-at r c l = rw (cursor_text-not_empty r.updated_day (encode_row_id r.id)) (
      rw (parse_cursor-text r.updated_day (encode_row_id r.id) (c.plain r.id l) (c.filled r.id l))
        (rw (c.back r.id l) refl))

  page-below :
      (limit : ℕ) (include_archived : Bool) (cursor : Option Text) (table rest : List StoredRow)
      (below : StoredRow → Bool)
      → clamp limit ≡ limit
      → cursor_where encode_row_id decode_row_id cursor ≡ some below
      → order_desc (
          where_rows
            (λ r. is_listed encode_row_id decode_row_id include_archived r && below r)
            table)
        ≡ rest
      → list_page encode_row_id decode_row_id limit cursor include_archived table
        ≡ some (cut_page encode_row_id decode_row_id limit (take (suc limit) rest))
  unfolding list_page query_page
  page-below limit include_archived cursor table rest below l e q =
      rw (e, list_page)
        (rw l (
          ap (λ rows. some (cut_page encode_row_id decode_row_id limit (take (suc limit) rows))) q))

  pub page-At :
      (limit : ℕ) (include_archived : Bool) (cursor : Option Text) (table rest : List StoredRow)
      → RowIdCodec
      → IsDistinct table
      → All (λ r. length r.id ≡ row_id_bytes) table
      → clamp limit ≡ limit
      → At (listing include_archived table) cursor rest
      → list_page encode_row_id decode_row_id limit cursor include_archived table
        ≡ some (cut_page encode_row_id decode_row_id limit (take (suc limit) rest))
  unfolding cursor_where
  page-At limit include_archived cursor table rest c d w l (inl (n, e)) =
      page-below limit include_archived cursor table rest (λ r. true) l
        (ap (cursor_where encode_row_id decode_row_id) n)
        (ap order_desc
            (where_rows-true (is_listed encode_row_id decode_row_id include_archived) table)
          ∙ e)
  page-At limit include_archived cursor table rest c d w l (inr (xs, r, n, e)) =
      page-below limit include_archived cursor table rest (λ s. row_lt s r) l
        (ap (cursor_where encode_row_id decode_row_id) n ∙ cursor_where-at r c long)
        (order_desc-below (is_listed encode_row_id decode_row_id include_archived) xs r rest table d
          e)
    where
      listed : StoredRow → Bool
      listed = is_listed encode_row_id decode_row_id include_archived

      long : length r.id ≡ row_id_bytes
      long =
          All-middle (λ s. length s.id ≡ row_id_bytes) xs r rest
            (subst (All (λ s. length s.id ≡ row_id_bytes)) e
              (order_desc-All _ (where_rows listed table) (where_rows-All _ listed table w)))

  pub cut_page-last :
      (limit : ℕ) (rest : List StoredRow)
      → length rest ≤ limit
      → cut_page encode_row_id decode_row_id limit (take (suc limit) rest)
        ≡ (map (decode_row encode_row_id decode_row_id) rest, none)
  unfolding cut_page
  cut_page-last limit rest h =
      rw (take_all (suc limit) rest (omega arith)) (rw (take_all limit rest h) (ground arith))

  pub cut_page-more :
      (limit : ℕ) (rest : List StoredRow) (r : StoredRow)
      → limit < length rest
      → last_row (take limit rest) ≡ some r
      → cut_page encode_row_id decode_row_id limit (take (suc limit) rest)
        ≡ (map (decode_row encode_row_id decode_row_id) (take limit rest), some (cursor_at r))
  unfolding cut_page
  cut_page-more limit rest r h e =
      let long : limit < length (take (suc limit) rest) =
        omega (arith, length-take (suc limit) rest) in
      rw (take-take limit rest) (rw e (ground arith))
