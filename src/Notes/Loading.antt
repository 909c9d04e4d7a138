-- ===== src/Notes/Loading.antt =====
-- packages/state/src/notes-store.ts, `loadAllNotes`: page by page to the end.
use opfs_webauthn.Notes.Cursor.{cursor_text-not_empty, is_empty}
use opfs_webauthn.Notes.Order.{
  IsDescending, IsDistinct, StoredRow, order_desc-IsDescending, where_rows,
}
use opfs_webauthn.Notes.Paging.{
  At, RowIdCodec, cursor_at, cut_page-last, cut_page-more, listing, map-split, page-At,
  row_id_bytes, take-last,
}
use opfs_webauthn.Notes.Sorting.{where_rows-IsDistinct}
use opfs_webauthn.Notes.Table.{clamp, decode_row, is_listed, list_page}
use opfs_webauthn.Prelude.{
  true, All, Bool, Bool-cases, List, Option, Text, ap, arith, drop, false, if◌then◌else◌, inl, inr,
  length, length-drop, ltb, map, none, not, refl, some, suc, sym, zero, ℕ, ◌*◌, ◌++◌, ◌<◌, ◌∙◌, ◌∷◌,
  ◌≡◌, ◌≤◌,
}
use opfs_webauthn.Rpc.Protocol.{EncryptedNoteRow}
use native.Mathlib.Nat.{suc-mul}
use mathlib.Core.Option
use mathlib.Core.List.{append_assoc}

abbrev pub page_size : ℕ
page_size = 200

abbrev pub max_pages : ℕ
max_pages = 200

-- `page` is `repo.listNotes` at a cursor. `none` where it throws, and after `pages` pages with more to come.
unfoldable pub load_all {ℓ} :
    {A : Type ℓ}
    → (pages : ℕ) → (page : Option Text → Option (List A × Option Text)) → (cursor : Option Text)
    → Option (List A)
load_all zero page cursor = none
load_all (suc pages) page cursor = elim (page cursor) [
  | none ↦ none
  | some (rows, last) ↦
      if more last then Option.map (λ rest. rows ++ rest) (load_all pages page last) else some rows
]
  where
    more : Option Text → Bool
    more none = false
    more (some s) = not (is_empty s)

module _ {A : Type 0} (page : Option Text → Option (List A × Option Text)) where
  pub load_all-last :
      (n : ℕ) (cursor : Option Text) (rows : List A)
      → page cursor ≡ some (rows, none)
      → load_all (suc n) page cursor ≡ some rows
  unfolding load_all
  load_all-last n cursor rows e = rw (e, load_all) refl

  pub load_all-ends :
      (n : ℕ) (cursor : Option Text) (rows : List A) (s : Text)
      → page cursor ≡ some (rows, some s)
      → is_empty s ≡ true
      → load_all (suc n) page cursor ≡ some rows
  unfolding load_all
  load_all-ends n cursor rows s e f = rw (e, load_all) (rw f refl)

  pub load_all-fails :
      (n : ℕ) (cursor : Option Text) (rows : List A) (s : Text)
      → page cursor ≡ some (rows, some s)
      → is_empty s ≡ false
      → load_all n page (some s) ≡ none
      → load_all (suc n) page cursor ≡ none
  unfolding load_all
  load_all-fails n cursor rows s e f q = rw (e, load_all) (rw f (rw q refl))

  pub load_all-more :
      (n : ℕ) (cursor : Option Text) (rows rest : List A) (s : Text)
      → page cursor ≡ some (rows, some s)
      → is_empty s ≡ false
      → load_all n page (some s) ≡ some rest
      → load_all (suc n) page cursor ≡ some (rows ++ rest)
  unfolding load_all
  load_all-more n cursor rows rest s e f q = rw (e, load_all) (rw f (rw q refl))

module _ (encode_row_id : List ℕ → Text) (decode_row_id : Text → Option (List ℕ)) where
  -- Loading page by page gives every row of the listing encode_row_id decode_row_id once, in its order, when the pages are enough
  -- for them and the table does not change meanwhile.
  load_all-rest :
      (pages limit : ℕ) (include_archived : Bool) (cursor : Option Text)
      (table rest : List StoredRow)
      → RowIdCodec encode_row_id decode_row_id
      → IsDistinct table
      → All (λ r. length r.id ≡ row_id_bytes) table
      → clamp limit ≡ limit
      → 1 ≤ limit
      → length rest ≤ pages * limit
      → 1 ≤ pages
      → At encode_row_id decode_row_id
          (listing encode_row_id decode_row_id include_archived table)
          cursor
          rest
      → load_all pages
          (λ k. list_page encode_row_id decode_row_id limit k include_archived table)
          cursor
        ≡ some (map (decode_row encode_row_id decode_row_id) rest)
  load_all-rest zero limit include_archived cursor table rest c d w l p q s a = absurd (omega arith)
  load_all-rest (suc n) limit include_archived cursor table rest c d w l p q s a =
      elim (Bool-cases (ltb limit (length rest))) [
        | inr h ↦
            load_all-last pages_of n cursor (map (decode_row encode_row_id decode_row_id) rest) (
              page-At encode_row_id decode_row_id limit include_archived cursor table rest c d w l a
              ∙ ap some (cut_page-last encode_row_id decode_row_id limit rest (ground arith)))
        | inl h ↦
            let (xs, r, e, m) = take-last limit rest p (ground arith) in
            let after : At encode_row_id decode_row_id
                (listing encode_row_id decode_row_id include_archived table)
                (some (cursor_at encode_row_id decode_row_id r)) (drop limit rest) =
              later a xs r m in
            load_all-more pages_of n cursor _ _ (cursor_at encode_row_id decode_row_id r)
              (page-At encode_row_id decode_row_id limit include_archived cursor table rest c d w l
                  a
                ∙ ap some (cut_page-more encode_row_id decode_row_id limit rest r (ground arith) e))
              (cursor_text-not_empty r.updated_day (encode_row_id r.id))
              (load_all-rest n limit include_archived
                (some (cursor_at encode_row_id decode_row_id r)) table (drop limit rest) c d w l p
                (omega (arith, length-drop limit rest, suc-mul n limit)) (enough n (ground arith) q)
                after)
            ∙ ap some (map-split (decode_row encode_row_id decode_row_id) limit rest)
      ]
    where
      pages_of : Option Text → Option (List EncryptedNoteRow × Option Text)
      pages_of k = list_page encode_row_id decode_row_id limit k include_archived table

      enough : (n : ℕ) → limit < length rest → length rest ≤ suc n * limit → 1 ≤ n
      enough zero h q = absurd (omega (arith, suc-mul 0 limit))
      enough (suc n) h q = omega arith

      later :
          At encode_row_id decode_row_id
            (listing encode_row_id decode_row_id include_archived table)
            cursor
            rest
          → (xs : List StoredRow) (r : StoredRow) → rest ≡ xs ++ (r ∷ drop limit rest)
          → At encode_row_id decode_row_id
              (listing encode_row_id decode_row_id include_archived table)
              (some (cursor_at encode_row_id decode_row_id r))
              (drop limit rest)
      later (inl (k, e)) xs r m = inr (xs, r, refl, e ∙ m)
      later (inr (ys, u, k, e)) xs r m = inr (
        ys ++ (u ∷ xs),
        r,
        refl,
        e ∙ ap (λ zs. ys ++ (u ∷ zs)) m ∙ sym (append_assoc ys (u ∷ xs) (r ∷ drop limit rest)),
      )

  -- The loader has every note: on a table of distinct ids of 16 bytes with at most 40000 notes to list,
  -- which does not change meanwhile, it ends without an error, with each of those notes once, the latest
  -- day first and the ids of a day from the greatest down.
  pub load_all-listing :
      (include_archived : Bool) (table : List StoredRow)
      → RowIdCodec encode_row_id decode_row_id
      → IsDistinct table
      → All (λ r. length r.id ≡ row_id_bytes) table
      → length (listing encode_row_id decode_row_id include_archived table) ≤ 40000
      → (load_all max_pages
            (λ k. list_page encode_row_id decode_row_id page_size k include_archived table)
            none
          ≡ some (
              map
                (decode_row encode_row_id decode_row_id)
                (listing encode_row_id decode_row_id include_archived table)))
        × IsDescending (listing encode_row_id decode_row_id include_archived table)
  load_all-listing include_archived table c d w h =
      let visible : StoredRow → Bool = is_listed encode_row_id decode_row_id include_archived in
      (
        load_all-rest max_pages page_size include_archived none table
            (listing encode_row_id decode_row_id include_archived table) c d w refl (omega arith) h
            (omega arith) (inl (refl, refl)),
        order_desc-IsDescending (where_rows visible table) (where_rows-IsDistinct visible table d),
      )
