-- ===== src/Repo/Listing.antt =====
-- packages/storage/src/repo.ts, `listNotes`, under packages/state/src/notes-store.ts, `loadAllNotes`.
use opfs_webauthn.Notes.Cursor.{is_empty}
use opfs_webauthn.Notes.Displayed.{displayed, displayed_iff, displayed-mem, listing-displayed}
use opfs_webauthn.Notes.Loading.{
  load_all, load_all-ends, load_all-fails, load_all-last, load_all-listing, load_all-more,
  max_pages, page_size,
}
use opfs_webauthn.Notes.Order.{IsDescending, IsDistinct, StoredRow, order_desc-All}
use opfs_webauthn.Notes.Paging.{RowIdCodec, listing, row_id_bytes}
use opfs_webauthn.Notes.Sorting.{where_rows-All}
use opfs_webauthn.Notes.Table.{decode_row, is_listed, list_page}
use opfs_webauthn.Prelude.{
  All, Bool, Bool-cases, List, Option, Option-cases, Text, [], ap, arith, inl, inr, length, map,
  none, refl, some, some_inj, subst, suc, sym, true, zero, ℕ, ◌++◌, ◌↔◌, ◌∙◌, ◌∷◌, ◌≡◌, ◌≤◌, ◌⊎◌,
}
use opfs_webauthn.Repo.Defs.{Note, Vault, decrypt_row, decrypt_rows, list_notes}
use opfs_webauthn.Rpc.Protocol.{EncryptedNoteRow}
use mathlib.Core.List.{Memᴰ}

map-append : {A B : Type 0} (f : A → B) (xs ys : List A) → map f (xs ++ ys) ≡ map f xs ++ map f ys
map-append f [] ys = refl
map-append f (x ∷ xs) ys = ap (λ l. f x ∷ l) (map-append f xs ys)

map-map :
    {A B C : Type 0} (g : B → C) (f : A → B) (xs : List A)
    → map g (map f xs) ≡ map (λ x. g (f x)) xs
map-map g f [] = refl
map-map g f (x ∷ xs) = ap (λ l. g (f x) ∷ l) (map-map g f xs)

module _ (V : Vault) (note_of : EncryptedNoteRow → Note) where
  abbrev Opens : EncryptedNoteRow → Type 0
  Opens row = decrypt_row V row ≡ some (note_of row)

  decrypt_rows-Opens :
      (rows : List EncryptedNoteRow)
      → All Opens rows
      → decrypt_rows V rows ≡ some (map note_of rows)
  unfolding decrypt_rows
  decrypt_rows-Opens [] a = refl
  decrypt_rows-Opens (row ∷ rows) a = ground (arith, decrypt_rows-Opens rows a.1)

  All-left : (xs ys : List EncryptedNoteRow) → All Opens (xs ++ ys) → All Opens xs
  All-left [] ys a = tt
  All-left (x ∷ xs) ys a = (a.0, All-left xs ys a.1)

  All-right : (xs ys : List EncryptedNoteRow) → All Opens (xs ++ ys) → All Opens ys
  All-right [] ys a = a
  All-right (x ∷ xs) ys a = All-right xs ys a.1

  list_notes-Opens :
      (page_read : Option (List EncryptedNoteRow × Option Text)) (rows : List EncryptedNoteRow)
      (following : Option Text)
      → page_read ≡ some (rows, following)
      → All Opens rows
      → list_notes V page_read ≡ some (map note_of rows, following)
  unfolding list_notes
  list_notes-Opens page_read rows following e a =
      rw (e, list_notes) (rw (decrypt_rows-Opens rows a) refl)

  missing :
      (n : ℕ) (page : Option Text → Option (List EncryptedNoteRow × Option Text))
      (cursor : Option Text)
      → page cursor ≡ none
      → load_all (suc n) page cursor ≡ none
  unfolding load_all
  missing n page cursor f = rw (f, load_all) refl

  -- Reading the pages and decrypting them is decrypting what is read.
  load_all-Opens :
      (n : ℕ) (page : Option Text → Option (List EncryptedNoteRow × Option Text))
      (cursor : Option Text) (rows : List EncryptedNoteRow)
      → load_all n page cursor ≡ some rows
      → All Opens rows
      → load_all n (λ k. list_notes V (page k)) cursor ≡ some (map note_of rows)
  unfolding load_all
  load_all-Opens zero page cursor rows e a = absurd (ground arith)
  load_all-Opens (suc n) page cursor rows e a = elim (Option-cases (page cursor)) [
    | inl f ↦ absurd (cc (e, missing n page cursor f))
    | inr ((rs, none), f) ↦
        let same : rs ≡ rows = some_inj _ _ (sym (load_all-last page n cursor rs f) ∙ e) in
        let read = list_notes-Opens (page cursor) rs none f (subst (All Opens) (sym same) a) in
        load_all-last (λ k. list_notes V (page k)) n cursor (map note_of rs) read
        ∙ ap (λ l. some (map note_of l)) same
    | inr ((rs, some s), f) ↦ elim (Bool-cases (is_empty s)) [
      | inl b ↦
          let same : rs ≡ rows = some_inj _ _ (sym (load_all-ends page n cursor rs s f b) ∙ e) in
          let read =
            list_notes-Opens (page cursor) rs (some s) f (subst (All Opens) (sym same) a) in
          load_all-ends (λ k. list_notes V (page k)) n cursor (map note_of rs) s read b
          ∙ ap (λ l. some (map note_of l)) same
      | inr b ↦ elim (Option-cases (load_all n page (some s))) [
        | inl q ↦ absurd (cc (e, load_all-fails page n cursor rs s f b q))
        | inr (rest, q) ↦
            let same : rs ++ rest ≡ rows =
              some_inj _ _ (sym (load_all-more page n cursor rs rest s f b q) ∙ e) in
            let both = subst (All Opens) (sym same) a in
            let read = list_notes-Opens (page cursor) rs (some s) f (All-left rs rest both) in
            let later = load_all-Opens n page (some s) rest q (All-right rs rest both) in
            load_all-more (λ k. list_notes V (page k)) n cursor (map note_of rs) (map note_of rest)
              s read b later
            ∙ ap some (sym (map-append note_of rs rest) ∙ ap (map note_of) same)
      ]
    ]
  ]

  All-decode_row :
      (encode_row_id : List ℕ → Text) (decode_row_id : Text → Option (List ℕ))
      (rows : List StoredRow)
      → All (λ r. Opens (decode_row encode_row_id decode_row_id r)) rows
      → All Opens (map (decode_row encode_row_id decode_row_id) rows)
  All-decode_row encode decode [] a = tt
  All-decode_row encode decode (r ∷ rows) a = (a.0, All-decode_row encode decode rows a.1)

  load_all-listed :
      (encode_row_id : List ℕ → Text) (decode_row_id : Text → Option (List ℕ))
      (include_archived : Bool) (table : List StoredRow)
      → RowIdCodec encode_row_id decode_row_id
      → IsDistinct table
      → All (λ r. length r.id ≡ row_id_bytes) table
      → length (listing encode_row_id decode_row_id include_archived table) ≤ 40000
      → All (λ r. Opens (decode_row encode_row_id decode_row_id r)) table
      → (load_all max_pages
            (λ k.
              list_notes V
                (list_page encode_row_id decode_row_id page_size k include_archived table))
            none
          ≡ some (
              map
                (λ r. note_of (decode_row encode_row_id decode_row_id r))
                (listing encode_row_id decode_row_id include_archived table)))
        × IsDescending (listing encode_row_id decode_row_id include_archived table)
  load_all-listed encode decode archived table c d w h a =
      let dec = decode_row encode decode in
      let rows = listing encode decode archived table in
      let each =
        order_desc-All (λ r. Opens (dec r)) _
          (where_rows-All (λ r. Opens (dec r)) (is_listed encode decode archived) table a) in
      let (whole, falls) = load_all-listing encode decode archived table c d w h in
      (
        load_all-Opens max_pages (λ k. list_page encode decode page_size k archived table) none
              (map dec rows) whole (All-decode_row encode decode rows each)
            ∙ ap some (map-map note_of dec rows),
        falls,
      )

  -- Every note is shown. The table stays the same while the pages are read, and every row of it decrypts, as
  -- the rows do that `upsertNote` has sealed. Then the store gets, from its pages of 200, the notes of the rows
  -- that are to be shown, in strictly falling order. They are rows of the table, and a row of the table is
  -- among them just if archived ones are asked for or its `archived` is 0. Row ids are distinct and have
  -- their length, their codec has its laws, and at most 40,000 rows are shown.
  pub load_all-list_notes :
      (encode_row_id : List ℕ → Text) (decode_row_id : Text → Option (List ℕ))
      (include_archived : Bool) (table : List StoredRow)
      → RowIdCodec encode_row_id decode_row_id
      → IsDistinct table
      → All (λ r. length r.id ≡ row_id_bytes) table
      → length (displayed include_archived table) ≤ 40000
      → All (λ r. Opens (decode_row encode_row_id decode_row_id r)) table
      → (load_all max_pages
            (λ k.
              list_notes V
                (list_page encode_row_id decode_row_id page_size k include_archived table))
            none
          ≡ some (
              map
                (λ r. note_of (decode_row encode_row_id decode_row_id r))
                (displayed include_archived table)))
        × IsDescending (displayed include_archived table)
        × All (λ r. Memᴰ r table) (displayed include_archived table)
        × All
            (λ r.
              Memᴰ r (displayed include_archived table)
              ↔ ((include_archived ≡ true) ⊎ (r.archived ≡ 0)))
            table
  load_all-list_notes encode decode archived table c d w h a =
      let same = listing-displayed encode decode archived table in
      let few = subst (λ rows. length rows ≤ 40000) (sym same) h in
      let (whole, falls) = load_all-listed encode decode archived table c d w few a in
      (
        whole ∙ ap (λ rows. some (map (λ r. note_of (decode_row encode decode r)) rows)) same,
        subst IsDescending same falls,
        displayed-mem archived table,
        displayed_iff archived table,
      )
