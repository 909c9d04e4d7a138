-- ===== src/Notes/Table.antt =====
-- packages/storage/src/note-repository.ts, class NoteRepositorySql: each SQL statement as a function on
-- the rows of the table `notes`, whose key is the column `id`.
use opfs_webauthn.Notes.Cursor.{cursor_text, is_empty, parse_cursor}
use opfs_webauthn.Notes.Order.{StoredRow, is_below, order_desc, where_rows}
use opfs_webauthn.Prelude.{
  Bool, List, Option, Text, [], false, if◌then◌else◌, length, ltb, map, max, min, none, some, suc,
  take, text_beq, true, ℕ, ◌&&◌, ◌==◌, ◌||◌, ◌∷◌,
}
use opfs_webauthn.Rpc.Protocol.{EncryptedNoteRow}
use mathlib.Core.Option

abbrev list_limit_min : ℕ
list_limit_min = 1

abbrev list_limit_max : ℕ
list_limit_max = 200

abbrev pub clamp : ℕ → ℕ
clamp limit = max list_limit_min (min limit list_limit_max)

-- The row with the id, if there is one.
unfoldable pub find_row : List ℕ → List StoredRow → Option StoredRow
find_row id [] = none
find_row id (r ∷ rows) = let rest = find_row id rows in if text_beq r.id id then some r else rest

-- `INSERT … ON CONFLICT(id) DO UPDATE`
unfoldable pub put_row : StoredRow → List StoredRow → List StoredRow
put_row r [] = r ∷ []
put_row r (s ∷ rows) =
    let rest = put_row r rows in if text_beq s.id r.id then r ∷ rows else s ∷ rest

-- `UPDATE notes SET archived = 1 WHERE id = ?`
unfoldable pub archive_rows : List ℕ → List StoredRow → List StoredRow
archive_rows id [] = []
archive_rows id (r ∷ rows) =
    let rest = archive_rows id rows in
    if text_beq r.id id then record r { archived = 1 } ∷ rest else r ∷ rest

-- `DELETE FROM notes WHERE id = ?`
unfoldable pub delete_rows : List ℕ → List StoredRow → List StoredRow
delete_rows id [] = []
delete_rows id (r ∷ rows) =
    let rest = delete_rows id rows in if text_beq r.id id then rest else r ∷ rest

abbrev pub last_row : List StoredRow → Option StoredRow
last_row [] = none
last_row (r ∷ []) = some r
last_row (r ∷ s ∷ rows) = last_row (s ∷ rows)

-- `encodeRowId` and `decodeRowId` of the wasm core; `none` where decoding throws.
module _ (encode_row_id : List ℕ → Text) (decode_row_id : Text → Option (List ℕ)) where
  unfoldable pub decode_row : StoredRow → EncryptedNoteRow
  decode_row r = record {
    id = encode_row_id r.id;
    updated_day = r.updated_day;
    archived = r.archived == 1;
    title_nonce = r.title_nonce;
    title_ciphertext = r.title_ciphertext;
    body_nonce = r.body_nonce;
    body_ciphertext = r.body_ciphertext;
  }

  abbrev pub stored_row : List ℕ → EncryptedNoteRow → StoredRow
  stored_row id row = record {
    id = id;
    updated_day = row.updated_day;
    archived = if row.archived then 1 else 0;
    title_nonce = row.title_nonce;
    title_ciphertext = row.title_ciphertext;
    body_nonce = row.body_nonce;
    body_ciphertext = row.body_ciphertext;
  }

  -- `cursorWhere`: the condition that it adds, or `none` where it throws.
  unfoldable pub cursor_where : Option Text → Option (StoredRow → Bool)
  cursor_where none = some (λ r. true)
  cursor_where (some s) = if is_empty s then some (λ r. true) else elim (parse_cursor s) [
    | none ↦ none
    | some (day, id) ↦ elim (decode_row_id id) [
      | none ↦ none
      | some bytes ↦ elim day [ none ↦ some (λ r. false) | some d ↦ some (λ r. is_below r d bytes) ]
    ]
  ]

  abbrev pub is_listed : Bool → StoredRow → Bool
  is_listed include_archived r = include_archived || r.archived == 0

  -- The rows of `list` before they are cut to the limit: one more than the limit tells of a next page.
  unfoldable pub query_page : ℕ → Bool → (StoredRow → Bool) → List StoredRow → List StoredRow
  query_page limit include_archived below table =
      take (suc limit)
        (order_desc (where_rows (λ r. is_listed include_archived r && below r) table))

  unfoldable pub cut_page : ℕ → List StoredRow → List EncryptedNoteRow × Option Text
  cut_page limit raw = (
    map decode_row (take limit raw),
    if ltb limit (length raw)
        then (elim (last_row (take limit raw)) [
          | none ↦ none
          | some r ↦ some (cursor_text r.updated_day (encode_row_id r.id))
        ])
        else none,
  )

  unfoldable pub list_page :
      ℕ → Option Text → Bool → List StoredRow → Option (List EncryptedNoteRow × Option Text)
  unfolding cursor_where query_page cut_page
  list_page limit cursor include_archived table = elim (cursor_where cursor) [
    | none ↦ none
    | some below ↦
        some (cut_page (clamp limit) (query_page (clamp limit) include_archived below table))
  ]

  -- The methods that write: the new table and what they return, or `none` where the id does not decode.
  unfoldable pub upsert_row :
      EncryptedNoteRow → List StoredRow → Option (List StoredRow × EncryptedNoteRow)
  upsert_row row table = elim (decode_row_id row.id) [
    | none ↦ none
    | some id ↦ some (put_row (stored_row id row) table, row)
  ]

  unfoldable pub archive_row : Text → List StoredRow → Option (List StoredRow)
  archive_row id table = Option.map (λ bytes. archive_rows bytes table) (decode_row_id id)

  unfoldable pub delete_row : Text → List StoredRow → Option (List StoredRow)
  delete_row id table = Option.map (λ bytes. delete_rows bytes table) (decode_row_id id)

  unfoldable pub get_row : Text → List StoredRow → Option (Option EncryptedNoteRow)
  get_row id table =
      Option.map (λ bytes. Option.map decode_row (find_row bytes table)) (decode_row_id id)
