-- ===== src/Notes/Writing.antt =====
-- packages/storage/src/note-repository.ts: what `get` sees after a write, and that ids stay distinct.
use opfs_webauthn.Notes.Order.{IsDistinct, IsNew, StoredRow}
use opfs_webauthn.Notes.Table.{
  archive_row, archive_rows, decode_row, delete_row, delete_rows, find_row, get_row, put_row,
  stored_row, upsert_row,
}
use opfs_webauthn.Prelude.{
  All, Bool-cases, List, Option, Text, [], arith, if_false, if_true, if◌then◌else◌, inl, inr, none,
  refl, some, subst, sym, text_beq, text_beq_iff, true, ℕ, ◌∷◌, ◌≡◌, ◌≢◌,
}
use opfs_webauthn.Rpc.Protocol.{EncryptedNoteRow}
use mathlib.Core.Option

put_row-IsNew :
    (r s : StoredRow) (table : List StoredRow)
    → s.id ≢ r.id
    → IsNew s table
    → IsNew s (put_row r table)
unfolding put_row
put_row-IsNew r s [] n h = (n, tt)
put_row-IsNew r s (u ∷ table) n h = elim (Bool-cases (text_beq u.id r.id)) [
  | inl e ↦ subst (IsNew s) (sym (if_true (text_beq u.id r.id) _ _ e)) (n, h.1)
  | inr e ↦
      subst (IsNew s) (sym (if_false (text_beq u.id r.id) _ _ e))
        (h.0, put_row-IsNew r s table n h.1)
]

-- An `upsert` leaves the ids of a table distinct.
pub put_row-IsDistinct :
    (r : StoredRow) (table : List StoredRow) → IsDistinct table → IsDistinct (put_row r table)
unfolding put_row
put_row-IsDistinct r [] d = (tt, tt)
put_row-IsDistinct r (s ∷ table) d = elim (Bool-cases (text_beq s.id r.id)) [
  | inl e ↦
      subst IsDistinct (sym (if_true (text_beq s.id r.id) _ _ e))
        (subst (λ k. All (λ u. k ≢ u.id) table) ((text_beq_iff s.id r.id).0 e) d.0, d.1)
  | inr e ↦ subst IsDistinct (sym (if_false (text_beq s.id r.id) _ _ e)) (
    put_row-IsNew r s table (λ q. ground (arith, text_beq_iff s.id r.id)) d.0,
    put_row-IsDistinct r table d.1,
  )
]

find-put :
    (r : StoredRow) (id : List ℕ) (table : List StoredRow)
    → find_row id (put_row r table) ≡ (if text_beq r.id id then some r else find_row id table)
unfolding find_row put_row
find-put r id [] = refl
find-put r id (s ∷ table) =
    ground (
      arith,
      find-put r id table,
      text_beq_iff s.id r.id,
      text_beq_iff r.id id,
      text_beq_iff s.id id,
    )

find-archive :
    (i id : List ℕ) (table : List StoredRow)
    → find_row id (archive_rows i table) ≡ (
        if text_beq i id
        then Option.map (λ (r : StoredRow). record r { archived = 1 }) (find_row id table)
        else find_row id table)
unfolding find_row archive_rows
find-archive i id [] = ground arith
find-archive i id (s ∷ table) =
    ground
      (arith, find-archive i id table, text_beq_iff s.id i, text_beq_iff i id, text_beq_iff s.id id)

find-delete :
    (i id : List ℕ) (table : List StoredRow)
    → find_row id (delete_rows i table) ≡ (if text_beq i id then none else find_row id table)
unfolding find_row delete_rows
find-delete i id [] = ground arith
find-delete i id (s ∷ table) =
    ground
      (arith, find-delete i id table, text_beq_iff s.id i, text_beq_iff i id, text_beq_iff s.id id)

module _ (encode_row_id : List ℕ → Text) (decode_row_id : Text → Option (List ℕ)) where
  decode-stored :
      (bytes : List ℕ) (row : EncryptedNoteRow)
      → encode_row_id bytes ≡ row.id
      → decode_row encode_row_id decode_row_id (stored_row encode_row_id decode_row_id bytes row)
        ≡ row
  unfolding decode_row
  decode-stored bytes row e = ground arith

  -- What was written is what is read. After an `upsert` that does not throw, `get` gives the row at its
  -- id, and at any other id what it gave before. Ids decode to bytes and encode back.
  pub get_row-upsert :
      (row : EncryptedNoteRow) (id : Text) (bytes other : List ℕ) (table : List StoredRow)
      → decode_row_id row.id ≡ some bytes
      → encode_row_id bytes ≡ row.id
      → decode_row_id id ≡ some other
      → (table' : List StoredRow) × (upsert_row encode_row_id decode_row_id row table
          ≡ some (table', row))
        × (get_row encode_row_id decode_row_id id table' ≡ (
            if text_beq bytes other
            then some (some row)
            else get_row encode_row_id decode_row_id id table))
  unfolding upsert_row get_row
  get_row-upsert row id bytes other table d e o =
      let put : StoredRow = stored_row encode_row_id decode_row_id bytes row in
      (
        put_row put table,
        ground arith,
        ground (arith, find-put put other table, decode-stored bytes row e),
      )

  -- After an archiving, `get` gives the row at that id marked as archived, if there is one, and at any
  -- other id what it gave before; after a deletion it gives none at that id.
  pub get_row-remove :
      (name id : Text) (bytes other : List ℕ) (table : List StoredRow)
      → decode_row_id name ≡ some bytes
      → decode_row_id id ≡ some other
      → (archived deleted : List StoredRow) × (archive_row encode_row_id decode_row_id name table
          ≡ some archived)
        × (delete_row encode_row_id decode_row_id name table ≡ some deleted)
        × (get_row encode_row_id decode_row_id id archived ≡ (
            if text_beq bytes other
            then Option.map
                (Option.map (λ (r : EncryptedNoteRow). record r { archived = true }))
                (get_row encode_row_id decode_row_id id table)
            else get_row encode_row_id decode_row_id id table))
        × (get_row encode_row_id decode_row_id id deleted ≡ (
            if text_beq bytes other
            then some none
            else get_row encode_row_id decode_row_id id table))
  unfolding archive_row delete_row get_row decode_row
  get_row-remove name id bytes other table d o = (
    archive_rows bytes table,
    delete_rows bytes table,
    ground arith,
    ground arith,
    ground (arith, find-archive bytes other table),
    ground (arith, find-delete bytes other table),
  )
