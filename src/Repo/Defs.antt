-- ===== src/Repo/Defs.antt =====
-- packages/storage/src/repo.ts, class Repo, and row-codec.ts, class RowCodec.
use opfs_webauthn.Prelude.{Bool, List, Option, Text, [], codes, false, none, some, ℕ, ◌/◌, ◌∷◌}
use opfs_webauthn.Rpc.Protocol.{EncryptedNoteRow}

-- `CryptoVault` and `aadFor` of the wasm core, and `TextEncoder` and the fatal `TextDecoder`. `none` is an
-- exception.
pub record Vault : Type 0 where
  pub aad_for : Text → Text → List ℕ
  pub encrypt : List ℕ → List ℕ → List ℕ → Option (List ℕ)
  pub decrypt : List ℕ → List ℕ → List ℕ → Option (List ℕ)
  pub utf8 : Text → List ℕ
  pub read_utf8 : List ℕ → Option Text

pub record EncryptedField : Type 0 where
  pub nonce : List ℕ
  pub ciphertext : List ℕ

pub record Note : Type 0 where
  pub id : Text
  pub title : Text
  pub body : Text
  pub updated_day : ℕ
  pub archived : Bool

pub record NoteInput : Type 0 where
  pub id : Option Text
  pub title : Text
  pub body : Text

abbrev pub title_field : Text
title_field = codes "title"

abbrev pub body_field : Text
body_field = codes "body"

-- `Math.floor(Date.now() / 1000 / SECONDS_PER_DAY)`.
unfoldable pub day_bucket : ℕ → ℕ
day_bucket now = now / 86400000

abbrev pub or_fresh : Option Text → Text → Text
or_fresh none fresh = fresh
or_fresh (some id) fresh = id

module _ (V : Vault) where
  open V use {aad_for, encrypt, decrypt, utf8, read_utf8}

  -- The nonce stands for the bytes of `freshNonce`.
  unfoldable pub encrypt_field : List ℕ → Text → Text → Text → Option EncryptedField
  encrypt_field nonce row_id field plaintext =
      elim (encrypt nonce (aad_for row_id field) (utf8 plaintext)) [
        | none ↦ none
        | some ciphertext ↦ some (record { nonce = nonce; ciphertext = ciphertext })
      ]

  unfoldable pub decrypt_field : Text → Text → EncryptedField → Option Text
  decrypt_field row_id field encrypted =
      elim (decrypt encrypted.nonce (aad_for row_id field) encrypted.ciphertext) [
        | none ↦ none
        | some bytes ↦ read_utf8 bytes
      ]

  unfoldable pub encrypt_note : List ℕ → List ℕ → Text → ℕ → Text → Text → Option EncryptedNoteRow
  unfolding encrypt_field
  encrypt_note title_nonce body_nonce id updated_day title body =
      elim (encrypt_field title_nonce id title_field title) [
        | none ↦ none
        | some t ↦ elim (encrypt_field body_nonce id body_field body) [
          | none ↦ none
          | some b ↦ some (record {
            id = id;
            updated_day = updated_day;
            archived = false;
            title_nonce = t.nonce;
            title_ciphertext = t.ciphertext;
            body_nonce = b.nonce;
            body_ciphertext = b.ciphertext;
          })
        ]
      ]

  unfoldable pub decrypt_row : EncryptedNoteRow → Option Note
  unfolding decrypt_field
  decrypt_row row =
      elim (decrypt_field row.id title_field
        (record { nonce = row.title_nonce; ciphertext = row.title_ciphertext })) [
          | none ↦ none
          | some title ↦
              elim (decrypt_field row.id body_field
                (record { nonce = row.body_nonce; ciphertext = row.body_ciphertext })) [
                  | none ↦ none
                  | some body ↦ some (record {
                    id = row.id;
                    title = title;
                    body = body;
                    updated_day = row.updated_day;
                    archived = row.archived;
                  })
                ]
        ]

  -- The row that `upsertNote` sends to the worker, and the note that it returns once the worker has
  -- answered. The arguments are two nonces, what `generateRowId` would give, and the clock.
  unfoldable pub upsert_note :
      List ℕ → List ℕ → Text → ℕ → NoteInput → Option (EncryptedNoteRow × Note)
  unfolding encrypt_note
  upsert_note title_nonce body_nonce fresh now input =
      let id = or_fresh input.id fresh in
      elim (encrypt_note title_nonce body_nonce id (day_bucket now) input.title input.body) [
        | none ↦ none
        | some row ↦ some (
          row,
          record {
            id = id;
            title = input.title;
            body = input.body;
            updated_day = day_bucket now;
            archived = false;
          },
        )
      ]

  -- `getNote`, given the worker's answer.
  unfoldable pub get_note : Option EncryptedNoteRow → Option (Option Note)
  unfolding decrypt_row
  get_note none = some none
  get_note (some row) = elim (decrypt_row row) [ none ↦ none | some note ↦ some (some note) ]

  -- `res.rows.map(...)`, which throws if one row does not decrypt.
  unfoldable pub decrypt_rows : List EncryptedNoteRow → Option (List Note)
  decrypt_rows [] = some []
  decrypt_rows (row ∷ rows) =
      let rest = decrypt_rows rows in
      elim (decrypt_row row) [
        | none ↦ none
        | some n ↦ elim rest [ none ↦ none | some ns ↦ some (n ∷ ns) ]
      ]

  -- `listNotes`, given the worker's answer.
  unfoldable pub list_notes :
      Option (List EncryptedNoteRow × Option Text) → Option (List Note × Option Text)
  unfolding decrypt_rows
  list_notes none = none
  list_notes (some (rows, next_cursor)) = elim (decrypt_rows rows) [
    | none ↦ none
    | some ns ↦ some (ns, next_cursor)
  ]
