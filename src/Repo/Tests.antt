-- ===== src/Repo/Tests.antt =====
-- packages/storage/src/repo.ts: the theorems on notes, with a vault that writes the associated data in front
-- of the plain text.
use opfs_webauthn.Notes.Cursor.{has_colon}
use opfs_webauthn.Notes.Displayed.{displayed}
use opfs_webauthn.Notes.Loading.{load_all, max_pages, page_size}
use opfs_webauthn.Notes.Order.{IsDescending, StoredRow, insert, order_desc, where_rows}
use opfs_webauthn.Notes.Paging.{RowIdCodec}
use opfs_webauthn.Notes.Table.{decode_row, list_page}
use opfs_webauthn.Prelude.{
  All, List, Option, Text, [], ap, arith, codes, false, if◌then◌else◌, map, none, refl, some, suc,
  text_beq, text_beq_iff, true, zero, ℕ, ◌++◌, ◌+◌, ◌-◌, ◌==◌, ◌↔◌, ◌∷◌, ◌≡◌, ◌⊎◌,
}
use opfs_webauthn.Repo.Defs.{
  Note, NoteInput, Vault, body_field, decrypt_field, decrypt_row, encrypt_field, encrypt_note,
  list_notes, title_field,
}
use opfs_webauthn.Repo.Listing.{load_all-list_notes}
use opfs_webauthn.Repo.Sealing.{PlaceLaws, VaultLaws, decrypt_row-elsewhere}
use opfs_webauthn.Rpc.Protocol.{EncryptedNoteRow}
use mathlib.Core.List.{Memᴰ}

-- The first list, its end, and the second list.
abbrev seal : List ℕ → List ℕ → List ℕ
seal aad plain = map suc aad ++ (0 ∷ plain)

unseal : List ℕ → List ℕ → Option (List ℕ)
unseal aad [] = none
unseal [] (zero ∷ cipher) = some cipher
unseal [] (suc c ∷ cipher) = none
unseal (a ∷ aad) (zero ∷ cipher) = none
unseal (a ∷ aad) (suc c ∷ cipher) = let rest = unseal aad cipher in if a == c then rest else none

unseal-seal :
    (aad' aad plain : List ℕ)
    → unseal aad' (seal aad plain) ≡ (if text_beq aad' aad then some plain else none)
unfolding unseal text_beq
unseal-seal [] [] plain = refl
unseal-seal [] (a ∷ aad) plain = refl
unseal-seal (b ∷ aad') [] plain = refl
unseal-seal (b ∷ aad') (a ∷ aad) plain = ground (arith, unseal-seal aad' aad plain)

abbrev aad_of : Text → Text → List ℕ
aad_of id field = codes "opfs" ++ (47 ∷ (field ++ (47 ∷ id)))

abbrev vault : Vault
vault = record {
  aad_for = aad_of;
  encrypt = λ nonce aad plain. some (seal aad plain);
  decrypt = λ nonce aad cipher. unseal aad cipher;
  utf8 = λ s. s;
  read_utf8 = λ bytes. some bytes;
}

vault_laws : VaultLaws vault
vault_laws = record {
  IsText = λ s. Unit;
  read_text = λ s t. refl;
  opens = λ n a p c h. ground (arith, unseal-seal a a p, text_beq_iff a a);
}

place_laws : PlaceLaws vault
place_laws = record {
  bound = λ n a p c n' a' h d. ground (arith, unseal-seal a' a p, text_beq_iff a' a);
  row_aad = codes "opfs";
  aad_format = λ id field. refl;
  ascii = λ s a. refl;
}

abbrev input : NoteInput
input = record { id = none; title = codes "milk"; body = codes "two bottles" }

abbrev fresh : Text
fresh = codes "0A"

abbrev row : EncryptedNoteRow
row = record {
  id = fresh;
  updated_day = 20000;
  archived = false;
  title_nonce = 1 ∷ [];
  title_ciphertext = seal (aad_of fresh title_field) (codes "milk");
  body_nonce = 2 ∷ [];
  body_ciphertext = seal (aad_of fresh body_field) (codes "two bottles");
}

abbrev note : Note
note = record {
  id = fresh;
  title = codes "milk";
  body = codes "two bottles";
  updated_day = 20000;
  archived = false;
}

decrypt_row-elsewhere_example :
    (decrypt_row vault (record row { id = codes "0B" }) ≡ none)
    × (decrypt_row vault (record row {
      title_nonce = row.body_nonce;
      title_ciphertext = row.body_ciphertext;
      body_nonce = row.title_nonce;
      body_ciphertext = row.title_ciphertext;
    })
        ≡ none)
unfolding encrypt_note encrypt_field vault_laws
decrypt_row-elsewhere_example =
    decrypt_row-elsewhere vault place_laws vault_laws (1 ∷ []) (2 ∷ []) fresh (codes "0B") 20000
      (codes "milk") (codes "two bottles") row refl tt tt (λ q. ground arith)

abbrev encode_id : List ℕ → Text
encode_id bytes = 65 ∷ map (λ b. b + 100) bytes

decode_each : List ℕ → List ℕ
decode_each [] = []
decode_each (c ∷ cs) = (c - 100) ∷ decode_each cs

abbrev decode_id : Text → Option (List ℕ)
decode_id [] = none
decode_id (c ∷ cs) = some (decode_each cs)

decode_each-map : (bytes : List ℕ) → decode_each (map (λ b. b + 100) bytes) ≡ bytes
unfolding decode_each
decode_each-map [] = refl
decode_each-map (b ∷ bytes) = ground (arith, decode_each-map bytes)

has_colon-map : (bytes : List ℕ) → has_colon (map (λ b. b + 100) bytes) ≡ false
has_colon-map [] = refl
has_colon-map (b ∷ bytes) = ground (arith, has_colon-map bytes)

codec : RowIdCodec encode_id decode_id
codec = record {
  back = λ id l. ap some (decode_each-map id);
  plain = λ id l. has_colon-map id;
  filled = λ id l. refl;
}

abbrev row_id : List ℕ
row_id = 7 ∷ 0 ∷ 0 ∷ 0 ∷ 0 ∷ 0 ∷ 0 ∷ 0 ∷ 0 ∷ 0 ∷ 0 ∷ 0 ∷ 0 ∷ 0 ∷ 0 ∷ 0 ∷ []

abbrev sealed_row : StoredRow
sealed_row = record {
  id = row_id;
  updated_day = 20000;
  archived = 0;
  title_nonce = 1 ∷ [];
  title_ciphertext = seal (aad_of (encode_id row_id) title_field) (codes "milk");
  body_nonce = 2 ∷ [];
  body_ciphertext = seal (aad_of (encode_id row_id) body_field) (codes "two");
}

abbrev read_as : EncryptedNoteRow → Note
read_as r = record {
  id = r.id;
  title = codes "milk";
  body = codes "two";
  updated_day = r.updated_day;
  archived = r.archived;
}

sealed_row-opens :
    decrypt_row vault (decode_row encode_id decode_id sealed_row)
    ≡ some (read_as (decode_row encode_id decode_id sealed_row))
unfolding decrypt_row decrypt_field decode_row unseal
sealed_row-opens = refl

load_all-list_notes_example :
    (load_all max_pages
        (λ k. list_notes vault (list_page encode_id decode_id page_size k false (sealed_row ∷ [])))
        none
      ≡ some (
          map
            (λ r. read_as (decode_row encode_id decode_id r))
            (displayed false (sealed_row ∷ []))))
    × IsDescending (displayed false (sealed_row ∷ []))
    × All (λ r. Memᴰ r (sealed_row ∷ [])) (displayed false (sealed_row ∷ []))
    × All
        (λ r. Memᴰ r (displayed false (sealed_row ∷ [])) ↔ ((false ≡ true) ⊎ (r.archived ≡ 0)))
        (sealed_row ∷ [])
unfolding order_desc insert where_rows
load_all-list_notes_example =
    load_all-list_notes vault read_as encode_id decode_id false (sealed_row ∷ []) codec (tt, tt)
      (refl, tt) (omega arith) (sealed_row-opens, tt)
