-- ===== src/Repo/Sealing.antt =====
-- packages/storage/src/repo.ts, row-codec.ts: what is sealed into a row is what is read from it, in its place
-- only.
use opfs_webauthn.Prelude.{
  All, List, Option-cases, Text, [], ap, arith, false, inl, inr, none, some, some_inj, sym, ℕ, ◌++◌,
  ◌<◌, ◌∙◌, ◌∷◌, ◌≡◌, ◌≢◌,
}
use opfs_webauthn.Repo.Defs.{
  EncryptedField, Vault, body_field, decrypt_field, decrypt_row, encrypt_field, encrypt_note,
  title_field,
}
use opfs_webauthn.Rpc.Protocol.{EncryptedNoteRow}

abbrev pub slash : ℕ
slash = 47

-- What the code relies on of the vault and the codecs: a ciphertext opens under the nonce and the
-- associated data that it was made with, and text without lone surrogates survives UTF-8.
pub record VaultLaws (V : Vault) : Type 1 where
  pub IsText : Text → Type 0
  pub read_text : (s : Text) → IsText s → V.read_utf8 (V.utf8 s) ≡ some s
  pub opens :
      (nonce aad plain cipher : List ℕ)
      → V.encrypt nonce aad plain ≡ some cipher
      → V.decrypt nonce aad cipher ≡ some plain

-- What binds a ciphertext to its place: it opens under no other associated data, and these are the core's
-- prefix, the field and the row id as UTF-8, with slashes between. ASCII is its own UTF-8.
pub record PlaceLaws (V : Vault) : Type 0 where
  pub bound :
      (nonce aad plain cipher nonce' aad' : List ℕ)
      → V.encrypt nonce aad plain ≡ some cipher
      → aad' ≢ aad
      → V.decrypt nonce' aad' cipher ≡ none
  pub row_aad : List ℕ
  pub aad_format :
      (id field : Text)
      → V.aad_for id field ≡ row_aad ++ (slash ∷ (V.utf8 field ++ (slash ∷ V.utf8 id)))
  pub ascii : (s : Text) → All (λ c. c < 128) s → V.utf8 s ≡ s

tail_inj : (c : ℕ) (xs ys : List ℕ) → c ∷ xs ≡ c ∷ ys → xs ≡ ys
tail_inj c xs ys q = cc q

prefix_cancels : (p xs ys : List ℕ) → p ++ xs ≡ p ++ ys → xs ≡ ys
prefix_cancels [] xs ys q = q
prefix_cancels (c ∷ p) xs ys q = prefix_cancels p xs ys (cc q)

module _ (V : Vault) where
  abbrev title_of : EncryptedNoteRow → EncryptedField
  title_of row = record { nonce = row.title_nonce; ciphertext = row.title_ciphertext }

  abbrev body_of : EncryptedNoteRow → EncryptedField
  body_of row = record { nonce = row.body_nonce; ciphertext = row.body_ciphertext }

  encrypt_note-fields :
      (tn bn : List ℕ) (id : Text) (day : ℕ) (title body : Text) (row : EncryptedNoteRow)
      → encrypt_note V tn bn id day title body ≡ some row
      → (encrypt_field V tn id title_field title ≡ some (title_of row))
        × (encrypt_field V bn id body_field body ≡ some (body_of row))
        × (row.id ≡ id)
        × (row.updated_day ≡ day)
        × (row.archived ≡ false)
  unfolding encrypt_note
  encrypt_note-fields tn bn id day title body row h =
      elim (Option-cases (encrypt_field V tn id title_field title)) [
        | inl f ↦ ground arith
        | inr (t, f) ↦ elim (Option-cases (encrypt_field V bn id body_field body)) [
          | inl g ↦ ground arith
          | inr (b, g) ↦ ground arith
        ]
      ]

module _ (V : Vault) (P : PlaceLaws V) where
  decrypt-elsewhere :
      (nonce : List ℕ) (id field plain id' field' : Text) (e : EncryptedField)
      → encrypt_field V nonce id field plain ≡ some e
      → V.aad_for id' field' ≢ V.aad_for id field
      → decrypt_field V id' field' e ≡ none
  unfolding encrypt_field decrypt_field
  decrypt-elsewhere nonce id field plain id' field' e h n =
      elim (Option-cases (V.encrypt nonce (V.aad_for id field) (V.utf8 plain))) [
        | inl f ↦ ground arith
        | inr (c, f) ↦ ground (
          arith,
          P.bound nonce (V.aad_for id field) (V.utf8 plain) c e.nonce (V.aad_for id' field') f n,
        )
      ]

  -- The associated data of the titles of two rows.
  aad_for-row :
      (id other : Text)
      → V.aad_for other title_field ≡ V.aad_for id title_field
      → V.utf8 other ≡ V.utf8 id
  aad_for-row id other q =
      let framed = sym (P.aad_format other title_field) ∙ q ∙ P.aad_format id title_field in
      let rest = tail_inj slash _ _ (prefix_cancels P.row_aad _ _ framed) in
      tail_inj slash _ _ (prefix_cancels (V.utf8 title_field) _ _ rest)

  -- The associated data of the title and of the body.
  aad_for-field : (id : Text) → V.aad_for id title_field ≢ V.aad_for id body_field
  aad_for-field id q =
      let framed = sym (P.aad_format id title_field) ∙ q ∙ P.aad_format id body_field in
      let title = P.ascii title_field (ground arith) in
      let body = P.ascii body_field (ground arith) in
      let rest = prefix_cancels P.row_aad _ _ framed in ground (arith, rest, title, body)

  -- A sealed note opens in its place only. A row that is filed under another id, and one whose title and body
  -- are exchanged, do not decrypt. Neither id has a lone surrogate, UTF-8 can be read back, a ciphertext opens
  -- under the associated data that it was made with only, and `aadFor` has the core's format.
  pub decrypt_row-elsewhere :
      (W : VaultLaws V) (tn bn : List ℕ) (id other : Text) (day : ℕ) (title body : Text)
      (row : EncryptedNoteRow)
      → encrypt_note V tn bn id day title body ≡ some row
      → W.IsText id
      → W.IsText other
      → other ≢ id
      → (decrypt_row V (record row { id = other }) ≡ none)
        × (decrypt_row V (record row {
          title_nonce = row.body_nonce;
          title_ciphertext = row.body_ciphertext;
          body_nonce = row.title_nonce;
          body_ciphertext = row.title_ciphertext;
        })
            ≡ none)
  unfolding decrypt_row
  decrypt_row-elsewhere W tn bn id other day title body row h t t' n =
      let (ht, hb, hid, hd, ha) = encrypt_note-fields V tn bn id day title body row h in
      let apart : V.utf8 other ≢ V.utf8 id =
        λ u. n (some_inj _ _ (sym (W.read_text other t') ∙ ap V.read_utf8 u ∙ W.read_text id t)) in
      let moved =
        decrypt-elsewhere tn id title_field title other title_field (title_of V row) ht
          (λ q. apart (aad_for-row id other q)) in
      let swapped =
        decrypt-elsewhere bn id body_field body id title_field (body_of V row) hb
          (aad_for-field id) in
      (ground (arith, moved), ground (arith, swapped, hid))
