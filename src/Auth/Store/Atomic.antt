-- ===== src/Auth/Store/Atomic.antt =====
-- packages/auth/src/credential-store.ts: a call of the store does all that it should or changes nothing.
use opfs_webauthn.Map
use opfs_webauthn.Auth.Codec.Groups.{AreBytes}
use opfs_webauthn.Auth.Codec.RoundTrip.{base64url_to_bytes-bytes}
use opfs_webauthn.Auth.Store.Defs.{
  Access, Field, Opfs, Outcome, VaultCredential, delete_vault_file, deserialize, fails, found,
  missing, object, read_fields, read_vault_file, returns, serialize, throws, write_stream,
  write_vault_file,
}
use opfs_webauthn.Map.{Map}
use opfs_webauthn.Prelude.{
  All, Bool, Bool-cases, List, Option, Option-cases, Text, [], ap, arith, false, if◌then◌else◌, inl,
  inr, nat_eq, none, refl, some, subst, sym, text_beq, text_eq, true, ◌∙◌, ◌∷◌, ◌≡◌, ◌⊎◌,
}

-- What the store relies on. A new file is empty. What a stream has been given is in the file once the
-- stream is closed without an exception, and the file is as it was until then.
pub record OpfsLaws (O : Opfs) : Type 1 where
  pub contents : O.Disk → Option Text
  pub parse-stringify :
      (fields : Map Text (Field O.Number)) → O.parse (O.stringify fields) ≡ some (object fields)
  pub parse_nil : O.parse [] ≡ none
  pub find_missing : (d : O.Disk) → O.find d ≡ missing → contents d ≡ none
  pub read_contents :
      (d : O.Disk) (raw : Text) → O.find d ≡ found → O.read d ≡ some raw → contents d ≡ some raw
  pub create_contents :
      (d : O.Disk)
      → (contents (O.create d).1 ≡ contents d)
        ⊎ ((contents d ≡ none) × (contents (O.create d).1 ≡ some []))
  pub create_writable_contents : (d : O.Disk) → contents (O.create_writable d).1 ≡ contents d
  pub write_contents : (raw : Text) (d : O.Disk) → contents (O.write raw d).1 ≡ contents d
  pub abort_contents : (d : O.Disk) → contents (O.abort d).1 ≡ contents d
  pub close_commits :
      (raw : Text) (d : O.Disk)
      → (O.write raw d).0 ≡ true
      → (O.close (O.write raw d).1).0 ≡ true
      → contents (O.close (O.write raw d).1).1 ≡ some raw
  pub close_fails : (d : O.Disk) → (O.close d).0 ≡ false → contents (O.close d).1 ≡ contents d
  pub remove_found : (d : O.Disk) → (O.remove d).0 ≡ found → contents (O.remove d).1 ≡ none
  pub remove_missing : (d : O.Disk) → (O.remove d).0 ≡ missing → contents (O.remove d).1 ≡ none
  pub remove_fails : (d : O.Disk) → (O.remove d).0 ≡ fails → contents (O.remove d).1 ≡ contents d

pub Access-cases : (a : Access) → (a ≡ found) ⊎ (a ≡ missing) ⊎ (a ≡ fails)
Access-cases found = inl refl
Access-cases missing = inr (inl refl)
Access-cases fails = inr (inr refl)

abbrev pub AreByteFields : {N : Type 0} → VaultCredential N → Type 0
AreByteFields c =
    AreBytes c.credential_id × AreBytes c.prf_salt × AreBytes c.wrapped_dek × AreBytes c.wrap_nonce

-- What is serialized is what is read.
pub deserialize-serialize :
    {N : Type 0} (c : VaultCredential N)
    → AreByteFields c
    → deserialize (some (object (serialize c))) ≡ returns (some c)
unfolding deserialize serialize read_fields Map.get text_beq
deserialize-serialize c (hi, hs, hd, hn) = rw (
  base64url_to_bytes-bytes c.credential_id hi,
  base64url_to_bytes-bytes c.prf_salt hs,
  base64url_to_bytes-bytes c.wrapped_dek hd,
  base64url_to_bytes-bytes c.wrap_nonce hn,
)

module _ (O : Opfs) (L : OpfsLaws O) where
  open L use {
    contents, parse-stringify, parse_nil, find_missing, read_contents, create_contents,
    create_writable_contents, write_contents, abort_contents, close_commits, close_fails,
    remove_found, remove_missing, remove_fails,
  }

  -- What the file stands for. A file that holds no credential is as good as none.
  pub seen : Option Text → Outcome (VaultCredential O.Number)
  seen none = returns none
  seen (some raw) = deserialize (O.parse raw)

  seen_nil : seen (some []) ≡ returns none
  unfolding seen deserialize
  seen_nil = rw parse_nil

  read_vault_file-seen :
      (d : O.Disk) → (read_vault_file O d ≡ throws) ⊎ (read_vault_file O d ≡ seen (contents d))
  unfolding read_vault_file seen
  read_vault_file-seen d = elim (Bool-cases (O.has_root d)) [
    | inr h ↦ inl (rw h)
    | inl h ↦ elim (Access-cases (O.find d)) [
      | inl f ↦ elim (Option-cases (O.read d)) [
        | inl n ↦ inl (ground arith)
        | inr (raw, r) ↦ inr (ground (arith, read_contents d raw f r))
      ]
      | inr (inl f) ↦ inr (ground (arith, find_missing d f))
      | inr (inr f) ↦ inl (ground arith)
    ]
  ]

  seen-stored :
      (c : VaultCredential O.Number)
      → AreByteFields c
      → seen (some (O.stringify (serialize c))) ≡ returns (some c)
  unfolding seen
  seen-stored c h = ap deserialize (parse-stringify (serialize c)) ∙ deserialize-serialize c h

  write_stream-contents :
      (raw : Text) (d : O.Disk)
      → contents (write_stream O raw d).1
        ≡ (if (write_stream O raw d).0 then some raw else contents d)
  unfolding write_stream
  write_stream-contents raw d =
      let d' = (O.write raw d).1 in
      ground (arith, write_contents raw d, abort_contents d', close_commits raw d, close_fails d')

  create-seen : (d : O.Disk) → seen (contents (O.create d).1) ≡ seen (contents d)
  unfolding seen
  create-seen d = elim (create_contents d) [
    | inl same ↦ ap seen same
    | inr (gone, new) ↦ ap seen new ∙ seen_nil ∙ sym (ap seen gone)
  ]

  write_vault_file-seen :
      (c : VaultCredential O.Number) (d : O.Disk)
      → AreByteFields c
      → seen (contents (write_vault_file O c d).1)
        ≡ (if (write_vault_file O c d).0 then returns (some c) else seen (contents d))
  unfolding write_vault_file
  write_vault_file-seen c d h =
      let raw = O.stringify (serialize c) in
      let d1 = (O.create d).1 in
      let d2 = (O.create_writable d1).1 in
      let opened = ap seen (create_writable_contents d1) ∙ create-seen d in
      let stored : seen (some raw) ≡ returns (some c) = seen-stored c h in
      ground (arith, create-seen d, opened, ap seen (write_stream-contents raw d2), stored)

  delete_vault_file-seen :
      (d : O.Disk)
      → seen (contents (delete_vault_file O d).1)
        ≡ (if (delete_vault_file O d).0 then returns none else seen (contents d))
  unfolding delete_vault_file seen
  delete_vault_file-seen d = ground (arith, remove_found d, remove_missing d, remove_fails d)

  pub data StoreCall : Type 0 where
    sets : VaultCredential O.Number → StoreCall
    clears : StoreCall

  abbrev pub IsStorable : StoreCall → Type 0
  IsStorable (sets c) = AreByteFields c
  IsStorable clears = Unit

  unfoldable pub perform : StoreCall → O.Disk → Bool × O.Disk
  perform (sets c) d = write_vault_file O c d
  perform clears d = delete_vault_file O d

  -- The calls in their order: which of them went through, and the disk after them.
  unfoldable pub perform_all : List StoreCall → O.Disk → List Bool × O.Disk
  perform_all [] d = ([], d)
  perform_all (call ∷ calls) d =
      let (went, d') = perform call d in
      let (rest, last) = perform_all calls d' in (went ∷ rest, last)

  abbrev pub aim : StoreCall → Outcome (VaultCredential O.Number)
  aim (sets c) = returns (some c)
  aim clears = returns none

  -- The store as a cell: a call that went through replaces what it holds.
  abbrev pub cell :
      List StoreCall
      → List Bool
      → Outcome (VaultCredential O.Number)
      → Outcome (VaultCredential O.Number)
  cell [] went v = v
  cell (call ∷ calls) [] v = v
  cell (call ∷ calls) (b ∷ went) v = cell calls went (if b then aim call else v)

  perform-seen :
      (call : StoreCall) (d : O.Disk)
      → IsStorable call
      → seen (contents (perform call d).1)
        ≡ (if (perform call d).0 then aim call else seen (contents d))
  unfolding perform
  perform-seen (sets c) d h = write_vault_file-seen c d h
  perform-seen clears d h = delete_vault_file-seen d

  cells :
      (calls : List StoreCall) (d : O.Disk)
      → All IsStorable calls
      → let (went, last) = perform_all calls d in
        seen (contents last) ≡ cell calls went (seen (contents d))
  unfolding perform_all
  cells [] d h = refl
  cells (call ∷ calls) d (hc, h) =
      let (went, d') = perform call d in
      cells calls d' h ∙ ap (cell calls (perform_all calls d').0) (perform-seen call d hc)

  -- The store is a cell. Whatever calls are made, and whichever of them throw: the file stands for what
  -- the last call that went through has set or cleared, and for what it stood for before if none
  -- did. A read gives that or throws. A credential's fields are bytes.
  pub perform_all-cell :
      (calls : List StoreCall) (d : O.Disk)
      → All IsStorable calls
      → let (went, last) = perform_all calls d in
        (seen (contents last) ≡ cell calls went (seen (contents d)))
        × ((read_vault_file O last ≡ throws)
            ⊎ (read_vault_file O last ≡ cell calls went (seen (contents d))))
  perform_all-cell calls d h =
      let (went, last) = perform_all calls d in
      let e = cells calls d h in
      (
        e,
        subst (λ v. (read_vault_file O last ≡ throws) ⊎ (read_vault_file O last ≡ v)) e
            (read_vault_file-seen last),
      )
