-- ===== src/Auth/Store/Defs.antt =====
-- packages/auth/src/credential-store.ts and types.ts: `serialize`, `deserialize`, and the file in the origin's
-- private file system.
use opfs_webauthn.Map
use opfs_webauthn.Auth.Codec.{base64url_to_bytes, bytes_to_base64url}
use opfs_webauthn.Map.{Map}
use opfs_webauthn.Prelude.{
  Bool, List, Option, Text, [], codes, false, if◌then◌else◌, nat_eq, none, not, some, text_eq, true,
  ℕ, ◌∷◌,
}

pub record VaultCredential (N : Type 0) : Type 0 where
  pub credential_id : List ℕ
  pub prf_salt : List ℕ
  pub wrapped_dek : List ℕ
  pub wrap_nonce : List ℕ
  pub rp_id : Text
  pub created_at : N

-- The value of a field, as far as `typeof` tells it.
pub data Field (N : Type 0) : Type 0 where
  string : Text → Field N
  number : N → Field N
  other : Field N

-- What `JSON.parse` gives. A property of `null` throws, one of a value that is no object is missing.
pub data Parsed (N : Type 0) : Type 0 where
  null : Parsed N
  object : Map Text (Field N) → Parsed N
  no_object : Parsed N

-- A result that is returned, `none` for `null`, or an exception.
pub data Outcome (A : Type 0) : Type 0 where
  returns : Option A → Outcome A
  throws : Outcome A

unfoldable pub as_string : {N : Type 0} → Option (Field N) → Option Text
as_string (some (string s)) = some s
as_string _ = none

unfoldable pub as_number : {N : Type 0} → Option (Field N) → Option N
as_number (some (number n)) = some n
as_number _ = none

infixl 5 ◌>>=◌
abbrev ◌>>=◌ : {A B : Type 0} → Option A → (A → Option B) → Option B
none >>= f = none
some a >>= f = f a

abbrev pub credential_id_key : Text
credential_id_key = codes "credentialId"

abbrev pub prf_salt_key : Text
prf_salt_key = codes "prfSalt"

abbrev pub wrapped_dek_key : Text
wrapped_dek_key = codes "wrappedDek"

abbrev pub wrap_nonce_key : Text
wrap_nonce_key = codes "wrapNonce"

abbrev pub rp_id_key : Text
rp_id_key = codes "rpId"

abbrev pub created_at_key : Text
created_at_key = codes "createdAt"

unfoldable pub serialize : {N : Type 0} → VaultCredential N → Map Text (Field N)
serialize c =
    (credential_id_key, string (bytes_to_base64url c.credential_id))
    ∷ (prf_salt_key, string (bytes_to_base64url c.prf_salt))
    ∷ (wrapped_dek_key, string (bytes_to_base64url c.wrapped_dek))
    ∷ (wrap_nonce_key, string (bytes_to_base64url c.wrap_nonce))
    ∷ (rp_id_key, string c.rp_id)
    ∷ (created_at_key, number c.created_at)
    ∷ []

unfoldable pub read_fields : {N : Type 0} → Map Text (Field N) → Option (VaultCredential N)
unfolding as_string as_number
read_fields fields = do
  id ← as_string (Map.get credential_id_key fields)
  salt ← as_string (Map.get prf_salt_key fields)
  dek ← as_string (Map.get wrapped_dek_key fields)
  nonce ← as_string (Map.get wrap_nonce_key fields)
  rp_id ← as_string (Map.get rp_id_key fields)
  created_at ← as_number (Map.get created_at_key fields)
  id_bytes ← base64url_to_bytes id
  salt_bytes ← base64url_to_bytes salt
  dek_bytes ← base64url_to_bytes dek
  nonce_bytes ← base64url_to_bytes nonce
  some (record {
    credential_id = id_bytes;
    prf_salt = salt_bytes;
    wrapped_dek = dek_bytes;
    wrap_nonce = nonce_bytes;
    rp_id = rp_id;
    created_at = created_at;
  })

-- The argument is what `JSON.parse` gives, `none` where it throws.
unfoldable pub deserialize : {N : Type 0} → Option (Parsed N) → Outcome (VaultCredential N)
unfolding read_fields
deserialize none = returns none
deserialize (some null) = throws
deserialize (some no_object) = returns none
deserialize (some (object fields)) = returns (read_fields fields)

-- Whether the file is there, or the browser refuses the question.
pub data Access : Type 0 where
  found missing fails : Access

-- `JSON`, and the calls of the file system that the store makes. A Boolean tells whether a call went
-- through or threw.
pub record Opfs : Type 1 where
  pub Number : Type 0
  pub Disk : Type 0
  pub parse : Text → Option (Parsed Number)
  pub stringify : Map Text (Field Number) → Text
  pub has_root : Disk → Bool
  pub find : Disk → Access
  pub read : Disk → Option Text
  pub create : Disk → Bool × Disk
  pub create_writable : Disk → Bool × Disk
  pub write : Text → Disk → Bool × Disk
  pub abort : Disk → Bool × Disk
  pub close : Disk → Bool × Disk
  pub remove : Disk → Access × Disk

module _ (O : Opfs) where
  open O use {
    Number, Disk, parse, stringify, has_root, find, read, create, create_writable, write, abort,
    close, remove,
  }

  unfoldable pub read_vault_file : Disk → Outcome (VaultCredential Number)
  unfolding deserialize
  read_vault_file d =
      if has_root d
      then (elim (find d) [
        | missing ↦ returns none
        | fails ↦ throws
        | found ↦ elim (read d) [ none ↦ throws | some raw ↦ deserialize (parse raw) ]
      ])
      else throws

  -- The stream is closed after a write that went through, and aborted after one that threw.
  unfoldable pub write_stream : Text → Disk → Bool × Disk
  write_stream raw d =
      let (written, d') = write raw d in if written then close d' else (false, (abort d').1)

  unfoldable pub write_vault_file : VaultCredential Number → Disk → Bool × Disk
  unfolding serialize write_stream
  write_vault_file c d =
      let (created, d1) = create d in
      let (opened, d2) = create_writable d1 in
      if not (has_root d)
      then (false, d)
      else if not created
      then (false, d1)
      else if not opened
      then (false, d2)
      else write_stream (stringify (serialize c)) d2

  unfoldable pub delete_vault_file : Disk → Bool × Disk
  delete_vault_file d =
      let (removed, d') = remove d in
      if has_root d then (elim removed [ fails ↦ (false, d') | _ ↦ (true, d') ]) else (false, d)
