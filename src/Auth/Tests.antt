-- ===== src/Auth/Tests.antt =====
-- packages/auth: the theorems at concrete inputs.
use opfs_webauthn.Auth.Ceremony.{
  Answer, Passkey, Platform, answers, done, enroll, honours, platform, unlock,
}
use opfs_webauthn.Auth.Ceremony.Enrolment.{PlatformLaws, unlock-enroll}
use opfs_webauthn.Auth.Codec.{base64url_to_bytes, bytes_to_base64url}
use opfs_webauthn.Auth.Codec.RoundTrip.{base64url_to_bytes-bytes}
use opfs_webauthn.Auth.Disk.{File, file_store, file_store_laws}
use opfs_webauthn.Auth.Store.{VaultCredential, read_vault_file, throws}
use opfs_webauthn.Auth.Store.Atomic.{StoreCall, cell, perform_all, perform_all-cell, seen, sets}
use opfs_webauthn.Prelude.{
  List, [], arith, codes, false, none, refl, some, true, ℕ, ◌++◌, ◌∷◌, ◌≡◌, ◌⊎◌,
}

abbrev some_bytes : List ℕ
some_bytes = 0 ∷ 255 ∷ 16 ∷ 251 ∷ []

written : bytes_to_base64url some_bytes ≡ codes "AP8Q-w"
unfolding bytes_to_base64url
written = refl

base64url_to_bytes-bytes_example :
    base64url_to_bytes (bytes_to_base64url some_bytes) ≡ some some_bytes
base64url_to_bytes-bytes_example = base64url_to_bytes-bytes some_bytes (omega arith)

abbrev old_credential : VaultCredential ℕ
old_credential = record {
  credential_id = 1 ∷ 2 ∷ [];
  prf_salt = 3 ∷ [];
  wrapped_dek = 4 ∷ [];
  wrap_nonce = 5 ∷ [];
  rp_id = codes "localhost";
  created_at = 6;
}

abbrev new_credential : VaultCredential ℕ
new_credential = record old_credential { prf_salt = 255 ∷ [] }

abbrev empty_disk : File
empty_disk = record { kept = none; swap = []; full = false }

abbrev calls : List (StoreCall file_store file_store_laws)
calls = sets old_credential ∷ sets new_credential ∷ []

perform_all-cell_example :
    let (went, last) = perform_all file_store file_store_laws calls empty_disk in
    (seen file_store file_store_laws last.kept
      ≡ cell file_store file_store_laws calls went (seen file_store file_store_laws none))
    × ((read_vault_file file_store last ≡ throws)
        ⊎ (read_vault_file file_store last
            ≡ cell file_store file_store_laws calls went (seen file_store file_store_laws none)))
perform_all-cell_example =
    perform_all-cell file_store file_store_laws calls empty_disk (omega arith)

-- An authenticator whose PRF output is the salt after the passkey's id, and which gives none on `create`.
abbrev the_passkey : Passkey
the_passkey = record { raw_id = 1 ∷ 2 ∷ []; attachment = some platform; prf = none }

abbrev asserted : List ℕ → List ℕ → Answer
asserted id salt =
    answers (some (record { raw_id = id; attachment = none; prf = some (id ++ salt) }))

-- A vault is the output that its key is wrapped under.
abbrev machine : Platform
machine = record {
  CryptoVault = List ℕ;
  has_credentials = true;
  loads = true;
  hostname = some (codes "notes.example");
  create = λ rp_id salt attachment. answers (some the_passkey);
  get = λ rp_id id salt. asserted id salt;
  enroll_vault = λ output salt. some (output, output, 9 ∷ []);
  unlock_vault = λ output salt wrapped nonce. some wrapped;
}

machine_laws : PlatformLaws machine
machine_laws = record {
  stable = λ rp_id salt attachment passkey output made gives. absurd (ground arith);
  unwraps = λ output salt wrapped nonce v made. ground arith;
}

abbrev enrolled : VaultCredential ℕ
enrolled = record {
  credential_id = 1 ∷ 2 ∷ [];
  prf_salt = 7 ∷ [];
  wrapped_dek = 1 ∷ 2 ∷ 7 ∷ [];
  wrap_nonce = 9 ∷ [];
  rp_id = codes "notes.example";
  created_at = 100;
}

unlock-enroll_example :
    ((unlock machine enrolled).0 ≡ done (1 ∷ 2 ∷ 7 ∷ []))
    × ((passkey : Passkey) × (machine.create enrolled.rp_id (7 ∷ []) (some platform)
          ≡ answers (some passkey))
        × (passkey.raw_id ≡ enrolled.credential_id)
        × (honours (some platform) passkey.attachment ≡ true))
unfolding enroll
unlock-enroll_example =
    unlock-enroll machine machine_laws none (some platform) (7 ∷ []) 100 (1 ∷ 2 ∷ 7 ∷ []) enrolled
      refl
