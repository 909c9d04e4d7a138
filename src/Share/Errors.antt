-- ===== src/Share/Errors.antt =====
-- packages/share-client/src/errors.ts: the typed errors of the share flow. Their message texts are left
-- out. A call that can throw returns a result: `escapes` is an exception that is no `ShareError`.
use opfs_webauthn.Prelude.{Option, if◌then◌else◌, none, some, ℕ, ◌==◌}

pub data ShareErrorKind : Type 0 where
  network rendezvous_not_found rendezvous_expired commitment_mismatch : ShareErrorKind
  blob_already_uploaded blob_unavailable rate_limited origin_denied protocol : ShareErrorKind

pub record ShareError : Type 0 where
  pub kind : ShareErrorKind
  pub status : Option ℕ

pub data Result {ℓ} (A : Type ℓ) : Type ℓ where
  ok : A → Result A
  throws : ShareError → Result A
  escapes : Result A

abbrev pub plain : ShareErrorKind → ShareError
plain kind = record { kind = kind; status = none }

pub data Context : Type 0 where
  fetch_rendezvous upload_blob download_blob mint : Context

not_found : Context → ShareErrorKind
not_found download_blob = blob_unavailable
not_found fetch_rendezvous = rendezvous_not_found
not_found upload_blob = rendezvous_not_found
not_found mint = rendezvous_not_found

-- `shareErrorForStatus`.
unfoldable pub share_error_for_status : ℕ → Context → ShareError
unfolding not_found
share_error_for_status status context =
    if status == 403
    then record { kind = origin_denied; status = some status }
    else if status == 404
    then record { kind = not_found context; status = some status }
    else if status == 409
    then record { kind = blob_already_uploaded; status = some status }
    else if status == 410
    then record { kind = rendezvous_expired; status = some status }
    else if status == 429
    then record { kind = rate_limited; status = some status }
    else record { kind = protocol; status = some status }
