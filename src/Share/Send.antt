-- ===== src/Share/Send.antt =====
-- packages/share-client/src/share.ts, `sendShare`.
use opfs_webauthn.Prelude.{
  Bool, List, Option, Option-cases, Text, [], ap, arith, false, inl, inr, none, refl, some, subst,
  true, ℕ, ◌++◌, ◌∙◌, ◌∷◌, ◌≡◌,
}
use opfs_webauthn.Share.Blob.{ShareBlobParts, encode_share_blob}
use opfs_webauthn.Share.Code.{normalize_code}
use opfs_webauthn.Share.Errors.{Result, commitment_mismatch, escapes, ok, plain, protocol, throws}
use opfs_webauthn.Share.Transport.{Answer, fetch_epk, upload_blob_to}
use mathlib.Core.List.{Memᴰ}

pub data Request : Type 0 where
  get_epk : (code : Text) → Request
  post_blob : (code : Text) (blob : List ℕ) → Request

-- The cryptographic core, compiled from Rust: whether a pubkey belongs to a code, and sealing a text
-- for a pubkey; `none` is an exception. `upper_other` is `toUpperCase` outside of ASCII.
module _ (upper_other : ℕ → Text) (verify_code : Text → List ℕ → Option Bool)
    (seal_share : List ℕ → List ℕ → Option ShareBlobParts) where
  upload : List Request → Text → Result (List ℕ) → Answer → List Request × Result (Unit {0})
  upload sent code (ok blob) reply = (sent ++ (post_blob code blob ∷ []), upload_blob_to reply)
  upload sent code (throws e) reply = (sent, throws e)
  upload sent code escapes reply = (sent, escapes)

  unfoldable pub sealed_blob : (pubkey plaintext : List ℕ) → Result (List ℕ)
  sealed_blob pubkey plaintext = elim (seal_share pubkey plaintext) [
    | none ↦ escapes
    | some parts ↦ encode_share_blob parts
  ]

  -- What `verifyCode` has said of the key.
  judged :
      Option Bool → Text → (pubkey plaintext : List ℕ) → Answer → List Request × Result (Unit {0})
  unfolding upload sealed_blob
  judged none code pubkey plaintext reply = (get_epk code ∷ [], escapes)
  judged (some false) code pubkey plaintext reply =
      (get_epk code ∷ [], throws (plain commitment_mismatch))
  judged (some true) code pubkey plaintext reply =
      upload (get_epk code ∷ []) code (sealed_blob pubkey plaintext) reply

  seal_for : Text → List ℕ → Result (List ℕ) → Answer → List Request × Result (Unit {0})
  unfolding judged
  seal_for code plaintext (throws e) reply = (get_epk code ∷ [], throws e)
  seal_for code plaintext escapes reply = (get_epk code ∷ [], escapes)
  seal_for code plaintext (ok pubkey) reply =
      judged (verify_code code pubkey) code pubkey plaintext reply

  -- The requests that `sendShare` sends, given the server's answers to them, and its result.
  unfoldable pub send_share :
      (code : Text) (plaintext : List ℕ) (epk uploaded : Answer) → List Request × Result (Unit {0})
  unfolding seal_for
  send_share code plaintext epk uploaded = elim (normalize_code upper_other code) [
    | none ↦ ([], throws (plain protocol))
    | some normalized ↦ seal_for normalized plaintext (fetch_epk epk) uploaded
  ]

  sealed_blob-ok :
      (pubkey plaintext blob : List ℕ)
      → sealed_blob pubkey plaintext ≡ ok blob
      → (parts : ShareBlobParts) × (seal_share pubkey plaintext ≡ some parts)
        × (encode_share_blob parts ≡ ok blob)
  unfolding sealed_blob
  sealed_blob-ok pubkey plaintext blob e = elim (Option-cases (seal_share pubkey plaintext)) [
    | inl f ↦ absurd (ground arith)
    | inr (parts, f) ↦ (parts, f, ground arith)
  ]

  none_posted :
      (code normalized : Text) (blob : List ℕ)
      → Memᴰ (post_blob normalized blob) (get_epk code ∷ [])
      → ⊥
  none_posted code normalized blob (Memᴰ.head q) = cc
  none_posted code normalized blob (Memᴰ.tail q) = elim q [ ]

  upload-posted :
      (code normalized : Text) (blob : List ℕ) (r : Result (List ℕ)) (reply : Answer)
      → Memᴰ (post_blob normalized blob) (upload (get_epk code ∷ []) code r reply).0
      → (code ≡ normalized) × (r ≡ ok blob)
  unfolding upload
  upload-posted code normalized blob (ok b) reply (Memᴰ.head q) = cc
  upload-posted code normalized blob (ok b) reply (Memᴰ.tail (Memᴰ.head q)) = (cc, cc)
  upload-posted code normalized blob (ok b) reply (Memᴰ.tail (Memᴰ.tail q)) = elim q [ ]
  upload-posted code normalized blob (throws e) reply m =
      absurd (none_posted code normalized blob m)
  upload-posted code normalized blob escapes reply m = absurd (none_posted code normalized blob m)

  abbrev IsSealed : (pubkey plaintext blob : List ℕ) → Type 0
  IsSealed pubkey plaintext blob =
      (parts : ShareBlobParts) × (seal_share pubkey plaintext ≡ some parts)
      × (encode_share_blob parts ≡ ok blob)

  judged-verified :
      (v : Option Bool) (code normalized : Text) (pubkey plaintext blob : List ℕ) (reply : Answer)
      → Memᴰ (post_blob normalized blob) (judged v code pubkey plaintext reply).0
      → (code ≡ normalized) × (v ≡ some true) × IsSealed pubkey plaintext blob
  unfolding judged
  judged-verified none code normalized pubkey plaintext blob reply m =
      absurd (none_posted code normalized blob m)
  judged-verified (some false) code normalized pubkey plaintext blob reply m =
      absurd (none_posted code normalized blob m)
  judged-verified (some true) code normalized pubkey plaintext blob reply m =
      let (same, b) = upload-posted code normalized blob (sealed_blob pubkey plaintext) reply m in
      (same, refl, sealed_blob-ok pubkey plaintext blob b)

  seal_for-verified :
      (code normalized : Text) (plaintext blob : List ℕ) (r : Result (List ℕ)) (reply : Answer)
      → Memᴰ (post_blob normalized blob) (seal_for code plaintext r reply).0
      → (code ≡ normalized)
        × ((pubkey : List ℕ) × (r ≡ ok pubkey)
            × (verify_code code pubkey ≡ some true)
            × IsSealed pubkey plaintext blob)
  unfolding seal_for
  seal_for-verified code normalized plaintext blob (throws e) reply m =
      absurd (none_posted code normalized blob m)
  seal_for-verified code normalized plaintext blob escapes reply m =
      absurd (none_posted code normalized blob m)
  seal_for-verified code normalized plaintext blob (ok pubkey) reply m =
      let (same, v, b) =
        judged-verified (verify_code code pubkey) code normalized pubkey plaintext blob reply m in
      (same, (pubkey, refl, v, b))

  -- A blob is uploaded only under the normal form of the code that the sender typed, only if the key
  -- that the relay sent belongs to that code, and it is the text sealed for that key.
  pub send_share-verified :
      (code normalized : Text) (plaintext blob : List ℕ) (epk uploaded : Answer)
      → Memᴰ (post_blob normalized blob) (send_share code plaintext epk uploaded).0
      → (pubkey : List ℕ) × (normalize_code upper_other code ≡ some normalized)
        × (fetch_epk epk ≡ ok pubkey)
        × (verify_code normalized pubkey ≡ some true)
        × ((parts : ShareBlobParts) × (seal_share pubkey plaintext ≡ some parts)
            × (encode_share_blob parts ≡ ok blob))
  unfolding send_share
  send_share-verified code normalized plaintext blob epk uploaded m =
      elim (Option-cases (normalize_code upper_other code)) [
        | inl e ↦ absurd (nothing (subst (λ o. Memᴰ (post_blob normalized blob) (sent o).0) e m))
        | inr (c, e) ↦
            let (same, (pubkey, f, v, b)) =
              seal_for-verified c normalized plaintext blob (fetch_epk epk) uploaded
                (subst (λ o. Memᴰ (post_blob normalized blob) (sent o).0) e m) in
            (pubkey, e ∙ ap some same, f, subst (λ d. verify_code d pubkey ≡ some true) same v, b)
      ]
    where
      sent : Option Text → List Request × Result (Unit {0})
      sent o = elim o [
        | none ↦ ([], throws (plain protocol))
        | some c ↦ seal_for c plaintext (fetch_epk epk) uploaded
      ]

      nothing : Memᴰ (post_blob normalized blob) [] → ⊥
      nothing m = elim m [ ]
