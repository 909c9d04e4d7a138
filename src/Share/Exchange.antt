-- ===== src/Share/Exchange.antt =====
-- packages/share-client/src/share.ts: a sender and a recipient over the relay.
use opfs_webauthn.Prelude.{
  ==_iff, All, Bool, List, Option, Text, [], ap, arith, false, leb, length, none, refl, some, true,
  ℕ, ◌&&◌, ◌++◌, ◌∙◌, ◌∷◌, ◌≡◌,
}
use opfs_webauthn.Share.Blob.{
  ShareBlobParts, aes_gcm_nonce_len, decode-encode, encode_share_blob, protocol_version,
  x25519_pubkey_len,
}
use opfs_webauthn.Share.Code.{normalize_code}
use opfs_webauthn.Share.Errors.{ok}
use opfs_webauthn.Share.Receive.{Round, open_sealed_blob, or_rest, poll_and_decrypt, turn}
use opfs_webauthn.Share.Send.{get_epk, post_blob, send_share}
use opfs_webauthn.Share.Transport.{
  Response, fetch_epk, is_ok, network_safe, try_download_blob, upload_blob_to,
}

module _ (upper_other : ℕ → Text) (verify_code : Text → List ℕ → Option Bool)
    (seal_share : List ℕ → List ℕ → Option ShareBlobParts)
    (open_share : ShareBlobParts → Option (List ℕ)) where
  pub poll-waits :
      (deadline : ℕ) (ws rs : List Round)
      → All (λ r. turn open_share deadline r ≡ none) ws
      → poll_and_decrypt open_share deadline (ws ++ rs) ≡ poll_and_decrypt open_share deadline rs
  unfolding poll_and_decrypt
  poll-waits deadline [] rs a = refl
  poll-waits deadline (w ∷ ws) rs a =
      ap (λ x. or_rest x (poll_and_decrypt open_share deadline (ws ++ rs))) a.0
      ∙ poll-waits deadline ws rs a.1

  encodes :
      (parts : ShareBlobParts)
      → length parts.sender_pubkey ≡ x25519_pubkey_len
      → length parts.nonce ≡ aes_gcm_nonce_len
      → (blob : List ℕ) × (encode_share_blob parts ≡ ok blob)
  unfolding encode_share_blob
  encodes parts p n = (
    protocol_version ∷ (parts.sender_pubkey ++ (parts.nonce ++ parts.ciphertext)),
    ground (arith, ==_iff (length parts.sender_pubkey) 32, ==_iff (length parts.nonce) 12),
  )

  pub arrives :
      (deadline : ℕ) (parts : ShareBlobParts) (blob plaintext : List ℕ) (r : Response)
      (last : Round) (rs : List Round)
      → encode_share_blob parts ≡ ok blob
      → open_share parts ≡ some plaintext
      → last.aborted ≡ false
      → last.answer ≡ some r
      → is_ok r ≡ true
      → r.body ≡ some blob
      → poll_and_decrypt open_share deadline (last ∷ rs) ≡ some (ok plaintext)
  unfolding poll_and_decrypt turn open_sealed_blob try_download_blob network_safe
  arrives deadline parts blob plaintext r last rs e o a s k b =
      ground (arith, decode-encode parts blob e)

  pub sends :
      (code normalized : Text) (plaintext pubkey blob : List ℕ) (parts : ShareBlobParts)
      (epk uploaded : Response)
      → normalize_code upper_other code ≡ some normalized
      → is_ok epk ≡ true
      → epk.body ≡ some pubkey
      → verify_code normalized pubkey ≡ some true
      → seal_share pubkey plaintext ≡ some parts
      → encode_share_blob parts ≡ ok blob
      → is_ok uploaded ≡ true
      → send_share upper_other verify_code seal_share code plaintext (some epk) (some uploaded)
        ≡ (get_epk normalized ∷ post_blob normalized blob ∷ [], ok tt)
  unfolding send_share fetch_epk upload_blob_to network_safe
  sends code normalized plaintext pubkey blob parts epk uploaded n k b v z e u = ground arith

  -- A text that is sent under a code is received. The relay gives the sender a key that belongs to the
  -- code, the cryptographic core opens what it sealed for that key, and its keys and nonces have their
  -- lengths. Then the sender uploads one blob, and a recipient to whom the relay gives it in some turn,
  -- after turns in which it waited, has the text.
  pub poll-send :
      (code normalized : Text) (plaintext pubkey : List ℕ) (parts : ShareBlobParts)
      (epk uploaded : Response)
      → normalize_code upper_other code ≡ some normalized
      → is_ok epk ≡ true
      → epk.body ≡ some pubkey
      → verify_code normalized pubkey ≡ some true
      → is_ok uploaded ≡ true
      → seal_share pubkey plaintext ≡ some parts
      → length parts.sender_pubkey ≡ x25519_pubkey_len
      → length parts.nonce ≡ aes_gcm_nonce_len
      → open_share parts ≡ some plaintext
      → (blob : List ℕ) × (send_share upper_other verify_code seal_share code plaintext
            (some epk)
            (some uploaded)
          ≡ (get_epk normalized ∷ post_blob normalized blob ∷ [], ok tt))
        × ((deadline status now : ℕ) (asleep : Bool) (ws rs : List Round)
            → All (λ r. turn open_share deadline r ≡ none) ws
            → (leb 200 status && leb status 299) ≡ true
            → let last : Round = record {
              aborted = false;
              answer = some (record { status = status; body = some blob });
              now = now;
              aborted_asleep = asleep;
            } in
              poll_and_decrypt open_share deadline (ws ++ (last ∷ rs)) ≡ some (ok plaintext))
  poll-send code normalized plaintext pubkey parts epk uploaded n k b v u z lp ln o =
      let (blob, e) = encodes parts lp ln in
      (
        blob,
        sends code normalized plaintext pubkey blob parts epk uploaded n k b v z e u,
        λ deadline status now asleep ws rs a s.
            poll-waits deadline ws _ a
            ∙ arrives deadline parts blob plaintext (record { status = status; body = some blob }) _
                rs e o refl refl s refl,
      )
