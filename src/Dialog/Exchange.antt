-- ===== src/Dialog/Exchange.antt =====
-- apps/web/src/share: a note from one device to another.
use opfs_webauthn.Dialog.Defs.{
  SharedNote, Wire, WireLaws, after_poll, decode_shared_note, encode_shared_note, frees, polled,
  polls, receive, saves, shared_note_of, upserts,
}
use opfs_webauthn.Prelude.{
  All, Bool, List, Option, Text, [], ap, arith, false, none, refl, some, true, ℕ, ◌++◌, ◌∙◌, ◌∷◌,
  ◌≡◌,
}
use opfs_webauthn.Share.Blob.{ShareBlobParts, encode_share_blob}
use opfs_webauthn.Share.Code.{normalize_code}
use opfs_webauthn.Share.Errors.{Result, ok}
use opfs_webauthn.Share.Exchange.{arrives, poll-waits, sends}
use opfs_webauthn.Share.Transport.{Response, is_ok}
use opfs_webauthn.Share.Receive.{Round, poll_and_decrypt, turn}
use opfs_webauthn.Share.Send.{get_epk, post_blob, send_share}

module _ (W : Wire) (laws : WireLaws W) where
  decode_shared_note-text :
      (bytes : List ℕ) (s : Text)
      → W.utf8_decode bytes ≡ some s
      → decode_shared_note W bytes ≡ shared_note_of (W.json_parse s)
  unfolding decode_shared_note
  decode_shared_note-text bytes s e = ground arith

  decode-encode_shared_note :
      (n : SharedNote) → decode_shared_note W (encode_shared_note W n) ≡ some n
  unfolding encode_shared_note
  decode-encode_shared_note n =
      decode_shared_note-text (encode_shared_note W n) (W.json_stringify n) (laws.decodes n)
      ∙ ap shared_note_of (laws.reads n)

  receives :
      (n : SharedNote) (p : Option (Result (List ℕ)))
      → p ≡ some (ok (encode_shared_note W n))
      → receive W (polled p) (record { phase = polls; active = true })
        ≡ (record { phase = saves; active = true }, frees ∷ upserts n ∷ [])
  unfolding receive after_poll
  receives n p e = rw (e, decode-encode_shared_note n) refl

  module _ (upper_other : ℕ → Text) (verify_code : Text → List ℕ → Option Bool)
      (seal_share : List ℕ → List ℕ → Option ShareBlobParts)
      (open_share : ShareBlobParts → Option (List ℕ)) where
    -- A note that is sent under a code is the one that the recipient's dialog saves. The relay gives the
    -- sender a key that belongs to the code and takes the blob, the core opens what it sealed, and the relay
    -- gives the blob to the recipient in some turn, after turns in which the poll waited. The dialog is open
    -- and polls.
    pub upserts-sent :
        (n : SharedNote) (code normalized : Text) (pubkey bytes_sent : List ℕ)
        (parts : ShareBlobParts) (epk uploaded downloaded : Response) (deadline : ℕ)
        (ws rs : List Round) (last : Round)
        → normalize_code upper_other code ≡ some normalized
        → is_ok epk ≡ true
        → epk.body ≡ some pubkey
        → verify_code normalized pubkey ≡ some true
        → seal_share pubkey (encode_shared_note W n) ≡ some parts
        → encode_share_blob parts ≡ ok bytes_sent
        → open_share parts ≡ some (encode_shared_note W n)
        → is_ok uploaded ≡ true
        → All (λ r. turn open_share deadline r ≡ none) ws
        → last.aborted ≡ false
        → last.answer ≡ some downloaded
        → is_ok downloaded ≡ true
        → downloaded.body ≡ some bytes_sent
        → (send_share upper_other verify_code seal_share code
              (encode_shared_note W n)
              (some epk)
              (some uploaded)
            ≡ (get_epk normalized ∷ post_blob normalized bytes_sent ∷ [], ok tt))
          × (receive W
                (polled (poll_and_decrypt open_share deadline (ws ++ (last ∷ rs))))
                (record { phase = polls; active = true })
              ≡ (record { phase = saves; active = true }, frees ∷ upserts n ∷ []))
    upserts-sent n code normalized pubkey bytes_sent parts epk uploaded downloaded deadline ws rs
          last m k b v z e o u a f s d c =
        let bytes = encode_shared_note W n in
        (
          sends upper_other verify_code seal_share open_share code normalized bytes pubkey
              bytes_sent parts epk uploaded m k b v z e u,
          receives n _ (
              poll-waits upper_other verify_code seal_share open_share deadline ws (last ∷ rs) a
              ∙ arrives upper_other verify_code seal_share open_share deadline parts bytes_sent
                  bytes downloaded last rs e o f s d c),
        )
