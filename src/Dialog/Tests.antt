-- ===== src/Dialog/Tests.antt =====
-- apps/web/src/share: notes with a toy encoding, and some runs of the dialogs.
-- The length of the title, and the two texts.
use opfs_webauthn.Dialog.Defs.{
  ReceiveEvent, SharedNote, Wire, WireLaws, aborts, encode_shared_note, frees, loaded, minted,
  mounted, over, polled, polls, prepares, receive, receive_all, saved, saves, unmounts, upserts,
}
use opfs_webauthn.Dialog.Exchange.{upserts-sent}
use opfs_webauthn.Dialog.Receive.{freed, is_quiet, prepared, receive_all-closed}
use opfs_webauthn.Dialog.Submit.{
  SendEvent, calls_send_share, ended, fresh_sender, is_sent, renders, send_run, send_run-once,
  send_step, submit, submits, types,
}
use opfs_webauthn.Prelude.{
  List, Option, Text, [], codes, drop, drop-append, false, if◌then◌else◌, length, none, refl, some,
  suc, take, take-append, true, zero, ℕ, ◌++◌, ◌∷◌, ◌≡◌, ◌≤◌,
}
use opfs_webauthn.Share.Blob.{ShareBlobParts, encode_share_blob}
use opfs_webauthn.Share.Code.{is_code_char, is_separator, normalize_code}
use opfs_webauthn.Share.Errors.{escapes, ok}
use opfs_webauthn.Share.Receive.{Round, poll_and_decrypt}
use opfs_webauthn.Share.Send.{get_epk, post_blob, send_share}
use opfs_webauthn.Share.Transport.{Response}

abbrev toy : Wire
toy = record {
  json_stringify = λ n. length n.title ∷ (n.title ++ n.body);
  json_parse = unpack;
  utf8_encode = λ s. s;
  utf8_decode = λ bytes. some bytes;
}
  where
    unpack : Text → Option (Option Text × Option Text)
    unpack [] = none
    unpack (k ∷ s) = some (some (take k s), some (drop k s))

toy_laws : WireLaws toy
toy_laws = record {
  reads = λ n.
      rw
        (
          take-append (length n.title) n.title n.body refl,
          drop-append (length n.title) n.title n.body refl,
        )
        refl;
  decodes = λ n. refl;
}

abbrev hello : SharedNote
hello = record { title = codes "hi"; body = codes "you" }

abbrev zeros : ℕ → List ℕ
zeros zero = []
zeros (suc n) = 0 ∷ zeros n

abbrev key : List ℕ
key = zeros 32

abbrev sealed : List ℕ → ShareBlobParts
sealed plaintext = record { sender_pubkey = key; nonce = zeros 12; ciphertext = plaintext }

abbrev sealing : List ℕ → List ℕ → Option ShareBlobParts
sealing pubkey plaintext = some (sealed plaintext)

abbrev opening : ShareBlobParts → Option (List ℕ)
opening parts = some parts.ciphertext

abbrev no_upper : ℕ → Text
no_upper c = c ∷ []

abbrev typed : Text
typed = codes "abcd-efgh-jkmn"

abbrev the_code : Text
the_code = codes "ABCDEFGHJKMN"

abbrev framed : List ℕ
framed = 1 ∷ (zeros 32 ++ (zeros 12 ++ (2 ∷ codes "hiyou")))

abbrev good : List ℕ → Response
good bytes = record { status = 200; body = some bytes }

abbrev delivers : Round
delivers = record { aborted = false; answer = some (good framed); now = 5; aborted_asleep = false }

typed-normal : normalize_code no_upper typed ≡ some the_code
unfolding normalize_code is_separator is_code_char
typed-normal = refl

upserts-sent_example :
    (send_share no_upper
        (λ c k. some true)
        sealing
        typed
        (encode_shared_note toy hello)
        (some (good key))
        (some (good []))
      ≡ (get_epk the_code ∷ post_blob the_code framed ∷ [], ok tt))
    × (receive toy
          (polled (poll_and_decrypt opening 100 (delivers ∷ [])))
          (record { phase = polls; active = true })
        ≡ (record { phase = saves; active = true }, frees ∷ upserts hello ∷ []))
unfolding encode_share_blob encode_shared_note
upserts-sent_example =
    upserts-sent toy toy_laws no_upper (λ c k. some true) sealing opening hello typed the_code key
      framed (sealed (encode_shared_note toy hello)) (good key) (good []) (good framed) 100 [] []
      delivers typed-normal refl refl refl refl refl refl refl tt refl refl refl refl

abbrev closed_early : List ReceiveEvent
closed_early = loaded true ∷ unmounts ∷ minted (ok the_code) ∷ []

closed_early-frees :
    receive_all toy closed_early mounted
    ≡ (record { phase = over; active = false }, prepares ∷ aborts ∷ frees ∷ [])
unfolding receive_all receive
closed_early-frees = refl

receive_all-closed_example :
    let late = loaded true ∷ minted (ok the_code) ∷ polled (some escapes) ∷ saved none ∷ [] in
    let (r, out) = receive_all toy ((loaded true ∷ []) ++ (unmounts ∷ late)) mounted in
    (r.phase ≡ over)
    × (prepared out ≡ freed out)
    × (is_quiet
          (receive_all toy late
            (receive_all toy ((loaded true ∷ []) ++ (unmounts ∷ [])) mounted).0).1
        ≡ true)
receive_all-closed_example =
    receive_all-closed toy (loaded true ∷ []) true (ok the_code) escapes none
      (loaded true ∷ minted (ok the_code) ∷ polled (some escapes) ∷ saved none ∷ [])

abbrev pressed_twice : List SendEvent
pressed_twice = types typed ∷ renders ∷ submits ∷ submits ∷ ended (ok tt) ∷ submits ∷ []

pressed_twice-once :
    (send_run no_upper toy hello pressed_twice fresh_sender).1
    ≡ calls_send_share the_code (encode_shared_note toy hello) ∷ []
unfolding send_run send_step submit normalize_code is_separator is_code_char
pressed_twice-once = refl

send_run-once_example :
    let s = (send_run no_upper toy hello pressed_twice fresh_sender).0 in
    (s.running ≤ 1)
    × ((if is_sent s.current.status then (send_run no_upper toy hello pressed_twice s).1 else [])
        ≡ [])
send_run-once_example = send_run-once no_upper toy hello pressed_twice pressed_twice
