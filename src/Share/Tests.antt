-- ===== src/Share/Tests.antt =====
-- packages/share-client: the theorems at a share with a key of zeros and a text of two bytes.
use opfs_webauthn.Prelude.{
  All, List, Option, Text, [], arith, codes, false, inr, is_some, length, none, refl, some, suc,
  true, zero, ℕ, ◌++◌, ◌+◌, ◌<◌, ◌^◌, ◌∷◌, ◌≡◌,
}
use opfs_webauthn.Share.Blob.{ShareBlobParts, decode_share_blob, encode_share_blob}
use opfs_webauthn.Share.Code.{is_code_char, is_separator, normalize_code}
use opfs_webauthn.Share.Errors.{ok}
use opfs_webauthn.Share.Mint.{
  MintResponseParts, all_ascii, decode_mint_response, encode-decode_mint, encode_mint_response,
}
use opfs_webauthn.Share.Receive.{
  IsPatient, Paced, Round, deadline_of, default_poll_timeout_ms, poll_and_decrypt,
  poll_and_decrypt-default,
}
use opfs_webauthn.Share.Send.{send_share, send_share-verified}
use opfs_webauthn.Share.Transport.{Response, fetch_epk, network_safe}
use mathlib.Core.List.{Memᴰ}

abbrev zeros : ℕ → List ℕ
zeros zero = []
zeros (suc n) = 0 ∷ zeros n

abbrev pubkey : List ℕ
pubkey = zeros 32

-- A core that seals by framing, and takes every key for the code's.
abbrev framing : List ℕ → ShareBlobParts
framing plaintext = record { sender_pubkey = zeros 32; nonce = zeros 12; ciphertext = plaintext }

abbrev sealing : List ℕ → List ℕ → Option ShareBlobParts
sealing key plaintext = some (framing plaintext)

abbrev opening : ShareBlobParts → Option (List ℕ)
opening parts = some parts.ciphertext

abbrev no_upper : ℕ → Text
no_upper c = c ∷ []

abbrev the_code : Text
the_code = codes "ABCD1234WXYZ"

abbrev typed_code : Text
typed_code = codes "abcd-1234 WXYZ"

abbrev parts : ShareBlobParts
parts = framing (7 ∷ 8 ∷ [])

abbrev framed : List ℕ
framed = 1 ∷ (zeros 32 ++ (zeros 12 ++ (7 ∷ 8 ∷ [])))

parts-framed : encode_share_blob parts ≡ ok framed
unfolding encode_share_blob
parts-framed = refl

framed-parts : decode_share_blob framed ≡ ok parts
unfolding decode_share_blob
framed-parts = refl

typed-normal : normalize_code no_upper typed_code ≡ some the_code
unfolding normalize_code is_separator is_code_char
typed-normal = refl

abbrev minted : MintResponseParts
minted = record { code = the_code; expires_at = 1700000000 }

abbrev minted_bytes : List ℕ
minted_bytes = 1 ∷ 0 ∷ 0 ∷ 0 ∷ 0 ∷ 101 ∷ 83 ∷ 241 ∷ 0 ∷ the_code

minted-bytes : encode_mint_response minted ≡ ok minted_bytes
unfolding encode_mint_response
minted-bytes = refl

bytes-minted : decode_mint_response minted_bytes ≡ ok minted
unfolding decode_mint_response
bytes-minted = refl

encode-decode_mint_example :
    (encode_mint_response minted ≡ ok minted_bytes)
    × (minted.expires_at < 2 ^ 53)
    × (length minted.code ≡ 12)
    × (all_ascii minted.code ≡ true)
encode-decode_mint_example = encode-decode_mint minted_bytes minted (ground arith) bytes-minted

abbrev waiting : ℕ → Round
waiting now = record {
  aborted = false;
  answer = some (record { status = 404; body = none });
  now = now;
  aborted_asleep = false;
}

abbrev epk : Response
epk = record { status = 200; body = some pubkey }

abbrev uploaded : Response
uploaded = record { status = 204; body = some [] }

send_share-verified_example :
    (key : List ℕ) × (normalize_code no_upper typed_code ≡ some the_code)
    × (fetch_epk (some epk) ≡ ok key)
    × (some true ≡ some true)
    × ((blob_parts : ShareBlobParts) × (sealing key (7 ∷ 8 ∷ []) ≡ some blob_parts)
        × (encode_share_blob blob_parts ≡ ok framed))
unfolding send_share normalize_code is_separator is_code_char fetch_epk network_safe
    encode_share_blob
send_share-verified_example =
    send_share-verified no_upper (λ c k. some true) sealing typed_code the_code (7 ∷ 8 ∷ []) framed
      (some epk) (some uploaded) (Memᴰ.tail (Memᴰ.head refl))

abbrev rounds_from : ℕ → ℕ → List Round
rounds_from zero now = []
rounds_from (suc n) now = waiting now ∷ rounds_from n (now + 1500)

rounds_from-Paced : (n now : ℕ) → Paced opening 1500 now (rounds_from n now)
rounds_from-Paced zero now = tt
rounds_from-Paced (suc n) now = (omega arith, rounds_from-Paced n (now + 1500))

-- A rendezvous that expires nine seconds after the poll's start.
poll_and_decrypt-default_example :
    let deadline = deadline_of 1000 default_poll_timeout_ms 10 in
    (is_some (poll_and_decrypt opening deadline (rounds_from 7 1000)) ≡ true)
    × All (IsPatient opening 1000 10 deadline) (rounds_from 7 1000)
poll_and_decrypt-default_example =
    poll_and_decrypt-default opening 1000 10 6 (rounds_from 7 1000) (rounds_from-Paced 7 1000)
      (omega arith) (inr (omega arith))
