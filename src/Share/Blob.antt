-- ===== src/Share/Blob.antt =====
-- packages/share-client/src/blob.ts: the framing of a sealed share. Bytes are numbers below 256.
use opfs_webauthn.Prelude.{
  ==_iff, Bool, List, Option, [], ap, arith, drop, drop-append, drop-append-more, drop-drop, false,
  if◌then◌else◌, length, length-append, length-drop, length-take, ltb, none, not, some, sym, take,
  take-append, take-append-drop, true, ℕ, ◌++◌, ◌+◌, ◌-◌, ◌==◌, ◌∙◌, ◌∷◌, ◌≡◌, ◌≤◌,
}
use opfs_webauthn.Share.Errors.{Result, ok, plain, protocol, throws}

abbrev pub protocol_version : ℕ
protocol_version = 1

abbrev pub x25519_pubkey_len : ℕ
x25519_pubkey_len = 32

abbrev pub aes_gcm_nonce_len : ℕ
aes_gcm_nonce_len = 12

abbrev pub share_blob_header_len : ℕ
share_blob_header_len = 1 + x25519_pubkey_len + aes_gcm_nonce_len

pub record ShareBlobParts : Type 0 where
  pub sender_pubkey : List ℕ
  pub nonce : List ℕ
  pub ciphertext : List ℕ

unfoldable pub encode_share_blob : ShareBlobParts → Result (List ℕ)
encode_share_blob parts =
    if not (length parts.sender_pubkey == x25519_pubkey_len)
    then throws (plain protocol)
    else if not (length parts.nonce == aes_gcm_nonce_len)
    then throws (plain protocol)
    else ok (protocol_version ∷ (parts.sender_pubkey ++ (parts.nonce ++ parts.ciphertext)))

-- `bytes.slice(from, to)`
abbrev pub slice : ℕ → ℕ → List ℕ → List ℕ
slice from to bytes = take (to - from) (drop from bytes)

abbrev parts_of : List ℕ → ShareBlobParts
parts_of bytes = record {
  sender_pubkey = slice 1 (1 + x25519_pubkey_len) bytes;
  nonce = slice (1 + x25519_pubkey_len) share_blob_header_len bytes;
  ciphertext = drop share_blob_header_len bytes;
}

abbrev head : List ℕ → Option ℕ
head [] = none
head (b ∷ bytes) = some b

abbrev pub has_version : List ℕ → Bool
has_version [] = false
has_version (b ∷ bytes) = b == protocol_version

unfoldable pub decode_share_blob : List ℕ → Result ShareBlobParts
decode_share_blob bytes =
    if ltb (length bytes) share_blob_header_len
    then throws (plain protocol)
    else if not (has_version bytes)
    then throws (plain protocol)
    else ok (parts_of bytes)

encoded :
    (parts : ShareBlobParts) (bytes : List ℕ)
    → encode_share_blob parts ≡ ok bytes
    → (length parts.sender_pubkey ≡ 32)
      × (length parts.nonce ≡ 12)
      × (bytes ≡ 1 ∷ (parts.sender_pubkey ++ (parts.nonce ++ parts.ciphertext)))
unfolding encode_share_blob
encoded parts bytes e =
    ground (arith, ==_iff (length parts.sender_pubkey) 32, ==_iff (length parts.nonce) 12)

-- What a sender frames is what the recipient reads: the blob of an encoding decodes to its parts.
pub decode-encode :
    (parts : ShareBlobParts) (bytes : List ℕ)
    → encode_share_blob parts ≡ ok bytes
    → decode_share_blob bytes ≡ ok parts
unfolding encode_share_blob decode_share_blob
decode-encode parts bytes e =
    let (lp, ln, eb) = encoded parts bytes e in
    let rest : List ℕ = parts.nonce ++ parts.ciphertext in
    rw eb (
      ground (
        arith,
        length-append parts.sender_pubkey rest,
        length-append parts.nonce parts.ciphertext,
        take-append 32 parts.sender_pubkey rest lp,
        drop-append 32 parts.sender_pubkey rest lp,
        take-append 12 parts.nonce parts.ciphertext ln,
        drop-append-more 32 12 parts.sender_pubkey rest lp,
        drop-append 12 parts.nonce parts.ciphertext ln,
      ))

split_parts :
    (bytes : List ℕ)
    → 44 ≤ length bytes
    → take 32 bytes ++ (take 12 (drop 32 bytes) ++ drop 44 bytes) ≡ bytes
split_parts bytes h =
    ap (λ rest. take 32 bytes ++ (take 12 (drop 32 bytes) ++ rest)) (sym (drop-drop 32 12 bytes))
    ∙ ap (◌++◌ (take 32 bytes)) (take-append-drop 12 (drop 32 bytes))
    ∙ take-append-drop 32 bytes

decoded :
    (bytes : List ℕ) (parts : ShareBlobParts)
    → decode_share_blob bytes ≡ ok parts
    → (45 ≤ length bytes) × (has_version bytes ≡ true) × (parts_of bytes ≡ parts)
unfolding decode_share_blob
decoded bytes parts e = ground arith

-- A blob that decodes is the one encoding of the parts that it decodes to.
pub encode-decode :
    (bytes : List ℕ) (parts : ShareBlobParts)
    → decode_share_blob bytes ≡ ok parts
    → encode_share_blob parts ≡ ok bytes
unfolding encode_share_blob decode_share_blob
encode-decode [] parts e = absurd (ground (arith, decoded [] parts e))
encode-decode (b ∷ bytes) parts e =
    let (l, v, p) = decoded (b ∷ bytes) parts e in
    ground (
      arith,
      split_parts bytes (omega arith),
      length-take 32 bytes,
      length-drop 32 bytes,
      length-take 12 (drop 32 bytes),
      ==_iff b 1,
    )
