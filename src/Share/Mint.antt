-- ===== src/Share/Mint.antt =====
-- packages/share-client/src/mint-response.ts: the answer of the server that mints a rendezvous.
use opfs_webauthn.Prelude.{
  ==_iff, All, Bool, List, Text, [], ap, arith, drop, drop-drop, if◌then◌else◌, leb, length,
  length-drop, ltb, not, refl, suc, sym, true, zero, ℕ, ◌%◌, ◌&&◌, ◌*◌, ◌++◌, ◌+◌, ◌/◌, ◌<◌, ◌==◌,
  ◌^◌, ◌∙◌, ◌∷◌, ◌≡◌, ◌≤◌,
}
use opfs_webauthn.Share.Blob.{has_version, protocol_version}
use opfs_webauthn.Share.Errors.{Result, ok, plain, protocol, throws}

abbrev pub commitment_code_len : ℕ
commitment_code_len = 12

abbrev pub mint_response_len : ℕ
mint_response_len = 1 + 8 + commitment_code_len

pub record MintResponseParts : Type 0 where
  pub code : Text
  pub expires_at : ℕ

abbrev pub all_ascii : List ℕ → Bool
all_ascii [] = true
all_ascii (c ∷ cs) = leb c 127 && all_ascii cs

-- `setUint32` in big-endian order, which keeps the low 32 bits, and `getUint32`.
abbrev pub set_uint32 : ℕ → List ℕ
set_uint32 n = n / 2 ^ 24 % 2 ^ 8 ∷ n / 2 ^ 16 % 2 ^ 8 ∷ n / 2 ^ 8 % 2 ^ 8 ∷ n % 2 ^ 8 ∷ []

abbrev pub get_uint32 : List ℕ → ℕ
get_uint32 (a ∷ b ∷ c ∷ d ∷ rest) = ((a * 2 ^ 8 + b) * 2 ^ 8 + c) * 2 ^ 8 + d
get_uint32 _ = 0

-- The two numeric guards of the code exclude numbers that are no ℕ.
unfoldable pub encode_mint_response : MintResponseParts → Result (List ℕ)
encode_mint_response parts =
    if not (length parts.code == commitment_code_len)
    then throws (plain protocol)
    else if not (all_ascii parts.code)
    then throws (plain protocol)
    else ok (protocol_version ∷ (set_uint32 hi ++ (set_uint32 lo ++ parts.code)))
  where
    hi : ℕ
    hi = parts.expires_at / 2 ^ 32

    lo : ℕ
    lo = parts.expires_at % 2 ^ 32

unfoldable pub decode_mint_response : List ℕ → Result MintResponseParts
decode_mint_response bytes =
    if not (length bytes == mint_response_len)
    then throws (plain protocol)
    else if not (has_version bytes)
    then throws (plain protocol)
    else if ltb 2097151 hi
    then throws (plain protocol)
    else if not (all_ascii code)
    then throws (plain protocol)
    else ok (record { code = code; expires_at = hi * 2 ^ 32 + lo })
  where
    hi : ℕ
    hi = get_uint32 (drop 1 bytes)

    lo : ℕ
    lo = get_uint32 (drop 5 bytes)

    code : Text
    code = drop 9 bytes

get-set :
    (n : ℕ)
    → n < 2 ^ 32
    → ((n / 2 ^ 24 % 2 ^ 8 * 2 ^ 8 + n / 2 ^ 16 % 2 ^ 8) * 2 ^ 8 + n / 2 ^ 8 % 2 ^ 8) * 2 ^ 8
        + n % 2 ^ 8
      ≡ n
get-set n h = omega arith

encoded :
    (parts : MintResponseParts) (bytes : List ℕ)
    → encode_mint_response parts ≡ ok bytes
    → (length parts.code ≡ 12)
      × (all_ascii parts.code ≡ true)
      × (bytes
          ≡ 1
            ∷ (set_uint32 (parts.expires_at / 2 ^ 32)
                ++ (set_uint32 (parts.expires_at % 2 ^ 32) ++ parts.code)))
unfolding encode_mint_response
encoded parts bytes e = ground (arith, ==_iff (length parts.code) 12)

-- A frame whose two words are `hi` and `lo`.
decoded :
    (hi lo : ℕ) (code : Text)
    → hi ≤ 2097151
    → lo < 2 ^ 32
    → length code ≡ 12
    → all_ascii code ≡ true
    → decode_mint_response (1 ∷ (set_uint32 hi ++ (set_uint32 lo ++ code)))
      ≡ ok (record { code = code; expires_at = hi * 2 ^ 32 + lo })
unfolding decode_mint_response
decoded hi lo code h l c a =
    rw (get-set hi (omega arith), get-set lo l) (ground (arith, ==_iff (length code) 12))

-- What the server frames is what the recipient reads, for every expiry that a JavaScript number
-- carries exactly.
pub decode-encode_mint :
    (parts : MintResponseParts) (bytes : List ℕ)
    → parts.expires_at < 2 ^ 53
    → encode_mint_response parts ≡ ok bytes
    → decode_mint_response bytes ≡ ok parts
unfolding encode_mint_response decode_mint_response
decode-encode_mint parts bytes h e =
    let (l, a, b) = encoded parts bytes e in
    let hi : ℕ = parts.expires_at / 2 ^ 32 in
    let lo : ℕ = parts.expires_at % 2 ^ 32 in
    ap decode_mint_response b
    ∙ decoded hi lo parts.code (omega arith) (omega arith) l a
    ∙ ap (λ n. ok (record { code = parts.code; expires_at = n })) (omega arith)

abbrev pub IsBytes : List ℕ → Type 0
IsBytes = All (λ b. b < 256)

get_uint32-lt : (bytes : List ℕ) → IsBytes bytes → get_uint32 bytes < 2 ^ 32
get_uint32-lt (a ∷ b ∷ c ∷ d ∷ rest) h = omega (arith, h.0, h.1.0, h.1.1.0, h.1.1.1.0)
get_uint32-lt [] h = omega arith
get_uint32-lt (a ∷ []) h = omega arith
get_uint32-lt (a ∷ b ∷ []) h = omega arith
get_uint32-lt (a ∷ b ∷ c ∷ []) h = omega arith

set-get :
    (bytes : List ℕ)
    → IsBytes bytes
    → 4 ≤ length bytes
    → set_uint32 (get_uint32 bytes) ++ drop 4 bytes ≡ bytes
set-get (a ∷ b ∷ c ∷ d ∷ rest) h l =
    let n : ℕ = get_uint32 (a ∷ b ∷ c ∷ d ∷ rest) in
    let pa : n / 2 ^ 24 % 2 ^ 8 ≡ a = omega (arith, h.0, h.1.0, h.1.1.0, h.1.1.1.0) in
    let pb : n / 2 ^ 16 % 2 ^ 8 ≡ b = omega (arith, h.0, h.1.0, h.1.1.0, h.1.1.1.0) in
    let pc : n / 2 ^ 8 % 2 ^ 8 ≡ c = omega (arith, h.0, h.1.0, h.1.1.0, h.1.1.1.0) in
    let pd : n % 2 ^ 8 ≡ d = omega (arith, h.0, h.1.0, h.1.1.0, h.1.1.1.0) in
    rw (pa, pb, pc, pd) refl
set-get [] h l = absurd (omega arith)
set-get (a ∷ []) h l = absurd (omega arith)
set-get (a ∷ b ∷ []) h l = absurd (omega arith)
set-get (a ∷ b ∷ c ∷ []) h l = absurd (omega arith)

drop-IsBytes : (n : ℕ) (bytes : List ℕ) → IsBytes bytes → IsBytes (drop n bytes)
drop-IsBytes zero bytes h = h
drop-IsBytes (suc n) [] h = h
drop-IsBytes (suc n) (b ∷ bytes) h = drop-IsBytes n bytes h.1

accepted :
    (b : ℕ) (bytes : List ℕ) (parts : MintResponseParts)
    → decode_mint_response (b ∷ bytes) ≡ ok parts
    → (length bytes ≡ 20)
      × (b ≡ 1)
      × (get_uint32 bytes ≤ 2097151)
      × (all_ascii (drop 8 bytes) ≡ true)
      × (parts ≡ record {
        code = drop 8 bytes;
        expires_at = get_uint32 bytes * 2 ^ 32 + get_uint32 (drop 4 bytes);
      })
unfolding decode_mint_response
accepted b bytes parts e = ground (arith, ==_iff (length (b ∷ bytes)) 21, ==_iff b 1)

encodes :
    (hi lo : ℕ) (code : Text)
    → lo < 2 ^ 32
    → length code ≡ 12
    → all_ascii code ≡ true
    → encode_mint_response (record { code = code; expires_at = hi * 2 ^ 32 + lo })
      ≡ ok (1 ∷ (set_uint32 hi ++ (set_uint32 lo ++ code)))
unfolding encode_mint_response
encodes hi lo code l c a =
    let high : (hi * 2 ^ 32 + lo) / 2 ^ 32 ≡ hi = omega arith in
    let low : (hi * 2 ^ 32 + lo) % 2 ^ 32 ≡ lo = omega arith in
    rw (high, low) (ground (arith, ==_iff (length code) 12))

-- An answer that is accepted is the one encoding of what it is read as: a code of 12 ASCII characters
-- and an expiry below 2 ^ 53.
pub encode-decode_mint :
    (bytes : List ℕ) (parts : MintResponseParts)
    → IsBytes bytes
    → decode_mint_response bytes ≡ ok parts
    → (encode_mint_response parts ≡ ok bytes)
      × (parts.expires_at < 2 ^ 53)
      × (length parts.code ≡ 12)
      × (all_ascii parts.code ≡ true)
unfolding decode_mint_response
encode-decode_mint [] parts h e = cc
encode-decode_mint (b ∷ bytes) parts h e =
    let (l, v, small, ascii, q) = accepted b bytes parts e in
    let hi : ℕ = get_uint32 bytes in
    let lo : ℕ = get_uint32 (drop 4 bytes) in
    let low : lo < 2 ^ 32 = get_uint32-lt (drop 4 bytes) (drop-IsBytes 4 bytes h.1) in
    let long : length (drop 8 bytes) ≡ 12 = omega (arith, length-drop 8 bytes) in
    let tail : set_uint32 lo ++ drop 8 bytes ≡ drop 4 bytes =
      ap (◌++◌ (set_uint32 lo)) (sym (drop-drop 4 4 bytes))
      ∙ set-get (drop 4 bytes) (drop-IsBytes 4 bytes h.1) (omega (arith, length-drop 4 bytes)) in
    let whole : set_uint32 hi ++ (set_uint32 lo ++ drop 8 bytes) ≡ bytes =
      ap (◌++◌ (set_uint32 hi)) tail ∙ set-get bytes h.1 (omega arith) in
    (
      ap encode_mint_response q
          ∙ encodes hi lo (drop 8 bytes) low long ascii
          ∙ ap (λ bs. ok (1 ∷ bs)) whole
          ∙ ap (λ n. ok (n ∷ bytes)) (sym v),
      ground (arith, ap (λ p. p.expires_at) q),
      ap (λ p. length p.code) q ∙ long,
      ap (λ p. all_ascii p.code) q ∙ ascii,
    )
