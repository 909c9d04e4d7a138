-- ===== src/Auth/Codec/Groups.antt =====
-- packages/auth/src/codec.ts: the parts of the codec, through the values below 64 that the characters stand for.
use opfs_webauthn.Auth.Codec.Defs.{
  all_url_safe, btoa, bytes_to_base64url, is_url_safe, remove_all, replace_all, symbol,
  symbol_value, symbol_values, ungroup,
}
use opfs_webauthn.Prelude.{
  All, List, Text, [], arith, if◌then◌else◌, map, refl, some, true, ℕ, ◌%◌, ◌*◌, ◌+◌, ◌/◌, ◌<◌,
  ◌==◌, ◌∷◌, ◌≡◌,
}

-- The values of the characters that bytes are written as.
unfoldable pub sextets : List ℕ → List ℕ
sextets [] = []
sextets (a ∷ []) = (a / 4) ∷ (a % 4 * 16) ∷ []
sextets (a ∷ b ∷ []) = (a / 4) ∷ (a % 4 * 16 + b / 16) ∷ (b % 16 * 4) ∷ []
sextets (a ∷ b ∷ c ∷ rest) =
    (a / 4) ∷ (a % 4 * 16 + b / 16) ∷ (b % 16 * 4 + c / 64) ∷ (c % 64) ∷ sextets rest

pub url_symbol : ℕ → ℕ
url_symbol v = if v == 62 then 45 else if v == 63 then 95 else symbol v

abbrev pub AreBytes : List ℕ → Type 0
AreBytes = All (λ b. b < 256)

abbrev pub AreSextets : List ℕ → Type 0
AreSextets = All (λ v. v < 64)

pub sextets-AreSextets : (bytes : List ℕ) → AreBytes bytes → AreSextets (sextets bytes)
unfolding sextets
sextets-AreSextets [] h = tt
sextets-AreSextets (a ∷ []) h = omega arith
sextets-AreSextets (a ∷ b ∷ []) h = omega arith
sextets-AreSextets (a ∷ b ∷ c ∷ rest) (ha, (hb, (hc, h))) =
    (omega arith, (omega arith, (omega arith, (omega arith, sextets-AreSextets rest h))))

pub ungroup-sextets : (bytes : List ℕ) → AreBytes bytes → ungroup (sextets bytes) ≡ some bytes
unfolding sextets ungroup
ungroup-sextets [] h = refl
ungroup-sextets (a ∷ []) h = ground arith
ungroup-sextets (a ∷ b ∷ []) h = ground arith
ungroup-sextets (a ∷ b ∷ c ∷ rest) (ha, (hb, (hc, h))) = ground (arith, ungroup-sextets rest h)

-- The three replacements on what `btoa` gives.
urled : Text → Text
urled s = remove_all 61 (replace_all 47 95 (replace_all 43 45 s))

urled-symbol : (v : ℕ) (s : Text) → v < 64 → urled (symbol v ∷ s) ≡ url_symbol v ∷ urled s
unfolding urled symbol url_symbol replace_all remove_all
urled-symbol v s h = ground arith

urled_pad : (s : Text) → urled (61 ∷ s) ≡ urled s
unfolding urled replace_all remove_all
urled_pad s = refl

urled_nil : urled [] ≡ []
unfolding urled replace_all remove_all
urled_nil = refl

urled-btoa : (bytes : List ℕ) → AreBytes bytes → urled (btoa bytes) ≡ map url_symbol (sextets bytes)
unfolding sextets btoa
urled-btoa [] h = urled_nil
urled-btoa (a ∷ []) h =
    let x = a % 4 * 16 in
    cc (
      urled-symbol (a / 4) (symbol x ∷ 61 ∷ 61 ∷ []) (omega arith),
      urled-symbol x (61 ∷ 61 ∷ []) (omega arith),
      urled_pad (61 ∷ []),
      urled_pad [],
      urled_nil,
    )
urled-btoa (a ∷ b ∷ []) h =
    let x = a % 4 * 16 + b / 16 in
    let y = b % 16 * 4 in
    cc (
      urled-symbol (a / 4) (symbol x ∷ symbol y ∷ 61 ∷ []) (omega arith),
      urled-symbol x (symbol y ∷ 61 ∷ []) (omega arith),
      urled-symbol y (61 ∷ []) (omega arith),
      urled_pad [],
      urled_nil,
    )
urled-btoa (a ∷ b ∷ c ∷ rest) (ha, (hb, (hc, h))) =
    let x = a % 4 * 16 + b / 16 in
    let y = b % 16 * 4 + c / 64 in
    let z = c % 64 in
    cc (
      urled-symbol (a / 4) (symbol x ∷ symbol y ∷ symbol z ∷ btoa rest) (omega arith),
      urled-symbol x (symbol y ∷ symbol z ∷ btoa rest) (omega arith),
      urled-symbol y (symbol z ∷ btoa rest) (omega arith),
      urled-symbol z (btoa rest) (omega arith),
      urled-btoa rest h,
    )

pub bytes_to_base64url-sextets :
    (bytes : List ℕ) → AreBytes bytes → bytes_to_base64url bytes ≡ map url_symbol (sextets bytes)
unfolding bytes_to_base64url urled
bytes_to_base64url-sextets bytes h = urled-btoa bytes h

-- The way back, for one character: what the decoder makes of it, and the value that it then has.
abbrev pub standard : Text → Text
standard s = replace_all 95 47 (replace_all 45 43 s)

pub url_symbol_safe : (v : ℕ) → v < 64 → is_url_safe (url_symbol v) ≡ true
unfolding is_url_safe url_symbol symbol
url_symbol_safe v h = ground arith

standard-url_symbol :
    (v : ℕ) (s : Text) → v < 64 → standard (url_symbol v ∷ s) ≡ symbol v ∷ standard s
unfolding replace_all url_symbol symbol
standard-url_symbol v s h = ground arith

symbol_value-symbol : (v : ℕ) → v < 64 → symbol_value (symbol v) ≡ some v
unfolding symbol_value symbol
symbol_value-symbol v h = ground arith

pub all_url_safe-map : (vs : List ℕ) → AreSextets vs → all_url_safe (map url_symbol vs) ≡ true
unfolding all_url_safe
all_url_safe-map [] h = refl
all_url_safe-map (v ∷ vs) (hv, h) = rw (url_symbol_safe v hv) (all_url_safe-map vs h)

pub symbol_values-map :
    (vs : List ℕ) → AreSextets vs → symbol_values (standard (map url_symbol vs)) ≡ some vs
unfolding symbol_values
symbol_values-map [] h = unfold replace_all in refl
symbol_values-map (v ∷ vs) (hv, h) =
    rw (standard-url_symbol v (map url_symbol vs) hv)
      (ground (arith, symbol_value-symbol v hv, symbol_values-map vs h))
