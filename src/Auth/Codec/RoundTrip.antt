-- ===== src/Auth/Codec/RoundTrip.antt =====
-- packages/auth/src/codec.ts: what is written is read, and which texts are read at all.
use opfs_webauthn.Auth.Codec.Defs.{
  all_url_safe, atob, base64url_to_bytes, bytes_to_base64url, is_url_safe, pads, replace_all,
  symbol_value, symbol_values, trim_pad, ungroup,
}
use opfs_webauthn.Auth.Codec.Groups.{
  AreBytes, all_url_safe-map, bytes_to_base64url-sextets, sextets, sextets-AreSextets, standard,
  symbol_values-map, ungroup-sextets, url_symbol,
}
use opfs_webauthn.Prelude.{
  ==_iff, All, Bool-cases, List, Option, Option-cases, Text, [], ap, arith, false, if◌then◌else◌,
  inl, inr, is_some, length, length-append, map, none, not, refl, some, suc, sym, true, ℕ, ◌%◌,
  ◌&&◌, ◌++◌, ◌+◌, ◌-◌, ◌==◌, ◌∙◌, ◌∷◌, ◌≡◌, ◌≢◌, ◌⊎◌,
}
use mathlib.Core.List.{append-nil, append_assoc}

-- The padding that the decoder adds is what `atob` takes off.
NoPad : Text → Type 0
NoPad = All (λ c. c ≢ 61)

trim_pad-append : (s : Text) → trim_pad (s ++ (61 ∷ [])) ≡ s
unfolding trim_pad
trim_pad-append [] = refl
trim_pad-append (c ∷ []) = refl
trim_pad-append (c ∷ d ∷ s) = ap (◌∷◌ c) (trim_pad-append (d ∷ s))

trim_pad_none : (s : Text) → NoPad s → trim_pad s ≡ s
unfolding trim_pad NoPad
trim_pad_none [] h = refl
trim_pad_none (c ∷ []) h = ground arith
trim_pad_none (c ∷ d ∷ s) (hc, h) = ap (◌∷◌ c) (trim_pad_none (d ∷ s) h)

NoPad-standard : (s : Text) → all_url_safe s ≡ true → NoPad (standard s)
unfolding NoPad replace_all all_url_safe is_url_safe
NoPad-standard [] h = tt
NoPad-standard (c ∷ s) h = (ground arith, NoPad-standard s (ground arith))

length-standard : (s : Text) → length (standard s) ≡ length s
unfolding replace_all
length-standard [] = refl
length-standard (c ∷ s) = ap suc (length-standard s)

pads_0 : pads 0 ≡ []
unfolding pads
pads_0 = refl

pads_1 : pads 1 ≡ 61 ∷ []
unfolding pads
pads_1 = refl

pads_2 : pads 2 ≡ 61 ∷ 61 ∷ []
unfolding pads
pads_2 = refl

pads_3 : pads 3 ≡ 61 ∷ 61 ∷ 61 ∷ []
unfolding pads
pads_3 = refl

remainder : (n : ℕ) → n % 4 ≢ 1 → (n % 4 ≡ 0) ⊎ (n % 4 ≡ 2) ⊎ (n % 4 ≡ 3)
remainder n h = ground arith

abbrev pad_length : ℕ → ℕ
pad_length n = (4 - n % 4) % 4

unpad : Text → Text
unpad s = if length s % 4 == 0 then trim_pad (trim_pad s) else s

unpad_twice : (s : Text) → length s % 4 ≡ 0 → unpad s ≡ trim_pad (trim_pad s)
unfolding unpad
unpad_twice s h = ground arith

length-add : (s t : Text) (n : ℕ) → length t ≡ n → length (s ++ t) ≡ length s + n
length-add s t n h = omega (arith, length-append s t)

trim_pad-two : (s : Text) → trim_pad (trim_pad (s ++ (61 ∷ 61 ∷ []))) ≡ s
trim_pad-two s =
    rw (← append_assoc s (61 ∷ []) (61 ∷ []), trim_pad-append (s ++ (61 ∷ [])), trim_pad-append s)

unpad-pads : (s : Text) → NoPad s → length s % 4 ≢ 1 → unpad (s ++ pads (pad_length (length s))) ≡ s
unpad-pads s n h = elim (remainder (length s) h) [
  | inl z ↦
      rw (z, pads_0, append-nil s)
        (unpad_twice s z ∙ ap trim_pad (trim_pad_none s n) ∙ trim_pad_none s n)
  | inr (inl t) ↦
      rw (t, pads_2)
        (unpad_twice _ (omega (arith, length-add s (61 ∷ 61 ∷ []) 2 refl)) ∙ trim_pad-two s)
  | inr (inr t) ↦
      rw (t, pads_1)
        (unpad_twice _ (omega (arith, length-add s (61 ∷ []) 1 refl))
          ∙ ap trim_pad (trim_pad-append s)
          ∙ trim_pad_none s n)
]

-- A text of one character too many keeps a `=`, which is no character of the alphabet.
unpad_left :
    (s : Text) → length s % 4 ≡ 1 → unpad (s ++ pads (pad_length (length s))) ≡ s ++ (61 ∷ [])
unpad_left s h =
    rw (h, pads_3)
      (unpad_twice _ (omega (arith, length-add s (61 ∷ 61 ∷ 61 ∷ []) 3 refl))
        ∙ rw (← append_assoc s (61 ∷ []) (61 ∷ 61 ∷ [])) (trim_pad-two (s ++ (61 ∷ []))))

symbol_values-pad : (s : Text) → symbol_values (s ++ (61 ∷ [])) ≡ none
unfolding symbol_values symbol_value
symbol_values-pad [] = refl
symbol_values-pad (c ∷ s) = ground (arith, symbol_values-pad s)

symbol_value-safe :
    (c : ℕ) (s : Text)
    → all_url_safe (c ∷ s) ≡ true
    → (v : ℕ) × (symbol_values (standard (c ∷ s))
        ≡ (elim (symbol_values (standard s)) [ none ↦ none | some vs ↦ some (v ∷ vs) ]))
unfolding all_url_safe is_url_safe replace_all symbol_values symbol_value
symbol_value-safe c s h =
    let d = if c == 45 then 43 else c in
    let e = if d == 95 then 47 else d in
    elim (Option-cases (symbol_value e)) [
      | inl n ↦ absurd (ground arith)
      | inr (v, q) ↦ (v, ground arith)
    ]

symbol_values-standard :
    (s : Text)
    → all_url_safe s ≡ true
    → (vs : List ℕ) × (symbol_values (standard s) ≡ some vs) × (length vs ≡ length s)
unfolding symbol_values
symbol_values-standard [] h = ([], unfold replace_all in refl, refl)
symbol_values-standard (c ∷ s) h =
    let (v, e) = symbol_value-safe c s h in
    let (vs, es, l) = symbol_values-standard s (unfold all_url_safe in ground arith) in
    (v ∷ vs, e ∙ ground (arith, es), omega arith)

is_some-ungroup_group :
    (w x y z : ℕ) (rest : List ℕ)
    → is_some (ungroup (w ∷ x ∷ y ∷ z ∷ rest)) ≡ is_some (ungroup rest)
unfolding ungroup
is_some-ungroup_group w x y z rest = elim (Option-cases (ungroup rest)) [
  | inl n ↦ rw n
  | inr (b, n) ↦ rw n
]

is_some-ungroup : (vs : List ℕ) → is_some (ungroup vs) ≡ not (length vs % 4 == 1)
is_some-ungroup [] = unfold ungroup in refl
is_some-ungroup (w ∷ []) = unfold ungroup in refl
is_some-ungroup (w ∷ x ∷ []) = unfold ungroup in refl
is_some-ungroup (w ∷ x ∷ y ∷ []) = unfold ungroup in refl
is_some-ungroup (w ∷ x ∷ y ∷ z ∷ rest) =
    let four : suc (suc (suc (suc (length rest)))) % 4 ≡ length rest % 4 = omega arith in
    is_some-ungroup_group w x y z rest ∙ is_some-ungroup rest ∙ ap (λ n. not (n == 1)) (sym four)

decode : Text → Option (List ℕ)
decode s = elim (symbol_values s) [ none ↦ none | some vs ↦ ungroup vs ]

base64url_to_bytes-decode :
    (s : Text)
    → all_url_safe s ≡ true
    → base64url_to_bytes s ≡ decode (unpad (standard s ++ pads (pad_length (length (standard s)))))
unfolding base64url_to_bytes atob unpad decode
base64url_to_bytes-decode s h = rw (h, length-standard s)

decode-values : (s : Text) (vs : List ℕ) → symbol_values s ≡ some vs → decode s ≡ ungroup vs
unfolding decode
decode-values s vs e = rw (e, decode)

decode-pad : (s : Text) → decode (s ++ (61 ∷ [])) ≡ none
unfolding decode
decode-pad s = rw (symbol_values-pad s, decode)

base64url_to_bytes-values :
    (s : Text) (vs : List ℕ)
    → all_url_safe s ≡ true
    → length s % 4 ≢ 1
    → symbol_values (standard s) ≡ some vs
    → base64url_to_bytes s ≡ ungroup vs
base64url_to_bytes-values s vs h n e =
    base64url_to_bytes-decode s h
    ∙ ap decode (unpad-pads (standard s) (NoPad-standard s h) (rw (length-standard s) n))
    ∙ decode-values (standard s) vs e

length-sextets : (bytes : List ℕ) → length (map url_symbol (sextets bytes)) % 4 ≢ 1
unfolding sextets
length-sextets [] = omega arith
length-sextets (a ∷ []) = omega arith
length-sextets (a ∷ b ∷ []) = omega arith
length-sextets (a ∷ b ∷ c ∷ rest) = λ e. length-sextets rest (omega (arith, e))

-- Bytes that are written as base64url are read back.
pub base64url_to_bytes-bytes :
    (bytes : List ℕ) → AreBytes bytes → base64url_to_bytes (bytes_to_base64url bytes) ≡ some bytes
base64url_to_bytes-bytes bytes h =
    let vs = sextets bytes in
    let below = sextets-AreSextets bytes h in
    ap base64url_to_bytes (bytes_to_base64url-sextets bytes h)
    ∙ base64url_to_bytes-values (map url_symbol vs) vs (all_url_safe-map vs below)
        (length-sextets bytes) (symbol_values-map vs below)
    ∙ ungroup-sextets bytes h

refused : (s : Text) → all_url_safe s ≡ false → base64url_to_bytes s ≡ none
unfolding base64url_to_bytes
refused s h = rw h

-- A text is read as bytes exactly if its characters are letters, digits, `-` and `_`, and their number is
-- not one more than a multiple of four. Any other is refused.
pub is_some-base64url_to_bytes :
    (s : Text) → is_some (base64url_to_bytes s) ≡ (all_url_safe s && not (length s % 4 == 1))
is_some-base64url_to_bytes s = elim (Bool-cases (all_url_safe s)) [
  | inr h ↦ rw (refused s h, h)
  | inl h ↦ elim (Bool-cases (length s % 4 == 1)) [
    | inl one ↦
        let left = unpad_left (standard s) (rw (length-standard s) ((==_iff _ 1).0 one)) in
        let none_left : base64url_to_bytes s ≡ none =
          base64url_to_bytes-decode s h ∙ ap decode left ∙ decode-pad (standard s) in
        rw (none_left, h, one)
    | inr more ↦
        let (vs, e, l) = symbol_values-standard s h in
        let n : length s % 4 ≢ 1 = λ q. ground (arith, q) in
        rw (base64url_to_bytes-values s vs h n e, h, is_some-ungroup vs, l)
  ]
]
