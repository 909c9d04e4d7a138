-- ===== src/Markdown/Recency.antt =====
-- Lists of distinct keys, the last used at the end, and maps over the last few of them.
use opfs_webauthn.Prelude.{
  Bool-cases, Eq, List, [], ap, arith, false, if◌then◌else◌, inl, inr, leb, length, length-append,
  min, refl, suc, sym, true, ℕ, ◌++◌, ◌+◌, ◌∙◌, ◌∷◌, ◌≡◌, ◌≤◌,
}

module _ {ℓ} {K : Type ℓ} ⦃e : Eq K⦄ where
  abbrev pub count : K → List K → ℕ
  count k [] = 0
  count k (j ∷ ks) = (if e.beq j k then 1 else 0) + count k ks

  unfoldable pub remove : K → List K → List K
  remove k [] = []
  remove k (j ∷ ks) = let rest = remove k ks in if e.beq j k then rest else j ∷ rest

  -- A use of a key.
  unfoldable pub touch : K → List K → List K
  unfolding remove
  touch k ks = remove k ks ++ (k ∷ [])

  -- The last entries of a list, `n` at most.
  unfoldable pub last_n : ℕ → List K → List K
  last_n n [] = []
  last_n n (j ∷ ks) = let rest = last_n n ks in if leb (suc (length ks)) n then j ∷ ks else rest

  abbrev pub Distinct : List K → Type ℓ
  Distinct ks = (k : K) → count k ks ≤ 1

  pub count-append : (k : K) (ks js : List K) → count k (ks ++ js) ≡ count k ks + count k js
  count-append k [] js = omega arith
  count-append k (j ∷ ks) js = ground (arith, count-append k ks js)

  pub count-remove :
      (k j : K) (ks : List K) → count j (remove k ks) ≡ (if e.beq k j then 0 else count j ks)
  unfolding remove
  count-remove k j [] = ground arith
  count-remove k j (i ∷ ks) =
      ground (arith, e.beq_iff k j, e.beq_iff i k, e.beq_iff i j, count-remove k j ks)

  pub length-remove : (k : K) (ks : List K) → length (remove k ks) + count k ks ≡ length ks
  unfolding remove
  length-remove k [] = ground arith
  length-remove k (j ∷ ks) = ground (arith, length-remove k ks)

  pub remove-absent : (k : K) (ks : List K) → count k ks ≡ 0 → remove k ks ≡ ks
  unfolding remove
  remove-absent k [] h = refl
  remove-absent k (j ∷ ks) h = ground (arith, remove-absent k ks)

  pub touch-Distinct : (k : K) (ks : List K) → Distinct ks → Distinct (touch k ks)
  unfolding touch
  touch-Distinct k ks d j =
      ground (arith, count-append j (remove k ks) (k ∷ []), count-remove k j ks, d j)

  length-touch : (k : K) (ks : List K) → length (touch k ks) + count k ks ≡ suc (length ks)
  unfolding touch
  length-touch k ks = ground (arith, length-append (remove k ks) (k ∷ []), length-remove k ks)

  pub last_n-all : (n : ℕ) (ks : List K) → length ks ≤ n → last_n n ks ≡ ks
  unfolding last_n
  last_n-all n [] h = refl
  last_n-all n (j ∷ ks) h = ground arith

  pub length-last_n : (n : ℕ) (ks : List K) → length (last_n n ks) ≡ min n (length ks)
  unfolding last_n
  length-last_n n [] = ground arith
  length-last_n n (j ∷ ks) = ground (arith, length-last_n n ks)

  count-last_n : (n : ℕ) (k : K) (ks : List K) → count k (last_n n ks) ≤ count k ks
  unfolding last_n
  count-last_n n k [] = ground arith
  count-last_n n k (j ∷ ks) = ground (arith, count-last_n n k ks)

  pub last_n-Distinct : (n : ℕ) (ks : List K) → Distinct ks → Distinct (last_n n ks)
  last_n-Distinct n ks d k = omega (arith, count-last_n n k ks, d k)

  pub last_n-skip : (n : ℕ) (j : K) (ks : List K) → n ≤ length ks → last_n n (j ∷ ks) ≡ last_n n ks
  unfolding last_n
  last_n-skip n j ks h = ground arith

  touch-same : (k j : K) (ks : List K) → e.beq j k ≡ true → touch k (j ∷ ks) ≡ touch k ks
  unfolding touch remove
  touch-same k j ks b = rw b

  touch-other : (k j : K) (ks : List K) → e.beq j k ≡ false → touch k (j ∷ ks) ≡ j ∷ touch k ks
  unfolding touch remove
  touch-other k j ks b = rw b

  tail-Distinct : (j : K) (ks : List K) → Distinct (j ∷ ks) → Distinct ks
  tail-Distinct j ks d k = ground (arith, d k)

  -- A key that is among the last ones becomes the last of them.
  pub last_n-touch_hit :
      (n : ℕ) (k : K) (ks : List K)
      → Distinct ks
      → count k (last_n n ks) ≡ 1
      → last_n n (touch k ks) ≡ touch k (last_n n ks)
  last_n-touch_hit n k [] d h = absurd (omega (arith, h, count-last_n n k []))
  last_n-touch_hit n k (j ∷ ks) d h = elim (Bool-cases (leb (suc (length ks)) n)) [
    | inl b ↦
        let short : length (j ∷ ks) ≤ n = ground arith in
        let all = last_n-all n (j ∷ ks) short in
        let once : count k (j ∷ ks) ≡ 1 = sym (ap (count k) all) ∙ h in
        last_n-all n (touch k (j ∷ ks)) (omega (arith, length-touch k (j ∷ ks), once, short))
        ∙ sym (ap (touch k) all)
    | inr b ↦
        let long : n ≤ length ks = ground arith in
        let skip = last_n-skip n j ks long in
        let there : count k (last_n n ks) ≡ 1 = sym (ap (count k) skip) ∙ h in
        let once : 1 ≤ count k ks = omega (arith, count-last_n n k ks, there) in
        let other : e.beq j k ≡ false = ground (arith, d k) in
        let still : n ≤ length (touch k ks) =
          omega (arith, length-touch k ks, tail-Distinct j ks d k, long) in
        ap (last_n n) (touch-other k j ks other)
        ∙ last_n-skip n j (touch k ks) still
        ∙ last_n-touch_hit n k ks (tail-Distinct j ks d) there
        ∙ sym (ap (touch k) skip)
  ]

  -- Another key joins them, and the first one leaves if they are too many.
  pub last_n-touch_miss :
      (n : ℕ) (k : K) (ks : List K)
      → Distinct ks
      → count k (last_n n ks) ≡ 0
      → last_n n (touch k ks) ≡ last_n n (last_n n ks ++ (k ∷ []))
  unfolding last_n touch remove
  last_n-touch_miss n k [] d h = refl
  last_n-touch_miss n k (j ∷ ks) d h = elim (Bool-cases (leb (suc (length ks)) n)) [
    | inl b ↦
        let all = last_n-all n (j ∷ ks) (ground arith) in
        let absent : count k (j ∷ ks) ≡ 0 = sym (ap (count k) all) ∙ h in
        ap (λ l. last_n n (l ++ (k ∷ []))) (remove-absent k (j ∷ ks) absent ∙ sym all)
    | inr b ↦
        let long : n ≤ length ks = ground arith in
        let skip = last_n-skip n j ks long in
        let rest =
          last_n-touch_miss n k ks (tail-Distinct j ks d) (sym (ap (count k) skip) ∙ h)
          ∙ sym (ap (λ l. last_n n (l ++ (k ∷ []))) skip) in
        elim (Bool-cases (e.beq j k)) [
          | inl same ↦ ap (last_n n) (touch-same k j ks same) ∙ rest
          | inr differs ↦
              let still : n ≤ length (touch k ks) =
                omega (arith, length-touch k ks, tail-Distinct j ks d k, long) in
              ap (last_n n) (touch-other k j ks differs) ∙ last_n-skip n j (touch k ks) still ∙ rest
        ]
  ]
