-- ===== src/Markdown/Pairs.antt =====
-- apps/web/src/notes/markdown.tsx, `STRIP_CACHE`: a map that holds a function's values at some keys.
use opfs_webauthn.Map
use opfs_webauthn.Map.{Map}
use opfs_webauthn.Markdown.Defs.{evict_oldest}
use opfs_webauthn.Markdown.Recency.{
  Distinct, count, last_n, last_n-all, last_n-skip, remove, remove-absent,
}
use opfs_webauthn.Prelude.{
  Bool-cases, Eq, List, Text, [], ap, arith, false, if◌then◌else◌, inl, inr, leb, length, ltb, map,
  nat_eq, none, refl, some, suc, text_eq, ℕ, ◌++◌, ◌∷◌, ◌≡◌, ◌≤◌,
}

module _ {ℓ κ} {K : Type ℓ} {V : Type κ} ⦃e : Eq K⦄ (f : K → V) where
  abbrev pub pairs_of : List K → Map K V
  pairs_of ks = map (λ k. (k, f k)) ks

  pub get-pairs_of :
      (k : K) (ks : List K)
      → Map.get k (pairs_of ks) ≡ (if leb 1 (count k ks) then some (f k) else none)
  unfolding Map.get
  get-pairs_of k [] = ground arith
  get-pairs_of k (j ∷ ks) = elim (Bool-cases (e.beq j k)) [
    | inl b ↦ let same = ap f ((e.beq_iff j k).0 b) in rw (b, same) (ground arith)
    | inr b ↦ ground (arith, get-pairs_of k ks)
  ]

  pub delete-pairs_of : (k : K) (ks : List K) → Map.delete k (pairs_of ks) ≡ pairs_of (remove k ks)
  unfolding Map.delete remove
  delete-pairs_of k [] = refl
  delete-pairs_of k (j ∷ ks) = elim (Bool-cases (e.beq j k)) [
    | inl b ↦ rw b (delete-pairs_of k ks)
    | inr b ↦ rw (b, delete-pairs_of k ks)
  ]

  pub set-pairs_of :
      (k : K) (ks : List K)
      → count k ks ≡ 0
      → Map.set k (f k) (pairs_of ks) ≡ pairs_of (ks ++ (k ∷ []))
  unfolding Map.set
  set-pairs_of k [] h = refl
  set-pairs_of k (j ∷ ks) h =
      let b : e.beq j k ≡ false = ground arith in rw (b, set-pairs_of k ks (ground arith))

  pub length-pairs_of : (ks : List K) → length (pairs_of ks) ≡ length ks
  length-pairs_of [] = refl
  length-pairs_of (k ∷ ks) = ap suc (length-pairs_of ks)

-- `evict_oldest` keeps a map of `n` entries.
pub evict-pairs_of :
    (f : Text → Text) (n : ℕ) (ks : List Text)
    → Distinct ks
    → length ks ≤ suc n
    → (if ltb n (length (pairs_of f ks)) then evict_oldest (pairs_of f ks) else pairs_of f ks)
      ≡ pairs_of f (last_n n ks)
unfolding Map.delete last_n
evict-pairs_of f n [] d l = let b : ltb n 0 ≡ false = ground arith in rw b refl
evict-pairs_of f n (j ∷ ks) d l = elim (Bool-cases (ltb n (suc (length ks)))) [
  | inr b ↦ rw (length-pairs_of f ks, b, last_n-all n (j ∷ ks) (ground arith))
  | inl b ↦
      let once : count j ks ≡ 0 = ground (arith, d j, Map.beq_refl j) in
      rw (
        length-pairs_of f ks,
        b,
        Map.beq_refl j,
        delete-pairs_of f j ks,
        remove-absent j ks once,
        last_n-skip n j ks (ground arith),
        last_n-all n ks (ground arith),
      )
]
