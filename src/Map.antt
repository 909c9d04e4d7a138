-- ===== src/Map.antt =====
-- JavaScript's `Map`: entries in insertion order. `set` on a key that is there keeps its place.
use opfs_webauthn.Prelude.{
  ◌≡◌, refl, true, List, [], ◌∷◌, Option, none, some, arith, if◌then◌else◌, Eq, ℕ, ◌+◌, leb,
  is_some,
}

abbrev pub Map {ℓ κ} : Type ℓ → Type κ → Type (ℓ ⊔ κ)
Map K V = List (K × V)

module _ {ℓ κ} {K : Type ℓ} {V : Type κ} where
  abbrev pub keys : Map K V → List K
  keys [] = []
  keys ((k, v) ∷ m) = k ∷ keys m

  abbrev pub values : Map K V → List V
  values [] = []
  values ((k, v) ∷ m) = v ∷ values m

module _ {ℓ κ} {K : Type ℓ} {V : Type κ} ⦃e : Eq K⦄ where
  unfoldable pub get : K → Map K V → Option V
  get k [] = none
  get k ((j, v) ∷ m) = if e.beq j k then some v else get k m

  unfoldable pub set : K → V → Map K V → Map K V
  set k v [] = (k, v) ∷ []
  set k v ((j, w) ∷ m) = if e.beq j k then (j, v) ∷ m else (j, w) ∷ set k v m

  -- `delete` on a map with distinct keys drops the one entry of the key.
  unfoldable pub delete : K → Map K V → Map K V
  delete k [] = []
  delete k ((j, v) ∷ m) = let rest = delete k m in if e.beq j k then rest else (j, v) ∷ rest

  pub get-set :
      (k j : K) (v : V) (m : Map K V) → get j (set k v m) ≡ (if e.beq k j then some v else get j m)
  unfolding get set
  get-set k j v [] = refl
  get-set k j v ((i, w) ∷ m) =
      ground (arith, e.beq_iff k j, e.beq_iff i k, e.beq_iff i j, get-set k j v m)

  pub get-delete :
      (k j : K) (m : Map K V) → get j (delete k m) ≡ (if e.beq k j then none else get j m)
  unfolding get delete
  get-delete k j [] = ground arith
  get-delete k j ((i, w) ∷ m) =
      ground (arith, e.beq_iff k j, e.beq_iff i k, e.beq_iff i j, get-delete k j m)

-- How many entries a key has: one at most in a `Map` of the language.
module _ {ℓ κ} {K : Type ℓ} {V : Type κ} ⦃e : Eq K⦄ where
  unfoldable pub tally : K → Map K V → ℕ
  tally k [] = 0
  tally k ((j, v) ∷ m) = (if e.beq j k then 1 else 0) + tally k m

  pub tally-set :
      (k j : K) (v : V) (m : Map K V)
      → tally j (set k v m)
        ≡ tally j m + (if e.beq k j then (if leb 1 (tally k m) then 0 else 1) else 0)
  unfolding tally set
  tally-set k j v [] = ground arith
  tally-set k j v ((i, w) ∷ m) =
      ground (arith, e.beq_iff k j, e.beq_iff i k, e.beq_iff i j, tally-set k j v m)

  pub tally-delete :
      (k j : K) (m : Map K V) → tally j (delete k m) ≡ (if e.beq k j then 0 else tally j m)
  unfolding tally delete
  tally-delete k j [] = ground arith
  tally-delete k j ((i, w) ∷ m) =
      ground (arith, e.beq_iff k j, e.beq_iff i k, e.beq_iff i j, tally-delete k j m)

  pub tally-get : (k : K) (m : Map K V) → is_some (get k m) ≡ leb 1 (tally k m)
  unfolding tally get
  tally-get k [] = ground arith
  tally-get k ((i, w) ∷ m) = ground (arith, tally-get k m)

pub ruleset map_laws = (get-set, get-delete)

pub beq_refl {ℓ} : {K : Type ℓ} ⦃e : Eq K⦄ (k : K) → e.beq k k ≡ true
beq_refl ⦃e⦄ k = (e.beq_iff k k).1 refl
