-- ===== src/Notes/Order.antt =====
-- The order of `ORDER BY updated_day DESC, id DESC`, in which BLOBs compare byte by byte.
use opfs_webauthn.Prelude.{
  All, Bool, Bool-cases, List, [], arith, false, if_false, if_true, if◌then◌else◌, inl, inr, ltb,
  refl, subst, sym, true, ℕ, ◌&&◌, ◌==◌, ◌||◌, ◌∷◌, ◌≡◌, ◌≢◌,
}

-- A row of the table `notes`.
pub record StoredRow : Type 0 where
  pub id : List ℕ
  pub updated_day : ℕ
  pub archived : ℕ
  pub title_nonce : List ℕ
  pub title_ciphertext : List ℕ
  pub body_nonce : List ℕ
  pub body_ciphertext : List ℕ

unfoldable pub bytes_lt : List ℕ → List ℕ → Bool
bytes_lt [] [] = false
bytes_lt [] (d ∷ t) = true
bytes_lt (c ∷ s) [] = false
bytes_lt (c ∷ s) (d ∷ t) = let rest = bytes_lt s t in ltb c d || c == d && rest

-- `updated_day < ? OR (updated_day = ? AND id < ?)`
unfoldable pub is_below : StoredRow → ℕ → List ℕ → Bool
unfolding bytes_lt
is_below r day id = ltb r.updated_day day || r.updated_day == day && bytes_lt r.id id

abbrev pub row_lt : StoredRow → StoredRow → Bool
row_lt r s = is_below r s.updated_day s.id

bytes_lt_irrefl : (s : List ℕ) → bytes_lt s s ≡ false
unfolding bytes_lt
bytes_lt_irrefl [] = refl
bytes_lt_irrefl (c ∷ s) = ground (arith, bytes_lt_irrefl s)

bytes_lt_trans : (s t u : List ℕ) → bytes_lt s t ≡ true → bytes_lt t u ≡ true → bytes_lt s u ≡ true
unfolding bytes_lt
bytes_lt_trans [] [] u h k = cc
bytes_lt_trans (c ∷ s) [] u h k = cc
bytes_lt_trans [] (d ∷ t) [] h k = cc
bytes_lt_trans [] (d ∷ t) (e ∷ u) h k = refl
bytes_lt_trans (c ∷ s) (d ∷ t) [] h k = cc
bytes_lt_trans (c ∷ s) (d ∷ t) (e ∷ u) h k = ground (arith, bytes_lt_trans s t u)

bytes_lt-total : (s t : List ℕ) → bytes_lt s t ≡ false → bytes_lt t s ≡ false → s ≡ t
unfolding bytes_lt
bytes_lt-total [] [] h k = refl
bytes_lt-total [] (d ∷ t) h k = cc
bytes_lt-total (c ∷ s) [] h k = cc
bytes_lt-total (c ∷ s) (d ∷ t) h k = ground (arith, bytes_lt-total s t)

pub row_lt_irrefl : (r : StoredRow) → row_lt r r ≡ false
unfolding is_below
row_lt_irrefl r = ground (arith, bytes_lt_irrefl r.id)

pub row_lt_trans : (r s u : StoredRow) → row_lt r s ≡ true → row_lt s u ≡ true → row_lt r u ≡ true
unfolding is_below
row_lt_trans r s u h k = ground (arith, bytes_lt_trans r.id s.id u.id)

pub row_lt-total : (r s : StoredRow) → r.id ≢ s.id → row_lt r s ≡ false → row_lt s r ≡ true
unfolding is_below
row_lt-total r s n h = ground (arith, bytes_lt-total r.id s.id)

-- Rows from the last to the first.
unfoldable pub insert : StoredRow → List StoredRow → List StoredRow
insert r [] = r ∷ []
insert r (s ∷ rows) = let rest = insert r rows in if row_lt s r then r ∷ s ∷ rows else s ∷ rest

unfoldable pub order_desc : List StoredRow → List StoredRow
unfolding insert
order_desc [] = []
order_desc (r ∷ rows) = insert r (order_desc rows)

unfoldable pub where_rows : (StoredRow → Bool) → List StoredRow → List StoredRow
where_rows p [] = []
where_rows p (r ∷ rows) = let rest = where_rows p rows in if p r then r ∷ rest else rest

abbrev pub IsDescending : List StoredRow → Type 0
IsDescending [] = Unit
IsDescending (r ∷ rows) = All (λ s. row_lt s r ≡ true) rows × IsDescending rows

-- No other row has the row's id.
abbrev pub IsNew : StoredRow → List StoredRow → Type 0
IsNew r rows = All (λ s. r.id ≢ s.id) rows

abbrev pub IsDistinct : List StoredRow → Type 0
IsDistinct [] = Unit
IsDistinct (r ∷ rows) = IsNew r rows × IsDistinct rows

insert-All :
    (P : StoredRow → Type 0) (r : StoredRow) (rows : List StoredRow)
    → P r
    → All P rows
    → All P (insert r rows)
unfolding insert
insert-All P r [] p a = (p, tt)
insert-All P r (s ∷ rows) p a = elim (Bool-cases (row_lt s r)) [
  | inl h ↦ subst (All P) (sym (if_true (row_lt s r) _ _ h)) (p, a)
  | inr h ↦ subst (All P) (sym (if_false (row_lt s r) _ _ h)) (a.0, insert-All P r rows p a.1)
]

pub order_desc-All :
    (P : StoredRow → Type 0) (rows : List StoredRow) → All P rows → All P (order_desc rows)
unfolding order_desc
order_desc-All P [] a = tt
order_desc-All P (r ∷ rows) a = insert-All P r (order_desc rows) a.0 (order_desc-All P rows a.1)

pub All-map :
    (P Q : StoredRow → Type 0) (rows : List StoredRow)
    → ((r : StoredRow) → P r → Q r)
    → All P rows
    → All Q rows
All-map P Q [] f a = tt
All-map P Q (r ∷ rows) f a = (f r a.0, All-map P Q rows f a.1)

insert-IsDescending :
    (r : StoredRow) (rows : List StoredRow)
    → IsNew r rows
    → IsDescending rows
    → IsDescending (insert r rows)
unfolding insert
insert-IsDescending r [] n d = (tt, tt)
insert-IsDescending r (s ∷ rows) n d = elim (Bool-cases (row_lt s r)) [
  | inl h ↦
      subst IsDescending (sym (if_true (row_lt s r) _ _ h))
        ((h, All-map _ _ rows (λ u k. row_lt_trans u s r k h) d.0), d)
  | inr h ↦ subst IsDescending (sym (if_false (row_lt s r) _ _ h)) (
    insert-All _ r rows (row_lt-total s r (λ e. n.0 (sym e)) h) d.0,
    insert-IsDescending r rows n.1 d.1,
  )
]

pub order_desc-IsDescending :
    (rows : List StoredRow) → IsDistinct rows → IsDescending (order_desc rows)
unfolding order_desc
order_desc-IsDescending [] d = tt
order_desc-IsDescending (r ∷ rows) d =
    insert-IsDescending r (order_desc rows) (order_desc-All (λ s. r.id ≢ s.id) rows d.0)
      (order_desc-IsDescending rows d.1)
