-- ===== src/Notes/Sorting.antt =====
-- `WHERE` and `ORDER BY` commute, and the rows below a row of the result are those after it.
use opfs_webauthn.Notes.Order.{
  All-map, IsDescending, IsDistinct, StoredRow, insert, order_desc, order_desc-IsDescending, row_lt,
  row_lt_irrefl, row_lt_trans, where_rows,
}
use opfs_webauthn.Prelude.{
  All, Bool, Bool-cases, List, [], ap, arith, false, if_false, if_true, if◌then◌else◌, inl, inr,
  refl, subst, sym, true, ◌&&◌, ◌++◌, ◌∙◌, ◌∷◌, ◌≡◌, ◌≢◌,
}

where_rows-and :
    (p q : StoredRow → Bool) (rows : List StoredRow)
    → where_rows (λ r. p r && q r) rows ≡ where_rows q (where_rows p rows)
unfolding where_rows
where_rows-and p q [] = refl
where_rows-and p q (r ∷ rows) = ground (arith, where_rows-and p q rows)

pub where_rows-All :
    (P : StoredRow → Type 0) (q : StoredRow → Bool) (rows : List StoredRow)
    → All P rows
    → All P (where_rows q rows)
unfolding where_rows
where_rows-All P q [] a = tt
where_rows-All P q (r ∷ rows) a = elim (Bool-cases (q r)) [
  | inl h ↦ subst (All P) (sym (if_true (q r) _ _ h)) (a.0, where_rows-All P q rows a.1)
  | inr h ↦ subst (All P) (sym (if_false (q r) _ _ h)) (where_rows-All P q rows a.1)
]

pub where_rows-IsDistinct :
    (q : StoredRow → Bool) (rows : List StoredRow)
    → IsDistinct rows
    → IsDistinct (where_rows q rows)
unfolding where_rows
where_rows-IsDistinct q [] d = tt
where_rows-IsDistinct q (r ∷ rows) d = elim (Bool-cases (q r)) [
  | inl h ↦
      subst IsDistinct (sym (if_true (q r) _ _ h))
        (where_rows-All (λ s. r.id ≢ s.id) q rows d.0, where_rows-IsDistinct q rows d.1)
  | inr h ↦ subst IsDistinct (sym (if_false (q r) _ _ h)) (where_rows-IsDistinct q rows d.1)
]

insert_first :
    (r : StoredRow) (rows : List StoredRow)
    → All (λ s. row_lt s r ≡ true) rows
    → insert r rows ≡ r ∷ rows
unfolding insert
insert_first r [] a = refl
insert_first r (s ∷ rows) a = if_true (row_lt s r) _ _ a.0

where_rows-insert :
    (q : StoredRow → Bool) (r : StoredRow) (rows : List StoredRow)
    → IsDescending rows
    → where_rows q (insert r rows)
      ≡ (if q r then insert r (where_rows q rows) else where_rows q rows)
unfolding where_rows insert
where_rows-insert q r [] d = ground arith
where_rows-insert q r (s ∷ rows) d = elim (Bool-cases (row_lt s r)) [
  | inl h ↦
      let below : All (λ u. row_lt u r ≡ true) (s ∷ rows) =
        (h, All-map _ _ rows (λ u k. row_lt_trans u s r k h) d.0) in
      ground (arith, insert_first r (where_rows q (s ∷ rows)) (where_rows-All _ q (s ∷ rows) below))
  | inr h ↦ ground (arith, where_rows-insert q r rows d.1)
]

order_desc-where :
    (q : StoredRow → Bool) (rows : List StoredRow)
    → IsDistinct rows
    → order_desc (where_rows q rows) ≡ where_rows q (order_desc rows)
unfolding order_desc where_rows
order_desc-where q [] d = refl
order_desc-where q (r ∷ rows) d = ground (
  arith,
  order_desc-where q rows d.1,
  where_rows-insert q r (order_desc rows) (order_desc-IsDescending rows d.1),
)

where_rows-tail :
    (r : StoredRow) (rows : List StoredRow)
    → All (λ s. row_lt s r ≡ true) rows
    → where_rows (λ s. row_lt s r) rows ≡ rows
unfolding where_rows
where_rows-tail r [] a = refl
where_rows-tail r (s ∷ rows) a =
    if_true (row_lt s r) _ _ a.0 ∙ ap (◌∷◌ s) (where_rows-tail r rows a.1)

pub All-middle :
    (P : StoredRow → Type 0) (xs : List StoredRow) (r : StoredRow) (ys : List StoredRow)
    → All P (xs ++ (r ∷ ys))
    → P r
All-middle P [] r ys a = a.0
All-middle P (x ∷ xs) r ys a = All-middle P xs r ys a.1

row_lt-asym : (r s : StoredRow) → row_lt r s ≡ true → row_lt s r ≡ false
row_lt-asym r s h = elim (Bool-cases (row_lt s r)) [
  | inl k ↦ absurd (ground (arith, row_lt_trans r s r h k, row_lt_irrefl r))
  | inr k ↦ k
]

where_rows-after :
    (xs : List StoredRow) (r : StoredRow) (ys : List StoredRow)
    → IsDescending (xs ++ (r ∷ ys))
    → where_rows (λ s. row_lt s r) (xs ++ (r ∷ ys)) ≡ ys
unfolding where_rows
where_rows-after [] r ys d = if_false (row_lt r r) _ _ (row_lt_irrefl r) ∙ where_rows-tail r ys d.0
where_rows-after (x ∷ xs) r ys d =
    if_false (row_lt x r) _ _ (row_lt-asym r x (All-middle _ xs r ys d.0))
    ∙ where_rows-after xs r ys d.1

-- What a query finds below a row of its result is what comes after that row.
pub order_desc-below :
    (p : StoredRow → Bool) (xs : List StoredRow) (r : StoredRow) (ys table : List StoredRow)
    → IsDistinct table
    → order_desc (where_rows p table) ≡ xs ++ (r ∷ ys)
    → order_desc (where_rows (λ s. p s && row_lt s r) table) ≡ ys
order_desc-below p xs r ys table d e =
    ap order_desc (where_rows-and p (λ s. row_lt s r) table)
    ∙ order_desc-where (λ s. row_lt s r) (where_rows p table) (where_rows-IsDistinct p table d)
    ∙ ap (where_rows (λ s. row_lt s r)) e
    ∙ where_rows-after xs r ys (
        subst IsDescending e
          (order_desc-IsDescending (where_rows p table) (where_rows-IsDistinct p table d)))
