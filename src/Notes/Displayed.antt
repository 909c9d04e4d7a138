-- ===== src/Notes/Displayed.antt =====
-- packages/storage/src/note-repository.ts, `list`: which rows of the table are listed.
use opfs_webauthn.Notes.Order.{
  All-map, StoredRow, insert, order_desc, order_desc-All, row_lt, where_rows,
}
use opfs_webauthn.Notes.Paging.{listing}
use opfs_webauthn.Prelude.{
  All, Bool, Bool-cases, List, Option, Text, [], ap, arith, false, inl, inr, refl, subst, sym, true,
  ℕ, ◌==◌, ◌↔◌, ◌∷◌, ◌≡◌, ◌⊎◌,
}
use mathlib.Core.List.{Memᴰ}

-- What the page shows: all rows, or those that are not archived, in falling order.
abbrev pub displayed : (include_archived : Bool) → List StoredRow → List StoredRow
displayed true table = order_desc table
displayed false table = order_desc (where_rows (λ r. r.archived == 0) table)

where_rows-all : (table : List StoredRow) → where_rows (λ r. true) table ≡ table
unfolding where_rows
where_rows-all [] = refl
where_rows-all (r ∷ table) = ap (◌∷◌ r) (where_rows-all table)

pub listing-displayed :
    (encode_row_id : List ℕ → Text) (decode_row_id : Text → Option (List ℕ))
    (include_archived : Bool) (table : List StoredRow)
    → listing encode_row_id decode_row_id include_archived table ≡ displayed include_archived table
listing-displayed encode decode true table = ap order_desc (where_rows-all table)
listing-displayed encode decode false table = refl

insert-mem : (r : StoredRow) (rows : List StoredRow) → Memᴰ r (insert r rows)
unfolding insert
insert-mem r [] = Memᴰ.head refl
insert-mem r (s ∷ rows) = elim (Bool-cases (row_lt s r)) [
  | inl b ↦ rw b (Memᴰ.head refl)
  | inr b ↦ rw b (Memᴰ.tail (insert-mem r rows))
]

insert-mem_other : (q r : StoredRow) (rows : List StoredRow) → Memᴰ q rows → Memᴰ q (insert r rows)
unfolding insert
insert-mem_other q r [] m = elim m [ ]
insert-mem_other q r (s ∷ rows) (Memᴰ.head e) = elim (Bool-cases (row_lt s r)) [
  | inl b ↦ rw b (Memᴰ.tail (Memᴰ.head e))
  | inr b ↦ rw b (Memᴰ.head e)
]
insert-mem_other q r (s ∷ rows) (Memᴰ.tail m) = elim (Bool-cases (row_lt s r)) [
  | inl b ↦ rw b (Memᴰ.tail (Memᴰ.tail m))
  | inr b ↦ rw b (Memᴰ.tail (insert-mem_other q r rows m))
]

order_desc-mem : (q : StoredRow) (rows : List StoredRow) → Memᴰ q rows → Memᴰ q (order_desc rows)
unfolding order_desc
order_desc-mem q [] m = elim m [ ]
order_desc-mem q (r ∷ rows) (Memᴰ.head e) =
    subst (λ x. Memᴰ x (insert r (order_desc rows))) (sym e) (insert-mem r (order_desc rows))
order_desc-mem q (r ∷ rows) (Memᴰ.tail m) =
    insert-mem_other q r (order_desc rows) (order_desc-mem q rows m)

where_rows-mem :
    (p : StoredRow → Bool) (q : StoredRow) (rows : List StoredRow)
    → Memᴰ q rows
    → p q ≡ true
    → Memᴰ q (where_rows p rows)
unfolding where_rows
where_rows-mem p q [] m h = elim m [ ]
where_rows-mem p q (r ∷ rows) (Memᴰ.head e) h =
    let k : p r ≡ true = subst (λ x. p x ≡ true) e h in rw k (Memᴰ.head e)
where_rows-mem p q (r ∷ rows) (Memᴰ.tail m) h = elim (Bool-cases (p r)) [
  | inl b ↦ rw b (Memᴰ.tail (where_rows-mem p q rows m h))
  | inr b ↦ rw b (where_rows-mem p q rows m h)
]

-- The rows to show: those of the table, of which archived ones only if they are asked for.
abbrev IsShown : (include_archived : Bool) → List StoredRow → StoredRow → Type 0
IsShown include_archived table r = Memᴰ r table × ((include_archived ≡ true) ⊎ (r.archived ≡ 0))

IsShown-displayed :
    (include_archived : Bool) (table : List StoredRow) (r : StoredRow)
    → IsShown include_archived table r
    → Memᴰ r (displayed include_archived table)
IsShown-displayed true table r (m, s) = order_desc-mem r table m
IsShown-displayed false table r (m, inl s) = absurd (ground arith)
IsShown-displayed false table r (m, inr s) =
    order_desc-mem r _ (where_rows-mem (λ q. q.archived == 0) r table m (ground arith))

rows_mem : (rows : List StoredRow) → All (λ r. Memᴰ r rows) rows
rows_mem [] = tt
rows_mem (r ∷ rows) =
    (Memᴰ.head refl, All-map (λ q. Memᴰ q rows) _ rows (λ q m. Memᴰ.tail m) (rows_mem rows))

where_rows-both :
    (P : StoredRow → Type 0) (p : StoredRow → Bool) (rows : List StoredRow)
    → All P rows
    → All (λ r. P r × (p r ≡ true)) (where_rows p rows)
unfolding where_rows
where_rows-both P p [] a = tt
where_rows-both P p (r ∷ rows) a = elim (Bool-cases (p r)) [
  | inl b ↦ rw b ((a.0, b), where_rows-both P p rows a.1)
  | inr b ↦ rw b (where_rows-both P p rows a.1)
]

displayed-IsShown :
    (include_archived : Bool) (table : List StoredRow)
    → All (IsShown include_archived table) (displayed include_archived table)
displayed-IsShown true table =
    order_desc-All (IsShown true table) table
      (All-map (λ r. Memᴰ r table) _ table (λ r m. (m, inl refl)) (rows_mem table))
displayed-IsShown false table = order_desc-All (IsShown false table) _ (
    All-map _ _ (where_rows (λ q. q.archived == 0) table) (λ r b. (b.0, inr (ground (arith, b.1))))
      (where_rows-both (λ r. Memᴰ r table) (λ q. q.archived == 0) table (rows_mem table)))

mem-All :
    (P : StoredRow → Type 0) (r : StoredRow) (rows : List StoredRow)
    → Memᴰ r rows
    → All P rows
    → P r
mem-All P r [] m a = elim m [ ]
mem-All P r (q ∷ rows) (Memᴰ.head e) a = subst P (sym e) a.0
mem-All P r (q ∷ rows) (Memᴰ.tail m) a = mem-All P r rows m a.1

-- What is displayed are rows of the table.
pub displayed-mem :
    (include_archived : Bool) (table : List StoredRow)
    → All (λ r. Memᴰ r table) (displayed include_archived table)
displayed-mem archived table =
    All-map _ _ (displayed archived table) (λ r s. s.0) (displayed-IsShown archived table)

-- A row of the table is displayed just if archived ones are asked for or it is not archived.
pub displayed_iff :
    (include_archived : Bool) (table : List StoredRow)
    → All
        (λ r.
          Memᴰ r (displayed include_archived table)
          ↔ ((include_archived ≡ true) ⊎ (r.archived ≡ 0)))
        table
displayed_iff archived table =
    All-map _ _ table
      (λ r m. (
        λ k. (mem-All (IsShown archived table) r _ k (displayed-IsShown archived table)).1,
        λ s. IsShown-displayed archived table r (m, s),
      ))
      (rows_mem table)
