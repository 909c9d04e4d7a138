-- ===== src/Leader/Tab/Budget.antt =====
-- packages/storage/src/leader.ts, the restart budget of `createLeaderTransport`: the list of failure
-- times that is purged at each failure, against the window of 30 seconds that it stands for.
use opfs_webauthn.Leader.Tab.Failure.{
  counted, fail_for_good-tab, handle_writer_failure-after, handle_writer_failure-tab, is_spent,
  let_go, restart-again, restart-spent,
}
use opfs_webauthn.Leader.Tab.Leading.{
  handle_writer_failure, purge, request_the_lock, restart_window_ms,
}
use opfs_webauthn.Leader.Tab.State.{Tab}
use opfs_webauthn.Prelude.{
  All, All-append, Bool, Bool-cases, List, Text, [], ap, arith, false, if◌then◌else◌, inl, inr, leb,
  length, length-append, refl, some, true, ℕ, ◌++◌, ◌+◌, ◌∙◌, ◌∷◌, ◌≡◌, ◌≤◌,
}
use mathlib.Core.List.{append-nil}

abbrev pub is_recent : ℕ → ℕ → Bool
is_recent now time = leb now (time + restart_window_ms)

-- The times within the window that ends at `now`.
unfoldable pub window : ℕ → List ℕ → List ℕ
window now [] = []
window now (time ∷ times) =
    let rest = window now times in if is_recent now time then time ∷ rest else rest

-- No time is before the one in front of it.
abbrev pub IsOrdered : List ℕ → Type 0
IsOrdered [] = Unit {0}
IsOrdered (time ∷ times) = All (λ later. time ≤ later) times × IsOrdered times

window-All :
    (now first : ℕ) (times : List ℕ)
    → is_recent now first ≡ true
    → All (λ later. first ≤ later) times
    → window now times ≡ times
unfolding window
window-All now first [] r a = refl
window-All now first (time ∷ times) r a = ground (arith, window-All now first times r a.1, a.0)

-- On a list in order, the loop that stops at the first recent time drops exactly the others.
purge-window : (now : ℕ) (times : List ℕ) → IsOrdered times → purge now times ≡ window now times
unfolding purge window
purge-window now [] o = refl
purge-window now (time ∷ times) o =
    ground (arith, purge-window now times o.1, window-All now time times)

-- The times that a transport keeps after failures at the times given, the last one first.
unfoldable pub counted_times : List ℕ → List ℕ
counted_times [] = []
counted_times (now ∷ before) = purge now (counted_times before) ++ (now ∷ [])

abbrev pub IsRecorded : List ℕ → Type 0
IsRecorded [] = Unit {0}
IsRecorded (now ∷ before) = All (λ earlier. earlier ≤ now) before × IsRecorded before

-- The failures before `now`, last first, that lie in the window ending at `now`: oldest first, and how many.
unfoldable pub recent : ℕ → List ℕ → List ℕ
recent now [] = []
recent now (time ∷ before) = recent now before ++ (if is_recent now time then time ∷ [] else [])

unfoldable pub recent_count : ℕ → List ℕ → ℕ
recent_count now [] = 0
recent_count now (time ∷ before) = recent_count now before + (if is_recent now time then 1 else 0)

length-recent : (now : ℕ) (before : List ℕ) → length (recent now before) ≡ recent_count now before
unfolding recent recent_count
length-recent now [] = refl
length-recent now (time ∷ before) = ground (
  arith,
  length-recent now before,
  length-append (recent now before) (time ∷ []),
  length-append (recent now before) [],
)

window-append : (now : ℕ) (xs ys : List ℕ) → window now (xs ++ ys) ≡ window now xs ++ window now ys
unfolding window
window-append now [] ys = refl
window-append now (x ∷ xs) ys = ground (arith, window-append now xs ys)

-- A window within an earlier one.
window-recent :
    (now before : ℕ) (times : List ℕ)
    → before ≤ now
    → window now (recent before times) ≡ recent now times
unfolding recent window
window-recent now before [] h = refl
window-recent now before (time ∷ times) h =
    let tail : List ℕ = if is_recent before time then time ∷ [] else [] in
    window-append now (recent before times) tail ∙ ground (arith, window-recent now before times h)

IsOrdered-snoc :
    (times : List ℕ) (now : ℕ)
    → All (λ t. t ≤ now) times
    → IsOrdered times
    → IsOrdered (times ++ (now ∷ []))
IsOrdered-snoc [] now a o = (tt, tt)
IsOrdered-snoc (time ∷ times) now a o = (
  All-append (λ later. time ≤ later) times (now ∷ []) o.0 (a.0, tt),
  IsOrdered-snoc times now a.1 o.1,
)

All-recent :
    (now bound : ℕ) (before : List ℕ)
    → All (λ t. t ≤ bound) before
    → All (λ t. t ≤ bound) (recent now before)
unfolding recent
All-recent now bound [] a = tt
All-recent now bound (time ∷ before) a =
    All-append (λ t. t ≤ bound) (recent now before) (if is_recent now time then time ∷ [] else [])
      (All-recent now bound before a.1) (last (is_recent now time))
  where
    last : (b : Bool) → All (λ t. t ≤ bound) (if b then time ∷ [] else [])
    last true = (a.0, tt)
    last false = tt

recent-IsOrdered : (now : ℕ) (before : List ℕ) → IsRecorded before → IsOrdered (recent now before)
unfolding recent
recent-IsOrdered now [] r = tt
recent-IsOrdered now (time ∷ before) r = elim (Bool-cases (is_recent now time)) [
  | inl h ↦ ground (
    arith,
    IsOrdered-snoc (recent now before) time (All-recent now time before r.0)
        (recent-IsOrdered now before r.1),
  )
  | inr h ↦ ground (arith, recent-IsOrdered now before r.1, append-nil (recent now before))
]

-- The purged list holds exactly the failures within the window of the last one, however many came before.
counted_times-recent :
    (now : ℕ) (before : List ℕ)
    → IsRecorded (now ∷ before)
    → counted_times (now ∷ before) ≡ recent now before ++ (now ∷ [])
unfolding counted_times recent window purge
counted_times-recent now [] r = refl
counted_times-recent now (prev ∷ before) r =
    let kept : List ℕ = recent prev before ++ (prev ∷ []) in
    let ordered : IsOrdered kept =
      IsOrdered-snoc (recent prev before) prev (All-recent prev prev before r.1.0)
        (recent-IsOrdered prev before r.1.1) in
    ap (λ ts. ts ++ (now ∷ []))
      (ap (purge now) (counted_times-recent prev before r.1)
        ∙ purge-window now kept ordered
        ∙ window-append now (recent prev before) (prev ∷ [])
        ∙ ap (λ ts. ts ++ window now (prev ∷ [])) (window-recent now prev before r.0.0))

-- A tab whose writer fails again fails for good exactly if two earlier failures lie within 30
-- seconds. `before` lists the times of the failures that the tab has counted, the last one first; the
-- clock does not run backwards.
pub failed-recent :
    (id : Text) (now : ℕ) (before : List ℕ) (t : Tab)
    → t.failures ≡ counted_times before
    → IsRecorded (now ∷ before)
    → t.closed ≡ false
    → t.failed ≡ false
    → t.leader_id ≡ some id
    → let t' = (handle_writer_failure id now t).0 in
      (t'.failures ≡ counted_times (now ∷ before)) × (t'.failed ≡ leb 2 (recent_count now before))
unfolding counted_times let_go request_the_lock
failed-recent id now before t e r c f l = (
  elim (Bool-cases (is_spent now t)) [
    | inl s ↦
        ap (λ u. u.failures)
          (handle_writer_failure-tab id now t c l
            ∙ ap (λ r. r.0) (restart-spent now (let_go t) c s)
            ∙ fail_for_good-tab (counted now (let_go t)))
        ∙ kept
    | inr s ↦
        ap (λ u. u.failures)
          (handle_writer_failure-tab id now t c l
            ∙ ap (λ r. r.0) (restart-again now (let_go t) c s))
        ∙ ground (arith, kept)
  ],
  ground (arith, handle_writer_failure-after id now t c f l, budget),
)
  where
    kept : (counted now t).failures ≡ counted_times (now ∷ before)
    kept = ap (λ ts. purge now ts ++ (now ∷ [])) e

    budget : is_spent now t ≡ leb 2 (recent_count now before)
    budget = ground (
      arith,
      ap length (kept ∙ counted_times-recent now before r),
      length-append (recent now before) (now ∷ []),
      length-recent now before,
    )
