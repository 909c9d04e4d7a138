-- ===== src/Leader/System/Tests.antt =====
-- packages/storage/src/leader.ts: the theorems on leaders, bridges and the lock, at a leader with two
-- clients and at two tabs over a first-come first-served lock.
use opfs_webauthn.Leader.System.Defs.{
  LockManager, Reach, System, apply, grants, make_calls, opens, start, then_step,
}
use opfs_webauthn.Leader.System.Safety.{IsFresh, single_writer}
use opfs_webauthn.Leader.Tab.{Tab, create, granted, step}
use opfs_webauthn.Leader.Tab.Calls.{LockCall, aborts, asks, releases}
use opfs_webauthn.Prelude.{
  ==_iff, List, Option, [], arith, codes, if◌then◌else◌, none, refl, some, ℕ, ◌++◌, ◌+◌, ◌==◌, ◌∷◌,
  ◌≡◌, ◌≢◌, ◌≤◌,
}

-- A lock manager that serves the requests in their order.
record Lock : Type 0 where
  holder : Option ℕ
  queue : List ℕ

count : ℕ → List ℕ → ℕ
count i [] = 0
count i (j ∷ js) = (if j == i then 1 else 0) + count i js

without : ℕ → List ℕ → List ℕ
without i [] = []
without i (j ∷ js) = if j == i then without i js else j ∷ without i js

count-append : (i : ℕ) (xs ys : List ℕ) → count i (xs ++ ys) ≡ count i xs + count i ys
unfolding count
count-append i [] ys = omega arith
count-append i (x ∷ xs) ys = omega (arith, count-append i xs ys)

count-without : (i j : ℕ) (xs : List ℕ) → count j (without i xs) ≤ count j xs
unfolding count without
count-without i j [] = omega arith
count-without i j (x ∷ xs) = ground (arith, count-without i j xs)

abbrev lock_call_of : LockCall → ℕ → Lock → Lock
lock_call_of asks i s = record s { queue = s.queue ++ (i ∷ []) }
lock_call_of aborts i s = record s { queue = without i s.queue }
lock_call_of releases i s = record s {
  holder = elim s.holder [ none ↦ none | some j ↦ if i == j then none else some j ];
}

abbrev Grants : Lock → ℕ → Lock → Type 0
Grants s i s' = (s.holder ≡ none) × (s.queue ≡ i ∷ s'.queue) × (s'.holder ≡ some i)

one_holder : (s : Lock) (i j : ℕ) → s.holder ≡ some i → s.holder ≡ some j → i ≡ j
one_holder s i j h k = ground arith

releases_other :
    (s : Lock) (i j : ℕ) → i ≢ j → s.holder ≡ some j → (lock_call_of releases i s).holder ≡ some j
releases_other s i j n h = ground (arith, ==_iff i j)

asks_count :
    (s : Lock) (i j : ℕ)
    → count j (lock_call_of asks i s).queue ≡ count j s.queue + (if i == j then 1 else 0)
unfolding count
asks_count s i j = omega (arith, count-append j s.queue (i ∷ []))

Grants-free : (s : Lock) (i : ℕ) (s' : Lock) (j : ℕ) → Grants s i s' → ¬ (s.holder ≡ some j)
Grants-free s i s' j g h = ground arith

Grants-count :
    (s : Lock) (i : ℕ) (s' : Lock) (j : ℕ)
    → Grants s i s'
    → count j s.queue ≡ count j s'.queue + (if i == j then 1 else 0)
unfolding count
Grants-count s i s' j g = ground arith

abbrev fifo : LockManager
fifo = record {
  State = Lock;
  Holds = λ s i. s.holder ≡ some i;
  queued = λ s i. count i s.queue;
  call = lock_call_of;
  Grants = Grants;
  exclusive = one_holder;
  asks_holds = λ s i j h. h;
  aborts_holds = λ s i j h. h;
  releases_holds = releases_other;
  asks_queued = asks_count;
  aborts_queued = λ s i j. count-without i j s.queue;
  releases_queued = λ s i j. refl;
  grant_free = Grants-free;
  grant_holds = λ s i s' g. g.2;
  grant_queued = Grants-count;
}

abbrev empty_system : System fifo
empty_system = record { tabs = λ i. none; lock = record { holder = none; queue = [] } }

abbrev tab_a : Tab
tab_a = (create (codes "a")).0

abbrev tab_b : Tab
tab_b = (create (codes "b")).0

-- Two tabs open, and the first takes the lock.
abbrev two_tabs : System fifo
two_tabs =
    apply fifo 1 (create (codes "b"))
      (apply fifo 0 (create (codes "a")) empty_system.lock empty_system.tabs).lock
      (apply fifo 0 (create (codes "a")) empty_system.lock empty_system.tabs).tabs

abbrev granted_a : System fifo
granted_a =
    apply fifo 0 (step (granted (codes "l")) tab_a) (record { holder = some 0; queue = 1 ∷ [] })
      two_tabs.tabs

empty_system-IsFresh : IsFresh fifo empty_system
unfolding count
empty_system-IsFresh = (λ i. refl, λ i. refl)

granted_a-Reach : Reach fifo empty_system granted_a
unfolding create make_calls step
granted_a-Reach =
    then_step (then_step (then_step start (opens 0 (codes "a") refl)) (opens 1 (codes "b") refl)) (
      grants 0 tab_a (codes "l") (record { holder = some 0; queue = 1 ∷ [] }) refl
        (refl, refl, refl))

abbrev leader_a : Tab
leader_a = (step (granted (codes "l")) tab_a).0

single_writer_example : ◌≡◌ {A = ℕ} 0 0
unfolding step create
single_writer_example =
    single_writer fifo empty_system granted_a 0 0 leader_a leader_a empty_system-IsFresh
      granted_a-Reach refl refl refl refl
