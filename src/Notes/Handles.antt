-- ===== src/Notes/Handles.antt =====
-- packages/storage/src/worker-handlers.ts, `withDb`: requests that come while the database is being opened.
-- The handle of the open database, how many requests wait for their `openDatabase`, and how many handles were
-- opened. Handles are numbered in the order in which they are opened.
use opfs_webauthn.Prelude.{
  Bool, List, Option, [], arith, false, if◌then◌else◌, none, some, suc, true, zero, ℕ, ◌++◌, ◌+◌,
  ◌∷◌, ◌≡◌,
}

pub record Handles : Type 0 where
  pub current : Option ℕ
  pub waiting_requests : ℕ
  pub opened_handles : ℕ

-- A request that needs the database, and a call of `openDatabase` that is settled.
pub data HandleEvent : Type 0 where
  asks_db opens_db open_throws : HandleEvent

pub data HandleEffect : Type 0 where
  calls_open_database : HandleEffect
  runs_on : (handle : ℕ) → HandleEffect
  rejects_request : HandleEffect

abbrev pub no_handles : Handles
no_handles = record { current = none; waiting_requests = 0; opened_handles = 0 }

unfoldable pub with_db_step : HandleEvent → Handles → Handles × List HandleEffect
with_db_step asks_db s = elim s.current [
  | some h ↦ (s, runs_on h ∷ [])
  | none ↦ (
    record {
      current = none;
      waiting_requests = suc s.waiting_requests;
      opened_handles = s.opened_handles;
    },
    calls_open_database ∷ [],
  )
]
with_db_step opens_db s = elim s.waiting_requests [
  | zero ↦ (s, [])
  | suc n ↦ (
    record {
      current = some s.opened_handles;
      waiting_requests = n;
      opened_handles = suc s.opened_handles;
    },
    runs_on s.opened_handles ∷ [],
  )
]
with_db_step open_throws s = elim s.waiting_requests [
  | zero ↦ (s, [])
  | suc n ↦ (
    record { current = s.current; waiting_requests = n; opened_handles = s.opened_handles },
    rejects_request ∷ [],
  )
]

unfoldable pub with_db_run : List HandleEvent → Handles → Handles × List HandleEffect
unfolding with_db_step
with_db_run [] s = (s, [])
with_db_run (e ∷ es) s =
    let (s1, out) = with_db_step e s in let (s2, more) = with_db_run es s1 in (s2, out ++ more)

abbrev pub times : ℕ → HandleEvent → List HandleEvent → List HandleEvent
times zero e es = es
times (suc n) e es = e ∷ times n e es

abbrev pub count : {A : Type 0} → (A → Bool) → List A → ℕ
count p [] = 0
count p (x ∷ xs) = let rest = count p xs in if p x then suc rest else rest

count-append :
    {A : Type 0} (p : A → Bool) (xs ys : List A) → count p (xs ++ ys) ≡ count p xs + count p ys
count-append p [] ys = omega arith
count-append p (x ∷ xs) ys = ground (arith, count-append p xs ys)

abbrev pub asks_for_db : HandleEvent → Bool
asks_for_db asks_db = true
asks_for_db opens_db = false
asks_for_db open_throws = false

abbrev pub is_run : HandleEffect → Bool
is_run calls_open_database = false
is_run (runs_on h) = true
is_run rejects_request = false

abbrev pub is_rejection : HandleEffect → Bool
is_rejection calls_open_database = false
is_rejection (runs_on h) = false
is_rejection rejects_request = true

abbrev pub is_open_call : HandleEffect → Bool
is_open_call calls_open_database = true
is_open_call (runs_on h) = false
is_open_call rejects_request = false

-- The handle that was opened last.
abbrev pub last_opened : ℕ → Option ℕ
last_opened zero = none
last_opened (suc n) = some n

-- Every request runs or is rejected once, or waits; every call of `openDatabase` has opened a handle or thrown, or
-- is waited for; and the worker has the handle that was opened last.
pub record Balanced (es : List HandleEvent) (s : Handles) (out : List HandleEffect) (s' : Handles)
    : Type 0 where
  pub requests :
      s.waiting_requests + count asks_for_db es
      ≡ count is_run out + count is_rejection out + s'.waiting_requests
  pub calls_made :
      s.opened_handles + s.waiting_requests + count is_open_call out
      ≡ s'.opened_handles + s'.waiting_requests + count is_rejection out
  pub latest : s'.current ≡ last_opened s'.opened_handles

with_db_step-Balanced :
    (e : HandleEvent) (s : Handles)
    → s.current ≡ last_opened s.opened_handles
    → let (s', out) = with_db_step e s in Balanced (e ∷ []) s out s'
unfolding with_db_step
with_db_step-Balanced e s h = ground arith

Balanced-append :
    (e : HandleEvent) (es : List HandleEvent) (s t u : Handles) (xs ys : List HandleEffect)
    → Balanced (e ∷ []) s xs t
    → Balanced es t ys u
    → Balanced (e ∷ es) s (xs ++ ys) u
Balanced-append e es s t u xs ys b c = record {
  requests = omega (
    arith,
    b.requests,
    c.requests,
    count-append is_run xs ys,
    count-append is_rejection xs ys,
    count-append asks_for_db (e ∷ []) es,
  );
  calls_made = omega (
    arith,
    b.calls_made,
    c.calls_made,
    count-append is_open_call xs ys,
    count-append is_rejection xs ys,
  );
  latest = c.latest;
}

-- Requests that need the database come, and calls of `openDatabase` are settled, in any order. Each request has
-- run once, or was rejected, or waits. There is one call of `openDatabase` for each handle that was opened, for
-- each rejection and for each request that waits. The worker has the handle that was opened last, and no
-- other.
pub with_db_run-Balanced :
    (es : List HandleEvent) (s : Handles)
    → s.current ≡ last_opened s.opened_handles
    → let (s', out) = with_db_run es s in Balanced es s out s'
unfolding with_db_run
with_db_run-Balanced [] s h = record {
  requests = omega arith;
  calls_made = omega arith;
  latest = h;
}
with_db_run-Balanced (e ∷ es) s h =
    let (t, xs) = with_db_step e s in
    let (u, ys) = with_db_run es t in
    let b = with_db_step-Balanced e s h in
    Balanced-append e es s t u xs ys b (with_db_run-Balanced es t b.latest)
