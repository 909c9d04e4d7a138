-- ===== src/Rpc/Client/Settling.antt =====
-- Each promise of a client is settled at most once, and none is forgotten.
use opfs_webauthn.Map.{tally, tally-delete, tally-get, tally-set}
use opfs_webauthn.Prelude.{
  All, List, Option, [], arith, if◌then◌else◌, ltb, nat_eq, none, refl, some, text_eq, ℕ, ◌++◌, ◌+◌,
  ◌∙◌, ◌∷◌, ◌≡◌, ◌≤◌,
}
use opfs_webauthn.Rpc.Client.Counting.{
  ClientInv, new_client-ClientInv, posted, posted-append, posted-reject_each, settled,
  settled-append, settled-reject_each, step-ClientInv,
}
use opfs_webauthn.Rpc.Client.Defs.{
  Client, Event, fails, hears, new_client, on_error, on_message, run, send, sends, step, terminate,
  terminates, worker_error, worker_terminated,
}
use opfs_webauthn.Rpc.Protocol.{error, request_kind, response}

-- `postMessage` never throws.
abbrev pub Accepts : Event → Type 0
Accepts (sends none req) = Unit {0}
Accepts (sends (some reason) req) = ⊥
Accepts (hears m) = Unit
Accepts fails = Unit
Accepts (terminates t) = Unit

abbrev pub Stays : Event → Type 0
Stays (terminates t) = ⊥
Stays (sends t req) = Unit {0}
Stays (hears m) = Unit
Stays fails = Unit

-- One more promise than settlements can exist for an id that is not given out yet.
room : ℕ → Client → ℕ
room id c = if ltb id c.next_id then tally id c.pending else 1

step-room :
    (e : Event) (c : Client) (id : ℕ)
    → ClientInv c
    → Accepts e
    → settled id (step e c).1 + room id (step e c).0 ≤ room id c
unfolding room step send on_message on_error terminate tally
step-room (sends none req) c id v a =
    ground (arith, v.unique id, v.below id, tally-set c.next_id id (request_kind req) c.pending)
step-room (sends (some reason) req) c id v a = absurd a
step-room (hears (response j r)) c id v a =
    ground (
      arith,
      v.unique id,
      v.below id,
      v.below j,
      tally-delete j id c.pending,
      tally-get j c.pending,
    )
step-room (hears (error j r)) c id v a =
    ground (
      arith,
      v.unique id,
      v.below id,
      v.below j,
      tally-delete j id c.pending,
      tally-get j c.pending,
    )
step-room (hears m) c id v a = ground arith
step-room fails c id v a =
    ground (arith, v.unique id, v.below id, settled-reject_each id worker_error c.pending)
step-room (terminates none) c id v a =
    ground (arith, v.unique id, v.below id, settled-reject_each id worker_terminated c.pending)
step-room (terminates (some reason)) c id v a =
    ground (arith, v.unique id, v.below id, settled-reject_each id worker_terminated c.pending)

step-balance :
    (e : Event) (c : Client) (id : ℕ)
    → ClientInv c
    → Accepts e
    → Stays e
    → settled id (step e c).1 + tally id (step e c).0.pending
      ≡ posted id (step e c).1 + tally id c.pending
unfolding step send on_message on_error terminate tally
step-balance (sends none req) c id v a s =
    ground (arith, v.below c.next_id, tally-set c.next_id id (request_kind req) c.pending)
step-balance (sends (some reason) req) c id v a s = absurd a
step-balance (hears (response j r)) c id v a s =
    ground (arith, v.unique j, tally-delete j id c.pending, tally-get j c.pending)
step-balance (hears (error j r)) c id v a s =
    ground (arith, v.unique j, tally-delete j id c.pending, tally-get j c.pending)
step-balance (hears m) c id v a s = ground arith
step-balance fails c id v a s = ground (
  arith,
  settled-reject_each id worker_error c.pending,
  posted-reject_each id worker_error c.pending,
)
step-balance (terminates t) c id v a s = absurd s

run-ClientInv : (es : List Event) (c : Client) → ClientInv c → ClientInv (run es c).0
unfolding run
run-ClientInv [] c v = v
run-ClientInv (e ∷ es) c v = run-ClientInv es (step e c).0 (step-ClientInv e c v)

run-room :
    (es : List Event) (c : Client) (id : ℕ)
    → ClientInv c
    → All Accepts es
    → settled id (run es c).1 + room id (run es c).0 ≤ room id c
unfolding run
run-room [] c id v a = omega arith
run-room (e ∷ es) c id v a =
    let c' = (step e c).0 in
    omega (
      arith,
      step-room e c id v a.0,
      run-room es c' id (step-ClientInv e c v) a.1,
      settled-append id (step e c).1 (run es c').1,
    )

run-balance :
    (es : List Event) (c : Client) (id : ℕ)
    → ClientInv c
    → All Accepts es
    → All Stays es
    → settled id (run es c).1 + tally id (run es c).0.pending
      ≡ posted id (run es c).1 + tally id c.pending
unfolding run
run-balance [] c id v a s = omega arith
run-balance (e ∷ es) c id v a s =
    let c' = (step e c).0 in
    omega (
      arith,
      step-balance e c id v a.0 s.0,
      run-balance es c' id (step-ClientInv e c v) a.1 s.1,
      settled-append id (step e c).1 (run es c').1,
      posted-append id (step e c).1 (run es c').1,
    )

-- As long as `postMessage` does not throw, no promise of a client is settled twice, whatever the
-- worker answers and however often, and one that is settled is no longer pending.
pub settled-le-one :
    (es : List Event) (id : ℕ)
    → All Accepts es
    → settled id (run es new_client).1 + tally id (run es new_client).0.pending ≤ 1
unfolding room new_client tally
settled-le-one es id a =
    let c = (run es new_client).0 in
    ground (
      arith,
      run-room es new_client id new_client-ClientInv a,
      (run-ClientInv es new_client new_client-ClientInv).below id,
    )

-- A client that was never terminated, and whose `postMessage` does not throw, has for each id posted
-- as many requests as it has settled promises and pending entries.
pub settled-posted :
    (es : List Event) (id : ℕ)
    → All Accepts es
    → All Stays es
    → settled id (run es new_client).1 + tally id (run es new_client).0.pending
      ≡ posted id (run es new_client).1
unfolding new_client tally
settled-posted es id a s = omega (arith, run-balance es new_client id new_client-ClientInv a s)

-- `terminate` leaves no promise pending, and after it each request that was posted before it has been settled
-- exactly as often as it was posted. `terminate` was not called before, and `postMessage` did not throw for
-- any of those requests. The `close` that `terminate` itself posts is not counted, since nobody waits for it.
pub settled-terminate :
    (es : List Event) (id : ℕ) (thrown : Option (List ℕ))
    → All Accepts es
    → All Stays es
    → let (c, out) = run es new_client in
      let (c', last) = terminate thrown c in
      (c'.pending ≡ []) × (settled id (out ++ last) ≡ posted id out)
unfolding terminate
settled-terminate es id thrown a s =
    let c = (run es new_client).0 in
    let out = (run es new_client).1 in
    (
      refl,
      settled-append id out (terminate thrown c).1
          ∙ ground
              (arith, settled-posted es id a s, settled-reject_each id worker_terminated c.pending),
    )
