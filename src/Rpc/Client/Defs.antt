-- ===== src/Rpc/Client/Defs.antt =====
-- packages/storage/src/rpc.ts, class WorkerClient: its state and its methods.
use opfs_webauthn.Prelude.{
  ℕ, ◌+◌, Bool, true, false, List, [], ◌∷◌, ◌++◌, Option, none, some, if◌then◌else◌, Text, codes,
  nat_eq,
}
use opfs_webauthn.Map
use opfs_webauthn.Map.{Map}
use opfs_webauthn.Rpc.Protocol.{
  WorkerRequest, WorkerResponse, Kind, Kind-discrete, request_kind, response_kind, kind_name,
  Message, request, response, error, stray,
}
use mathlib.Core.Logic.{ite}

-- How the promise that `send` returns is settled.
pub data Outcome : Type 0 where
  fulfilled : WorkerResponse → Outcome
  rejected : Text → Outcome

pub data Effect : Type 0 where
  post : Message → Effect
  settle : ℕ → Outcome → Effect
  close_worker : Effect

-- A pending entry keeps the kind of its request, which the continuation of `send` compares.
pub record Client : Type 0 where
  pub pending : Map ℕ Kind
  pub next_id : ℕ
  pub listening : Bool

unfoldable pub new_client : Client
new_client = record { pending = []; next_id = 1; listening = true }

abbrev pub worker_error : Text
worker_error = codes "storage worker error"

abbrev pub worker_terminated : Text
worker_terminated = codes "storage worker terminated"

pub mismatch : Kind → Kind → Text
mismatch got expected =
    codes "storage worker replied with "
    ++ (kind_name got ++ (codes ", expected " ++ kind_name expected))

-- What `send` does with the response that its inner promise gives.
unfoldable pub narrow : Kind → WorkerResponse → Outcome
narrow expected r =
    ite (Kind-discrete (response_kind r) expected) (fulfilled r)
      (rejected (mismatch (response_kind r) expected))

unfoldable pub reject_each : Text → Map ℕ Kind → List Effect
reject_each reason [] = []
reject_each reason ((id, kind) ∷ m) = settle id (rejected reason) ∷ reject_each reason m

unfoldable pub reject_all : Text → Client → Client × List Effect
reject_all reason c = (record c { pending = [] }, reject_each reason c.pending)

-- `thrown` is the message of what `postMessage` throws. A throw inside the promise's executor rejects
-- the promise, and leaves the entry in `pending`.
unfoldable pub send : Option Text → WorkerRequest → Client → Client × List Effect
send thrown req c = (
  record c { pending = Map.set c.next_id (request_kind req) c.pending; next_id = c.next_id + 1 },
  elim thrown [
    | none ↦ post (request c.next_id req) ∷ []
    | some reason ↦ settle c.next_id (rejected reason) ∷ []
  ],
)

settle_pending : ℕ → (Kind → Outcome) → Client → Client × List Effect
settle_pending id outcome c = elim (Map.get id c.pending) [
  | none ↦ (c, [])
  | some kind ↦ (record c { pending = Map.delete id c.pending }, settle id (outcome kind) ∷ [])
]

receive : Message → Client → Client × List Effect
unfolding settle_pending
receive (response id r) c = settle_pending id (λ kind. narrow kind r) c
receive (error id message) c = settle_pending id (λ _. rejected message) c
receive (request id req) c = (c, [])
receive (stray s) c = (c, [])

-- The two listeners hear nothing once `terminate` has removed them.
unfoldable pub on_message : Message → Client → Client × List Effect
unfolding receive
on_message m c = if c.listening then receive m c else (c, [])

unfoldable pub on_error : Client → Client × List Effect
unfolding reject_all
on_error c = if c.listening then reject_all worker_error c else (c, [])

unfoldable pub terminate : Option Text → Client → Client × List Effect
unfolding reject_all
terminate thrown c =
    let (c', settled) =
      reject_all worker_terminated (record c { next_id = c.next_id + 1; listening = false }) in
    let farewell : List Effect = elim thrown [
      | none ↦ post (request c.next_id WorkerRequest.close) ∷ []
      | some _ ↦ []
    ] in
    (c', farewell ++ (close_worker ∷ settled))

-- What can happen to a client.
pub data Event : Type 0 where
  sends : Option Text → WorkerRequest → Event
  hears : Message → Event
  fails : Event
  terminates : Option Text → Event

unfoldable pub step : Event → Client → Client × List Effect
step (sends thrown req) c = send thrown req c
step (hears m) c = on_message m c
step fails c = on_error c
step (terminates thrown) c = terminate thrown c

unfoldable pub run : List Event → Client → Client × List Effect
run [] c = (c, [])
run (e ∷ es) c = let (c', out) = step e c in let (c'', rest) = run es c' in (c'', out ++ rest)
