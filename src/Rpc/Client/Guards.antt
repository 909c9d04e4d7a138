-- ===== src/Rpc/Client/Guards.antt =====
-- The guard of `send` on the kind of a response: a caller gets the kind that it asked for.
use opfs_webauthn.Map
use opfs_webauthn.Map.{Map}
use opfs_webauthn.Prelude.{
  All, Bool-cases, List, Option-cases, Text, [], arith, inl, inr, nat_eq, none, some, subst, sym,
  text_eq, ℕ, ◌++◌, ◌==◌, ◌∷◌, ◌≡◌, ◌⊎◌,
}
use opfs_webauthn.Rpc.Client.Defs.{
  Client, Effect, Event, close_worker, fails, fulfilled, hears, narrow, new_client, on_error,
  on_message, post, reject_each, rejected, run, send, sends, settle, step, terminate, terminates,
  worker_error, worker_terminated,
}
use opfs_webauthn.Rpc.Client.Settling.{Accepts}
use opfs_webauthn.Rpc.Protocol.{
  Kind, Kind-discrete, WorkerResponse, error, request, request_kind, response, response_kind, stray,
}
use mathlib.Core.List.{append_assoc}
use mathlib.Core.Logic.{if_pos, if_neg}

-- `out` posts a request numbered `id` of kind `kind`.
abbrev pub Asked : Kind → ℕ → List Effect → Type 0
Asked kind id [] = ⊥
Asked kind id (post (request j req) ∷ out) =
    ((j ≡ id) × (request_kind req ≡ kind)) ⊎ Asked kind id out
Asked kind id (post (response j r) ∷ out) = Asked kind id out
Asked kind id (post (error j s) ∷ out) = Asked kind id out
Asked kind id (post (stray s) ∷ out) = Asked kind id out
Asked kind id (settle j o ∷ out) = Asked kind id out
Asked kind id (close_worker ∷ out) = Asked kind id out

-- Each promise that `out` fulfils gets a response of the kind that `sent` asked for under its id.
abbrev pub Matching : List Effect → List Effect → Type 0
Matching sent [] = Unit {0}
Matching sent (settle id (fulfilled r) ∷ out) = Asked (response_kind r) id sent × Matching sent out
Matching sent (settle id (rejected s) ∷ out) = Matching sent out
Matching sent (post m ∷ out) = Matching sent out
Matching sent (close_worker ∷ out) = Matching sent out

Asked-append_left :
    (kind : Kind) (id : ℕ) (xs ys : List Effect) → Asked kind id xs → Asked kind id (xs ++ ys)
Asked-append_left kind id [] ys h = absurd h
Asked-append_left kind id (post (request j req) ∷ xs) ys (inl h) = inl h
Asked-append_left kind id (post (request j req) ∷ xs) ys (inr h) =
    inr (Asked-append_left kind id xs ys h)
Asked-append_left kind id (post (response j r) ∷ xs) ys h = Asked-append_left kind id xs ys h
Asked-append_left kind id (post (error j r) ∷ xs) ys h = Asked-append_left kind id xs ys h
Asked-append_left kind id (post (stray s) ∷ xs) ys h = Asked-append_left kind id xs ys h
Asked-append_left kind id (settle j o ∷ xs) ys h = Asked-append_left kind id xs ys h
Asked-append_left kind id (close_worker ∷ xs) ys h = Asked-append_left kind id xs ys h

Asked-append_right :
    (kind : Kind) (id : ℕ) (xs ys : List Effect) → Asked kind id ys → Asked kind id (xs ++ ys)
Asked-append_right kind id [] ys h = h
Asked-append_right kind id (post (request j req) ∷ xs) ys h =
    inr (Asked-append_right kind id xs ys h)
Asked-append_right kind id (post (response j r) ∷ xs) ys h = Asked-append_right kind id xs ys h
Asked-append_right kind id (post (error j r) ∷ xs) ys h = Asked-append_right kind id xs ys h
Asked-append_right kind id (post (stray s) ∷ xs) ys h = Asked-append_right kind id xs ys h
Asked-append_right kind id (settle j o ∷ xs) ys h = Asked-append_right kind id xs ys h
Asked-append_right kind id (close_worker ∷ xs) ys h = Asked-append_right kind id xs ys h

Matching-append :
    (sent xs ys : List Effect) → Matching sent xs → Matching sent ys → Matching sent (xs ++ ys)
Matching-append sent [] ys h k = k
Matching-append sent (settle id (fulfilled r) ∷ xs) ys h k = (h.0, Matching-append sent xs ys h.1 k)
Matching-append sent (settle id (rejected s) ∷ xs) ys h k = Matching-append sent xs ys h k
Matching-append sent (post m ∷ xs) ys h k = Matching-append sent xs ys h k
Matching-append sent (close_worker ∷ xs) ys h k = Matching-append sent xs ys h k

Matching-more : (sent more xs : List Effect) → Matching sent xs → Matching (sent ++ more) xs
Matching-more sent more [] h = tt
Matching-more sent more (settle id (fulfilled r) ∷ xs) h =
    (Asked-append_left (response_kind r) id sent more h.0, Matching-more sent more xs h.1)
Matching-more sent more (settle id (rejected s) ∷ xs) h = Matching-more sent more xs h
Matching-more sent more (post m ∷ xs) h = Matching-more sent more xs h
Matching-more sent more (close_worker ∷ xs) h = Matching-more sent more xs h

Matching-reject_each :
    (sent : List Effect) (reason : Text) (m : Map ℕ Kind) → Matching sent (reject_each reason m)
unfolding reject_each
Matching-reject_each sent reason [] = tt
Matching-reject_each sent reason ((id, kind) ∷ m) = Matching-reject_each sent reason m

-- Every pending entry was asked for.
abbrev Covers : List Effect → Client → Type 0
Covers sent c = (id : ℕ) (kind : Kind) → Map.get id c.pending ≡ some kind → Asked kind id sent

Matching-narrow :
    (kind : Kind) (r : WorkerResponse) (id : ℕ) (sent : List Effect)
    → Asked kind id sent
    → Matching sent (settle id (narrow kind r) ∷ [])
unfolding narrow
Matching-narrow kind r id sent h = elim (Kind-discrete (response_kind r) kind) [
  | yes e ↦ rw (if_pos _ e) (subst (λ k. Asked k id sent) (sym e) h, tt)
  | no e ↦ rw (if_neg _ e) tt
]

step-Matching :
    (e : Event) (c : Client) (sent : List Effect) → Covers sent c → Matching sent (step e c).1
unfolding step send on_message on_error terminate
step-Matching (sends none req) c sent v = tt
step-Matching (sends (some s) req) c sent v = tt
step-Matching (hears (response id r)) c sent v = elim (Option-cases (Map.get id c.pending)) [
  | inl e ↦ ground arith
  | inr (kind, e) ↦ ground (arith, Matching-narrow kind r id sent (v id kind e))
]
step-Matching (hears (error id r)) c sent v = ground arith
step-Matching (hears m) c sent v = ground arith
step-Matching fails c sent v = ground (arith, Matching-reject_each sent worker_error c.pending)
step-Matching (terminates none) c sent v = Matching-reject_each sent worker_terminated c.pending
step-Matching (terminates (some s)) c sent v = Matching-reject_each sent worker_terminated c.pending

step-Covers :
    (e : Event) (c : Client) (sent : List Effect)
    → Accepts e
    → Covers sent c
    → Covers (sent ++ (step e c).1) (step e c).0
unfolding step send on_message on_error terminate Map.get
step-Covers (sends none req) c sent a v id kind h =
    let out : List Effect = post (request c.next_id req) ∷ [] in
    elim (Bool-cases (c.next_id == id)) [
      | inl e ↦
          Asked-append_right kind id sent out
            (inl (ground (arith, Map.get-set c.next_id id (request_kind req) c.pending)))
      | inr e ↦
          Asked-append_left kind id sent out
            (v id kind (ground (arith, Map.get-set c.next_id id (request_kind req) c.pending)))
    ]
step-Covers (sends (some s) req) c sent a v id kind h = absurd a
step-Covers (hears (response j r)) c sent a v id kind h =
    Asked-append_left kind id sent _ (v id kind (ground (arith, Map.get-delete j id c.pending)))
step-Covers (hears (error j r)) c sent a v id kind h =
    Asked-append_left kind id sent _ (v id kind (ground (arith, Map.get-delete j id c.pending)))
step-Covers (hears m) c sent a v id kind h =
    Asked-append_left kind id sent _ (v id kind (ground arith))
step-Covers fails c sent a v id kind h = Asked-append_left kind id sent _ (v id kind (ground arith))
step-Covers (terminates t) c sent a v id kind h = cc

run-Matching :
    (es : List Event) (c : Client) (sent : List Effect)
    → All Accepts es
    → Covers sent c
    → Matching (sent ++ (run es c).1) (run es c).1
unfolding run
run-Matching [] c sent a v = tt
run-Matching (e ∷ es) c sent a v =
    let c' = (step e c).0 in
    let now = (step e c).1 in
    let later = (run es c').1 in
    Matching-append (sent ++ (now ++ later)) now later
      (Matching-more sent (now ++ later) now (step-Matching e c sent v))
      (subst (λ s. Matching s later) (append_assoc sent now later)
        (run-Matching es c' (sent ++ now) a.1 (step-Covers e c sent a.0 v)))

-- As long as `postMessage` does not throw, a promise that is fulfilled gets a response of the kind
-- of a request that the client posted under the same id.
pub Matching-run :
    (es : List Event) → All Accepts es → Matching (run es new_client).1 (run es new_client).1
unfolding new_client Map.get
Matching-run es a = run-Matching es new_client [] a (λ id kind h. cc)
