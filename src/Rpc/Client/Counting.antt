-- ===== src/Rpc/Client/Counting.antt =====
-- How often an effect list settles a promise and posts a request, and the invariant of a client.
use opfs_webauthn.Map.{Map, tally, tally-delete, tally-set}
use opfs_webauthn.Prelude.{
  List, [], arith, if◌then◌else◌, nat_eq, refl, text_eq, ℕ, ◌++◌, ◌+◌, ◌==◌, ◌∷◌, ◌≡◌, ◌≤◌,
}
use opfs_webauthn.Rpc.Client.Defs.{
  Client, Effect, Event, close_worker, fails, hears, new_client, on_error, on_message, post,
  reject_each, send, sends, settle, step, terminate, terminates,
}
use opfs_webauthn.Rpc.Protocol.{Kind, error, request, request_kind, response, stray}

-- How often an effect list settles the promise `id`.
abbrev pub settled : ℕ → List Effect → ℕ
settled id [] = 0
settled id (settle j o ∷ out) = (if j == id then 1 else 0) + settled id out
settled id (post m ∷ out) = settled id out
settled id (close_worker ∷ out) = settled id out

-- How often it posts a request numbered `id`.
abbrev pub posted : ℕ → List Effect → ℕ
posted id [] = 0
posted id (post (request j req) ∷ out) = (if j == id then 1 else 0) + posted id out
posted id (post (response j r) ∷ out) = posted id out
posted id (post (error j s) ∷ out) = posted id out
posted id (post (stray s) ∷ out) = posted id out
posted id (settle j o ∷ out) = posted id out
posted id (close_worker ∷ out) = posted id out

pub settled-append :
    (id : ℕ) (xs ys : List Effect) → settled id (xs ++ ys) ≡ settled id xs + settled id ys
settled-append id [] ys = omega arith
settled-append id (settle j o ∷ xs) ys = omega (arith, settled-append id xs ys)
settled-append id (post m ∷ xs) ys = settled-append id xs ys
settled-append id (close_worker ∷ xs) ys = settled-append id xs ys

pub posted-append :
    (id : ℕ) (xs ys : List Effect) → posted id (xs ++ ys) ≡ posted id xs + posted id ys
posted-append id [] ys = omega arith
posted-append id (post (request j req) ∷ xs) ys = omega (arith, posted-append id xs ys)
posted-append id (post (response j r) ∷ xs) ys = posted-append id xs ys
posted-append id (post (error j s) ∷ xs) ys = posted-append id xs ys
posted-append id (post (stray s) ∷ xs) ys = posted-append id xs ys
posted-append id (settle j o ∷ xs) ys = posted-append id xs ys
posted-append id (close_worker ∷ xs) ys = posted-append id xs ys

pub settled-reject_each :
    (id : ℕ) (reason : List ℕ) (m : Map ℕ Kind) → settled id (reject_each reason m) ≡ tally id m
unfolding reject_each tally
settled-reject_each id reason [] = refl
settled-reject_each id reason ((j, kind) ∷ m) = omega (arith, settled-reject_each id reason m)

pub posted-reject_each :
    (id : ℕ) (reason : List ℕ) (m : Map ℕ Kind) → posted id (reject_each reason m) ≡ 0
unfolding reject_each
posted-reject_each id reason [] = refl
posted-reject_each id reason ((j, kind) ∷ m) = posted-reject_each id reason m

-- Pending ids are distinct, and were all given out.
pub record ClientInv (c : Client) : Type 0 where
  pub unique : (id : ℕ) → tally id c.pending ≤ 1
  pub below : (id : ℕ) → c.next_id ≤ id → tally id c.pending ≡ 0

pub new_client-ClientInv : ClientInv new_client
unfolding new_client tally
new_client-ClientInv = record { unique = λ id. omega arith; below = λ id h. refl }

pub step-ClientInv : (e : Event) (c : Client) → ClientInv c → ClientInv (step e c).0
unfolding step send on_message on_error terminate tally
step-ClientInv (sends t req) c v = record {
  unique = λ id.
      ground (arith, v.unique id, v.below id, tally-set c.next_id id (request_kind req) c.pending);
  below = λ id h. ground (arith, v.below id, tally-set c.next_id id (request_kind req) c.pending);
}
step-ClientInv (hears (response id r)) c v = record {
  unique = λ j. ground (arith, v.unique j, tally-delete id j c.pending);
  below = λ j h. ground (arith, v.below j, tally-delete id j c.pending);
}
step-ClientInv (hears (error id r)) c v = record {
  unique = λ j. ground (arith, v.unique j, tally-delete id j c.pending);
  below = λ j h. ground (arith, v.below j, tally-delete id j c.pending);
}
step-ClientInv (hears m) c v = record {
  unique = λ j. ground (arith, v.unique j);
  below = λ j h. ground (arith, v.below j);
}
step-ClientInv fails c v = record {
  unique = λ j. ground (arith, v.unique j);
  below = λ j h. ground (arith, v.below j);
}
step-ClientInv (terminates t) c v = record {
  unique = λ j. ground (arith, v.unique j);
  below = λ j h. ground (arith, v.below j);
}
