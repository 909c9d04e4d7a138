-- ===== src/Leader/Registry/Closing.antt =====
-- How a client leaves a leader: by its own close, by a failure of the writer, by a new pairing.
use opfs_webauthn.Map
use opfs_webauthn.Leader.Bridge.{
  Bridge, fail_pending, new_bridge, on_client_message, on_writer_message, post_errors,
}
use opfs_webauthn.Leader.Registry.Defs.{
  Registry, Traffic, add_bridge, client_says, each_answers, fail_each, from_client, from_writer,
  pairs, pass, pass_all, writer_says,
}
use opfs_webauthn.Leader.Registry.Ids.{Live, Live-get, RegistryInv, held-set}
use opfs_webauthn.Leader.Registry.Routing.{each_answers-silent}
use opfs_webauthn.Leader.Registry.Waiting.{Waits}
use opfs_webauthn.Leader.Wire.{Channel, Effect, close_channel, open_channel, post, to_writer}
use opfs_webauthn.Map.{Map, tally, tally-get}
use opfs_webauthn.Prelude.{
  All, All-append, Bool-cases, List, Option-cases, Text, [], arith, false, inl, inr, nat_eq, none,
  refl, some, subst, sym, text_beq, text_beq_iff, text_eq, true, ℕ, ◌==◌, ◌∷◌, ◌≡◌, ◌≢◌, ◌≤◌,
}
use opfs_webauthn.Rpc.Protocol.{
  Message, WorkerRequest, WorkerResponse, envelope_id, error, is_close, request, response, stray,
  with_id,
}
use mathlib.Core.List.{Memᴰ}
use mathlib.Core.List.Memᴰ

abbrev pub SparesWriter : Effect → Type 0
SparesWriter (to_writer m) = is_close m ≡ false
SparesWriter (post ch m) = Unit {0}
SparesWriter (close_channel ch) = Unit
SparesWriter (open_channel ch) = Unit
SparesWriter _ = Unit

is_close-with_id : (n : ℕ) (m : Message) → is_close (with_id n m) ≡ is_close m
unfolding is_close with_id
is_close-with_id n (request id WorkerRequest.close) = refl
is_close-with_id n (request id req) = refl
is_close-with_id n (response id r) = refl
is_close-with_id n (error id s) = refl
is_close-with_id n (stray s) = refl

numbered : (m : Message) → is_close m ≡ true → (i : ℕ) × (envelope_id m ≡ some i)
unfolding is_close envelope_id
numbered (request id req) h = (id, refl)
numbered (response id r) h = (id, refl)
numbered (error id s) h = (id, refl)
numbered (stray s) h = cc

turn-SparesWriter :
    (m : Message) (next : ℕ) (b : Bridge) → All SparesWriter (on_client_message m next b).out
unfolding on_client_message
turn-SparesWriter m next b = elim (Option-cases (envelope_id m)) [
  | inl e ↦ elim (Bool-cases (is_close m)) [
    | inl c ↦ ground (arith, (numbered m c).1)
    | inr c ↦ ground arith
  ]
  | inr (i, e) ↦ ground (arith, is_close-with_id next m)
]

writer-SparesWriter : (m : Message) (b : Bridge) → All SparesWriter (on_writer_message m b).1
unfolding on_writer_message
writer-SparesWriter m b = ground arith

each_answers-SparesWriter :
    (m : Message) (bs : Map Text Bridge) → All SparesWriter (each_answers m bs).1
unfolding each_answers
each_answers-SparesWriter m [] = tt
each_answers-SparesWriter m ((k, b) ∷ bs) =
    All-append SparesWriter _ _ (writer-SparesWriter m b) (each_answers-SparesWriter m bs)

pass-SparesWriter : (t : Traffic) (r : Registry) → All SparesWriter (pass t r).1
unfolding pass
pass-SparesWriter (from_client k m) r = elim (Option-cases (Map.get k r.bridges)) [
  | inl e ↦ subst (All SparesWriter) (sym (silent e)) tt
  | inr (b, e) ↦ subst (All SparesWriter) (sym (heard b e)) (turn-SparesWriter m r.next_id b)
]
  where
    silent : Map.get k r.bridges ≡ none → (client_says k m r).1 ≡ []
    silent e = ground arith

    heard :
        (b : Bridge)
        → Map.get k r.bridges ≡ some b
        → (client_says k m r).1 ≡ (on_client_message m r.next_id b).out
    heard b e = ground arith
pass-SparesWriter (from_writer m) r = each_answers-SparesWriter m r.bridges
pass-SparesWriter (pairs k ch) r = ground arith

-- No traffic, of any clients and in any order, makes a leader forward a close to the writer that all
-- tabs share.
pub pass_all-SparesWriter : (ts : List Traffic) (r : Registry) → All SparesWriter (pass_all ts r).1
unfolding pass_all
pass_all-SparesWriter [] r = tt
pass_all-SparesWriter (t ∷ ts) r =
    All-append SparesWriter _ _ (pass-SparesWriter t r) (pass_all-SparesWriter ts (pass t r).0)

-- The leader itself answers a paired client's close, on that client's channel and under its id, and
-- closes the channel. The client's bridge is gone, and the bridges of all other clients and the id
-- counter are as before.
pub client_says-close :
    (k : Text) (i : ℕ) (r : Registry) (b : Bridge)
    → RegistryInv r
    → Map.get k r.bridges ≡ some b
    → let (r', out) = client_says k (request i WorkerRequest.close) r in
      (out ≡ post b.channel (response i WorkerResponse.close) ∷ close_channel b.channel ∷ [])
      × (Map.get k r'.bridges ≡ none)
      × ((j : Text) → j ≢ k → Map.get j r'.bridges ≡ Map.get j r.bridges)
      × (r'.next_id ≡ r.next_id)
unfolding client_says on_client_message is_close envelope_id
client_says-close k i r b v g =
    let alive = Live-get k r.bridges b v.live g in
    (
      ground arith,
      ground (arith, Map.get-delete k k r.bridges, text_beq_iff k k),
      λ j n. ground (arith, Map.get-delete k j r.bridges, text_beq_iff k j),
      ground arith,
    )

post_errors-mem :
    (ch : Channel) (s : Text) (m : Map ℕ ℕ) (id i : ℕ)
    → Map.get id m ≡ some i
    → Memᴰ (post ch (error i s)) (post_errors ch s (Map.values m))
unfolding post_errors Map.get
post_errors-mem ch s [] id i e = cc
post_errors-mem ch s ((j, x) ∷ m) id i e = elim (Bool-cases (j == id)) [
  | inl h ↦ Memᴰ.head (ground arith)
  | inr h ↦ Memᴰ.tail (post_errors-mem ch s m id i (ground arith))
]

fail_each-mem :
    (s : Text) (k : Text) (bs : Map Text Bridge) (b : Bridge) (id i : ℕ)
    → Live bs
    → Map.get k bs ≡ some b
    → Map.get id b.id_map ≡ some i
    → Memᴰ (post b.channel (error i s)) (fail_each s bs).1
unfolding fail_each fail_pending Map.get
fail_each-mem s k [] b id i l g u = cc
fail_each-mem s k ((j, c) ∷ bs) b id i l g u = elim (Bool-cases (text_beq j k)) [
  | inl h ↦
      let same : c ≡ b = ground arith in
      let hit : Memᴰ (post b.channel (error i s)) (fail_pending s c).1 =
        ground (arith, post_errors-mem b.channel s b.id_map id i) in
      Memᴰ.append_left _ hit
  | inr h ↦ Memᴰ.append_right _ (fail_each-mem s k bs b id i l.1 (ground arith) u)
]

-- When the writer fails, every client that waits for an answer is told so: an error under its own id
-- is posted on its channel.
pub fail_each-Waits :
    (s : Text) (k : Text) (ch : Channel) (id i : ℕ) (r : Registry)
    → RegistryInv r
    → Waits k ch id i r
    → Memᴰ (post ch (error i s)) (fail_each s r.bridges).1
fail_each-Waits s k ch id i r v w =
    subst (λ c. Memᴰ (post c (error i s)) (fail_each s r.bridges).1) w.over
      (fail_each-mem s k r.bridges w.bridge id i v.live w.known w.under)

-- A client that pairs again with the same leader loses what it waits for: the answer that the writer
-- gives to its earlier request is posted nowhere.
pub add_bridge-strands :
    (k : Text) (ch ch' : Channel) (id i : ℕ) (reply : Message) (r : Registry)
    → RegistryInv r
    → Waits k ch id i r
    → envelope_id reply ≡ some id
    → (writer_says reply (add_bridge k ch' r).0).1 ≡ []
unfolding writer_says add_bridge tally
add_bridge-strands k ch ch' id i reply r v w e =
    each_answers-silent reply id (add_bridge k ch' r).0.bridges e (
      omega (
        arith,
        held-set id k (new_bridge ch') r.bridges w.bridge w.known,
        v.unique id,
        waits-tally,
      ))
  where
    waits-tally : 1 ≤ tally id w.bridge.id_map
    waits-tally = ground (arith, tally-get id w.bridge.id_map, w.under)
