-- ===== src/Leader/Registry/Routing.antt =====
-- An answer of the writer finds the one bridge that forwarded its request, and the client's own id.
use opfs_webauthn.Map
use opfs_webauthn.Leader.Bridge.{Bridge, on_client_message, on_writer_message}
use opfs_webauthn.Leader.Registry.Defs.{
  Registry, Traffic, client_says, each_answers, pass_all, writer_says,
}
use opfs_webauthn.Leader.Registry.Ids.{
  Live, Live-get, RegistryInv, client_says-RegistryInv, held, held-get,
}
use opfs_webauthn.Leader.Registry.Waiting.{Quiet, Waits, pass_all-Waits}
use opfs_webauthn.Leader.Wire.{Channel, post, to_writer}
use opfs_webauthn.Map.{Map, tally-get}
use opfs_webauthn.Prelude.{
  All, List, Text, [], ap, arith, false, nat_eq, refl, some, text_beq_iff, text_eq, ℕ, ◌∙◌, ◌∷◌,
  ◌≡◌, ◌≤◌,
}
use opfs_webauthn.Rpc.Protocol.{Message, envelope_id, is_close, with_id}

-- A bridge that does not hold the id stays silent.
pub each_answers-silent :
    (m : Message) (id : ℕ) (bs : Map Text Bridge)
    → envelope_id m ≡ some id
    → held id bs ≡ 0
    → (each_answers m bs).1 ≡ []
unfolding each_answers held on_writer_message
each_answers-silent m id [] e h = refl
each_answers-silent m id ((j, b) ∷ bs) e h =
    ground (arith, each_answers-silent m id bs e, tally-get id b.id_map)

each_answers-once :
    (m : Message) (id i : ℕ) (k : Text) (bs : Map Text Bridge) (b : Bridge)
    → envelope_id m ≡ some id
    → Live bs
    → held id bs ≤ 1
    → Map.get k bs ≡ some b
    → Map.get id b.id_map ≡ some i
    → (each_answers m bs).1 ≡ post b.channel (with_id i m) ∷ []
unfolding each_answers held on_writer_message Map.get
each_answers-once m id i k [] b e l h g u = cc
each_answers-once m id i k ((j, c) ∷ bs) b e l h g u = ground (
  arith,
  each_answers-once m id i k bs b e l.1,
  each_answers-silent m id bs e,
  tally-get id c.id_map,
  held-get id k bs b,
  tally-get id b.id_map,
)

-- An answer to an envelope that a client waits for is posted once, on the client's channel and under
-- the client's own id, and no other bridge posts anything.
writer_says-once :
    (m : Message) (k : Text) (ch : Channel) (id i : ℕ) (r : Registry)
    → RegistryInv r
    → envelope_id m ≡ some id
    → Waits k ch id i r
    → (writer_says m r).1 ≡ post ch (with_id i m) ∷ []
unfolding writer_says
writer_says-once m k ch id i r v e w =
    each_answers-once m id i k r.bridges w.bridge e v.live (v.unique id) w.known w.under
    ∙ ap (λ c. post c (with_id i m) ∷ []) w.over

forwards :
    (k : Text) (m : Message) (i : ℕ) (r : Registry) (b : Bridge)
    → RegistryInv r
    → Map.get k r.bridges ≡ some b
    → envelope_id m ≡ some i
    → is_close m ≡ false
    → ((client_says k m r).1 ≡ to_writer (with_id r.next_id m) ∷ [])
      × Waits k b.channel r.next_id i (client_says k m r).0
unfolding client_says on_client_message
forwards k m i r b v g e c =
    let alive = Live-get k r.bridges b v.live g in
    let b' : Bridge = record b { id_map = Map.set r.next_id i b.id_map } in
    (
      ground arith,
      record {
        bridge = b';
        known = ground (arith, Map.get-set k k b' r.bridges, text_beq_iff k k);
        over = refl;
        under = ground (arith, Map.get-set r.next_id r.next_id i b.id_map);
      },
    )

-- A client's request that is no close goes to the writer under a fresh id. Whatever other traffic
-- passes meanwhile, the writer's answer to that id is posted exactly once, on the channel of the
-- client that asked and under the id that it chose. The traffic may hold no earlier answer to the id,
-- and no close and no new pairing of that client.
pub answer-forward :
    (k : Text) (m reply : Message) (i : ℕ) (ts : List Traffic) (r : Registry) (b : Bridge)
    → RegistryInv r
    → Map.get k r.bridges ≡ some b
    → envelope_id m ≡ some i
    → is_close m ≡ false
    → All (Quiet k r.next_id) ts
    → envelope_id reply ≡ some r.next_id
    → let (r', out) = client_says k m r in
      (out ≡ to_writer (with_id r.next_id m) ∷ [])
      × ((writer_says reply (pass_all ts r').0).1 ≡ post b.channel (with_id i reply) ∷ [])
answer-forward k m reply i ts r b v g e c q a =
    let (sent, waits) = forwards k m i r b v g e c in
    let r' : Registry = (client_says k m r).0 in
    let (still, kept) =
      pass_all-Waits k b.channel r.next_id i ts r' (client_says-RegistryInv k m r v) q waits in
    (sent, writer_says-once reply k b.channel r.next_id i _ kept a still)
