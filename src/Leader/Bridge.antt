-- ===== src/Leader/Bridge.antt =====
-- packages/storage/src/leader.ts, class LeaderBridge: the leader's end of one pair channel.
use opfs_webauthn.Map
use opfs_webauthn.Leader.Wire.{Channel, Effect, close_channel, post, to_writer}
use opfs_webauthn.Map.{Map}
use opfs_webauthn.Prelude.{
  Bool, List, Text, [], false, if◌then◌else◌, nat_eq, none, some, text_eq, true, ℕ, ◌+◌, ◌∷◌,
}
use opfs_webauthn.Rpc.Protocol.{
  Message, WorkerResponse, envelope_id, error, is_close, response, with_id,
}

-- `id_map` takes the id that the writer sees to the client's own.
pub record Bridge : Type 0 where
  pub channel : Channel
  pub id_map : Map ℕ ℕ
  pub disposed : Bool

unfoldable pub new_bridge : Channel → Bridge
new_bridge channel = record { channel = channel; id_map = []; disposed = false }

unfoldable pub dispose : Bridge → Bridge × List Effect
dispose b =
    if b.disposed then (b, []) else (record b { disposed = true }, close_channel b.channel ∷ [])

-- What a client's message does: the bridge, the next free id, the effects, and whether the client has
-- closed.
pub record Turn : Type 0 where
  pub bridge : Bridge
  pub next_id : ℕ
  pub out : List Effect
  pub closed : Bool

abbrev idle : ℕ → Bridge → Turn
idle next b = record { bridge = b; next_id = next; out = []; closed = false }

-- A close is answered here, and the writer never hears of it.
client_close : ℕ → ℕ → Bridge → Turn
unfolding dispose
client_close id next b =
    let (b', closing) = dispose b in
    record {
      bridge = b';
      next_id = next;
      out = post b.channel (response id WorkerResponse.close) ∷ closing;
      closed = true;
    }

-- Any other numbered message goes on under the next free id.
forward : ℕ → Message → ℕ → Bridge → Turn
forward id m next b = record {
  bridge = record b { id_map = Map.set next id b.id_map };
  next_id = next + 1;
  out = to_writer (with_id next m) ∷ [];
  closed = false;
}

unfoldable pub on_client_message : Message → ℕ → Bridge → Turn
unfolding client_close forward
on_client_message m next b = if b.disposed then idle next b else elim (envelope_id m) [
  | none ↦ record { bridge = b; next_id = next; out = to_writer m ∷ []; closed = false }
  | some id ↦ if is_close m then client_close id next b else forward id m next b
]

unfoldable pub answer : ℕ → Message → Bridge → Bridge × List Effect
answer id m b = elim (Map.get id b.id_map) [
  | none ↦ (b, [])
  | some client_id ↦
      (record b { id_map = Map.delete id b.id_map }, post b.channel (with_id client_id m) ∷ [])
]

unfoldable pub on_writer_message : Message → Bridge → Bridge × List Effect
unfolding answer
on_writer_message m b =
    if b.disposed
    then (b, [])
    else elim (envelope_id m) [ none ↦ (b, []) | some id ↦ answer id m b ]

unfoldable pub post_errors : Channel → Text → List ℕ → List Effect
post_errors channel message [] = []
post_errors channel message (id ∷ ids) =
    post channel (error id message) ∷ post_errors channel message ids

unfoldable pub fail_pending : Text → Bridge → Bridge × List Effect
unfolding post_errors
fail_pending message b =
    if b.disposed
    then (b, [])
    else (record b { id_map = [] }, post_errors b.channel message (Map.values b.id_map))
