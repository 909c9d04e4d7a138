-- ===== src/Leader/Registry/Defs.antt =====
-- packages/storage/src/leader.ts: `bridges` and `nextLeaderEnvelopeId` of a leader, and the listeners
-- that the bridges hang on the pair channels and on the writer.
use opfs_webauthn.Map
use opfs_webauthn.Leader.Bridge.{
  Bridge, dispose, fail_pending, new_bridge, on_client_message, on_writer_message,
}
use opfs_webauthn.Leader.Wire.{Channel, Effect, open_channel}
use opfs_webauthn.Map.{Map}
use opfs_webauthn.Prelude.{List, Text, [], if◌then◌else◌, nat_eq, none, some, text_eq, ℕ, ◌++◌, ◌∷◌}
use opfs_webauthn.Rpc.Protocol.{Message}

pub record Registry : Type 0 where
  pub bridges : Map Text Bridge
  pub next_id : ℕ

unfoldable pub empty_registry : Registry
empty_registry = record { bridges = []; next_id = 1 }

-- A message on the pair channel of `client`. `onClientClose` drops the bridge.
unfoldable pub client_says : Text → Message → Registry → Registry × List Effect
client_says client m r = elim (Map.get client r.bridges) [
  | none ↦ (r, [])
  | some b ↦
      let t = on_client_message m r.next_id b in
      (
        record {
          bridges =
              if t.closed then Map.delete client r.bridges else Map.set client t.bridge r.bridges;
          next_id = t.next_id;
        },
        t.out,
      )
]

-- Each live bridge listens to the one writer.
unfoldable pub each_answers : Message → Map Text Bridge → Map Text Bridge × List Effect
unfolding on_writer_message
each_answers m [] = ([], [])
each_answers m ((client, b) ∷ bs) =
    let (b', out) = on_writer_message m b in
    let (bs', rest) = each_answers m bs in ((client, b') ∷ bs', out ++ rest)

unfoldable pub writer_says : Message → Registry → Registry × List Effect
unfolding each_answers
writer_says m r = let (bs, out) = each_answers m r.bridges in (record r { bridges = bs }, out)

-- A pair request opens `channel`, and replaces the client's older bridge.
unfoldable pub add_bridge : Text → Channel → Registry → Registry × List Effect
unfolding dispose new_bridge
add_bridge client channel r =
    let closing : List Effect = elim (Map.get client r.bridges) [
      | none ↦ []
      | some old ↦ (dispose old).1
    ] in
    (
      record r { bridges = Map.set client (new_bridge channel) r.bridges },
      closing ++ (open_channel channel ∷ []),
    )

unfoldable pub fail_each : Text → Map Text Bridge → Map Text Bridge × List Effect
unfolding fail_pending
fail_each message [] = ([], [])
fail_each message ((client, b) ∷ bs) =
    let (b', out) = fail_pending message b in
    let (bs', rest) = fail_each message bs in ((client, b') ∷ bs', out ++ rest)

unfoldable pub dispose_each : Map Text Bridge → List Effect
unfolding dispose
dispose_each [] = []
dispose_each ((client, b) ∷ bs) = (dispose b).1 ++ dispose_each bs

-- What passes through a leader between two elections.
pub data Traffic : Type 0 where
  from_client : Text → Message → Traffic
  from_writer : Message → Traffic
  pairs : Text → Channel → Traffic

unfoldable pub pass : Traffic → Registry → Registry × List Effect
unfolding client_says writer_says add_bridge
pass (from_client client m) r = client_says client m r
pass (from_writer m) r = writer_says m r
pass (pairs client channel) r = add_bridge client channel r

unfoldable pub pass_all : List Traffic → Registry → Registry × List Effect
unfolding pass
pass_all [] r = (r, [])
pass_all (t ∷ ts) r =
    let (r', out) = pass t r in let (r'', rest) = pass_all ts r' in (r'', out ++ rest)
