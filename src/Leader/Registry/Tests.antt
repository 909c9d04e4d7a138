-- ===== src/Leader/Registry/Tests.antt =====
-- packages/storage/src/leader.ts: the theorems on a leader's bridges, at a leader with two clients that
-- number their requests alike.
use opfs_webauthn.Map
use opfs_webauthn.Leader.Bridge.{new_bridge, on_client_message}
use opfs_webauthn.Leader.Registry.Closing.{add_bridge-strands}
use opfs_webauthn.Leader.Registry.Defs.{
  Registry, Traffic, add_bridge, client_says, empty_registry, from_client, from_writer, pairs, pass,
  pass_all, writer_says,
}
use opfs_webauthn.Leader.Registry.Ids.{
  RegistryInv, client_says-RegistryInv, pass_all-empty-RegistryInv,
}
use opfs_webauthn.Leader.Registry.Routing.{answer-forward}
use opfs_webauthn.Leader.Registry.Waiting.{Waits}
use opfs_webauthn.Leader.Wire.{Channel, post, to_writer}
use opfs_webauthn.Map.{Map}
use opfs_webauthn.Prelude.{List, [], arith, codes, inr, nat_eq, refl, text_beq, text_eq, ◌∷◌, ◌≡◌}
use opfs_webauthn.Rpc.Protocol.{
  WorkerRequest, WorkerResponse, envelope_id, is_close, request, response, with_id,
}

abbrev channel_a : Channel
channel_a = record { name = codes "opfs-pair-l-a"; serial = 0 }

abbrev channel_b : Channel
channel_b = record { name = codes "opfs-pair-l-b"; serial = 1 }

abbrev pairings : List Traffic
pairings = pairs (codes "a") channel_a ∷ pairs (codes "b") channel_b ∷ []

abbrev leader : Registry
leader = (pass_all pairings empty_registry).0

leader-RegistryInv : RegistryInv leader
leader-RegistryInv = pass_all-empty-RegistryInv pairings

-- The other client's traffic under the same number, and the answer to it.
abbrev meanwhile : List Traffic
meanwhile =
    from_client (codes "b") (request 7 WorkerRequest.bootstrap)
    ∷ from_writer (response 2 (WorkerResponse.bootstrap 3))
    ∷ []

answer-forward_example :
    let (r', out) = client_says (codes "a") (request 7 WorkerRequest.ping) leader in
    (out ≡ to_writer (with_id 1 (request 7 WorkerRequest.ping)) ∷ [])
    × ((writer_says (response 1 WorkerResponse.ping) (pass_all meanwhile r').0).1
        ≡ post channel_a (with_id 7 (response 1 WorkerResponse.ping)) ∷ [])
unfolding pass_all pass add_bridge empty_registry new_bridge Map.get Map.set envelope_id is_close
    text_beq
answer-forward_example =
    answer-forward (codes "a") (request 7 WorkerRequest.ping) (response 1 WorkerResponse.ping) 7
      meanwhile leader (new_bridge channel_a) leader-RegistryInv refl refl refl
      (inr refl, ((λ p. ground arith), tt)) refl

-- The leader while the client waits for the envelope 1.
abbrev asked : Registry
asked = (client_says (codes "a") (request 7 WorkerRequest.ping) leader).0

asked-RegistryInv : RegistryInv asked
asked-RegistryInv =
    client_says-RegistryInv (codes "a") (request 7 WorkerRequest.ping) leader leader-RegistryInv

asked-Waits : Waits (codes "a") channel_a 1 7 asked
unfolding pass_all pass add_bridge empty_registry new_bridge Map.get Map.set envelope_id is_close
    text_beq client_says on_client_message
asked-Waits = record {
  bridge = record (new_bridge channel_a) { id_map = (1, 7) ∷ [] };
  known = refl;
  over = refl;
  under = refl;
}

add_bridge-strands_example :
    (writer_says (response 1 WorkerResponse.ping) (add_bridge (codes "a") channel_b asked).0).1 ≡ []
unfolding envelope_id
add_bridge-strands_example =
    add_bridge-strands (codes "a") channel_a channel_b 1 7 (response 1 WorkerResponse.ping) asked
      asked-RegistryInv asked-Waits refl
