-- ===== src/Leader/Tab/Pairing.antt =====
-- packages/storage/src/leader.ts, `createLeaderTransport`: pairing, discovery and the client's side.
use opfs_webauthn.Map
use opfs_webauthn.Leader.Registry.{add_bridge}
use opfs_webauthn.Leader.Tab.State.{
  Act, Tab, attach_pair, clear_pending_pair, detach_pair, emit, mark_ready, modify, new_channel,
  next_channel, replay_in_flight, ◌>>◌,
}
use opfs_webauthn.Leader.Wire.{
  LeaderMessage, announce, deliver, deliver_error, leader_elected, leader_failed, leader_query,
  pair_ack, pair_channel_name, pair_request, post, set_timer,
}
use opfs_webauthn.Map.{Map}
use opfs_webauthn.Prelude.{
  Bool, Option, Text, [], codes, false, if◌then◌else◌, is_some, nat_eq, none, not, some, text_beq,
  text_eq, ◌&&◌, ◌++◌, ◌+◌, ◌||◌, ◌∷◌,
}
use opfs_webauthn.Rpc.Protocol.{Message, envelope_id, error, is_final}

abbrev pub is_closed : Tab → Bool
is_closed t = t.closed

unfoldable pub same_text : Option Text → Text → Bool
same_text none s = false
same_text (some r) s = text_beq r s

unfoldable pub send_pair_request : Text → Text → Act
send_pair_request leader name t =
    if t.closed then (t, []) else (t, announce (pair_request leader t.client_id name) ∷ [])

unfoldable pub arm : Text → Text → Act
arm leader name t = (
  record t { pending_pair = some (record { leader_id = leader; channel = name }) },
  set_timer leader name ∷ [],
)

unfoldable pub pair_with_leader : Text → Act
unfolding send_pair_request arm attach_pair new_channel clear_pending_pair same_text
pair_with_leader leader t =
    if t.closed || (same_text t.current_leader leader && is_some t.pair_channel)
    then (t, [])
    else (do
      modify (λ t. record t { current_leader = some leader })
      clear_pending_pair
      new_channel name
      attach_pair (next_channel name t)
      arm leader name
      send_pair_request leader name)
        t
  where
    name : Text
    name = pair_channel_name leader t.client_id

-- The callback of the timer that `arm` sets for `leader`.
unfoldable pub on_timer : Text → Text → Act
unfolding send_pair_request arm
on_timer leader name t = elim t.pending_pair [
  | none ↦ (t, [])
  | some p ↦
      if text_beq p.leader_id leader && not t.closed
      then (do send_pair_request leader name; arm leader name) t
      else (t, [])
]

on_pair_request : Text → Text → Text → Act
unfolding same_text add_bridge
on_pair_request leader client name t =
    if t.writer && same_text t.leader_id leader
    then (let (r, out) = add_bridge client (next_channel name t) t.registry in
        (
          record t { registry = r; next_serial = t.next_serial + 1 },
          out ++ (announce (pair_ack leader client) ∷ []),
        ))
    else (t, [])

replay_pair : Act
unfolding replay_in_flight
replay_pair t = elim t.pair_channel [ none ↦ (t, []) | some ch ↦ replay_in_flight ch t ]

on_pair_ack : Text → Text → Act
unfolding clear_pending_pair replay_pair mark_ready
on_pair_ack leader client t =
    if text_beq client t.client_id
    then (elim t.pending_pair [
      | none ↦ (t, [])
      | some p ↦
          if text_beq p.leader_id leader
          then (do clear_pending_pair; replay_pair; mark_ready) t
          else (t, [])
    ])
    else (t, [])

on_leader_failed : Text → Act
unfolding detach_pair clear_pending_pair same_text
on_leader_failed leader t =
    if same_text t.current_leader leader
    then (do
      detach_pair
      modify (λ t. record t { current_leader = none })
      clear_pending_pair
      emit deliver_error)
        t
    else (t, [])

on_leader_query : Act
on_leader_query t =
    if t.writer
    then (elim t.leader_id [ none ↦ (t, []) | some id ↦ (t, announce (leader_elected id) ∷ []) ])
    else (t, [])

-- `onDiscoveryMessage`.
unfoldable pub on_discovery : LeaderMessage → Act
unfolding pair_with_leader on_pair_request on_pair_ack on_leader_failed on_leader_query same_text
on_discovery (leader_elected id) t =
    if same_text t.leader_id id then (t, []) else pair_with_leader id t
on_discovery (pair_request leader client name) t = on_pair_request leader client name t
on_discovery (pair_ack leader client) t = on_pair_ack leader client t
on_discovery (leader_failed leader message) t = on_leader_failed leader t
on_discovery leader_query t = on_leader_query t

-- `onPairMessage`.
unfoldable pub on_pair_message : Message → Act
on_pair_message m t = (
  elim (envelope_id m) [
    | none ↦ t
    | some id ↦ if is_final m then record t { in_flight = Map.delete id t.in_flight } else t
  ],
  deliver m ∷ [],
)

abbrev pub permanently_failed : Text
permanently_failed = codes "storage worker permanently failed (3 crashes in 30s)"

-- `postMessage` of the transport.
unfoldable pub post_message : Message → Act
post_message m t =
    if t.closed
    then (t, [])
    else if t.failed
    then (elim (envelope_id m) [
      | none ↦ (t, [])
      | some id ↦ (t, deliver (error id permanently_failed) ∷ [])
    ])
    else (
      elim (envelope_id m) [
        | none ↦ t
        | some id ↦ record t { in_flight = Map.set id m t.in_flight }
      ],
      elim t.pair_channel [ none ↦ [] | some ch ↦ post ch m ∷ [] ],
    )
