-- ===== src/Leader/Tab/State.antt =====
-- packages/storage/src/leader.ts, `createLeaderTransport`: the variables that its closures share, and
-- the actions on them. An action returns the new state and its effects in order.
use opfs_webauthn.Map
use opfs_webauthn.Leader.Registry.{Registry}
use opfs_webauthn.Leader.Wire.{
  Channel, Effect, clear_timer, close_channel, open_channel, post, reject_ready, resolve_ready,
}
use opfs_webauthn.Map.{Map}
use opfs_webauthn.Prelude.{
  Bool, List, Option, Text, [], if◌then◌else◌, nat_eq, none, some, text_eq, true, ℕ, ◌++◌, ◌+◌, ◌∷◌,
}
use opfs_webauthn.Rpc.Protocol.{Message}

-- `pendingPair`; its timer runs as long as it is there.
pub record PendingPair : Type 0 where
  pub leader_id : Text
  pub channel : Text

pub record Tab : Type 0 where
  pub client_id : Text
  pub pair_channel : Option Channel
  pub current_leader : Option Text
  pub closed : Bool
  pub failed : Bool
  pub pending_pair : Option PendingPair
  -- The worker that this tab hosts, and whether the tab listens to its errors.
  pub writer : Bool
  pub writer_watched : Bool
  pub leader_id : Option Text
  pub registry : Registry
  -- `resolveLock` is set while the lock is held; `lockAbort` names the lock request that it aborts.
  pub resolve_lock : Bool
  pub lock_abort : Option ℕ
  pub next_request : ℕ
  pub ready_settled : Bool
  pub in_flight : Map ℕ Message
  -- Times of the writer's failures, oldest first.
  pub failures : List ℕ
  -- The discovery listener is attached.
  pub discovering : Bool
  -- The serial number of the next channel object.
  pub next_serial : ℕ

abbrev pub Act : Type 0
Act = Tab → Tab × List Effect

abbrev pub skip : Act
skip t = (t, [])

infixl 5 ◌>>◌
abbrev pub ◌>>◌ : Act → Act → Act
◌>>◌ m n t = let (t', out) = m t in let (t'', rest) = n t' in (t'', out ++ rest)

abbrev pub emit : Effect → Act
emit e t = (t, e ∷ [])

abbrev pub modify : (Tab → Tab) → Act
modify f t = (f t, [])

abbrev pub when : (Tab → Bool) → Act → Act
when p m t = if p t then m t else (t, [])

abbrev pub unless : (Tab → Bool) → Act → Act
unless p m t = if p t then (t, []) else m t

unfoldable pub mark_ready : Act
mark_ready t =
    if t.ready_settled then (t, []) else (record t { ready_settled = true }, resolve_ready ∷ [])

unfoldable pub fail_ready : Text → Act
fail_ready reason t =
    if t.ready_settled
    then (t, [])
    else (record t { ready_settled = true }, reject_ready reason ∷ [])

unfoldable pub detach_pair : Act
detach_pair t = elim t.pair_channel [
  | none ↦ (t, [])
  | some ch ↦ (record t { pair_channel = none }, close_channel ch ∷ [])
]

unfoldable pub clear_pending_pair : Act
clear_pending_pair t = elim t.pending_pair [
  | none ↦ (t, [])
  | some p ↦ (record t { pending_pair = none }, clear_timer ∷ [])
]

-- `new BroadcastChannel(name)`: the object that the next number names.
abbrev pub next_channel : Text → Tab → Channel
next_channel name t = record { name = name; serial = t.next_serial }

unfoldable pub new_channel : Text → Act
new_channel name t =
    (record t { next_serial = t.next_serial + 1 }, open_channel (next_channel name t) ∷ [])

unfoldable pub attach_pair : Channel → Act
unfolding detach_pair
attach_pair ch = do detach_pair; modify (λ t. record t { pair_channel = some ch })

unfoldable pub post_each : Channel → List Message → List Effect
post_each ch [] = []
post_each ch (m ∷ ms) = post ch m ∷ post_each ch ms

unfoldable pub replay_in_flight : Channel → Act
unfolding post_each
replay_in_flight ch t = (t, post_each ch (Map.values t.in_flight))
