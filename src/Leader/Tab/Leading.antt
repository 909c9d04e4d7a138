-- ===== src/Leader/Tab/Leading.antt =====
-- packages/storage/src/leader.ts, `createLeaderTransport`: leading, failing, and the lock.
use opfs_webauthn.Map
use opfs_webauthn.Leader.Bridge.{new_bridge}
use opfs_webauthn.Leader.Registry.{dispose_each, fail_each}
use opfs_webauthn.Leader.Tab.Pairing.{permanently_failed, same_text}
use opfs_webauthn.Leader.Tab.State.{
  Act, Tab, attach_pair, clear_pending_pair, detach_pair, emit, fail_ready, mark_ready, modify,
  new_channel, next_channel, replay_in_flight, ◌>>◌,
}
use opfs_webauthn.Leader.Wire.{
  Channel, abort_lock, announce, close_discovery, close_writer, deliver, deliver_error,
  leader_elected, leader_failed, pair_channel_name, release_lock, request_lock, start_writer,
}
use opfs_webauthn.Map.{Map}
use opfs_webauthn.Prelude.{
  List, Option, Text, [], codes, false, if◌then◌else◌, leb, length, ltb, nat_eq, none, not, some,
  text_eq, true, ℕ, ◌&&◌, ◌++◌, ◌+◌, ◌==◌, ◌∷◌,
}
use opfs_webauthn.Rpc.Protocol.{error}

abbrev pub restart_window_ms : ℕ
restart_window_ms = 30000

abbrev pub max_failures : ℕ
max_failures = 3

-- The body of `becomeLeader`, over the two channel objects of the tab's pairing with itself.
unfoldable pub take_over : Text → Channel → Channel → Act
take_over id bridge_side client_side = do
  clear_pending_pair
  modify (λ t. record t { leader_id = some id; writer = true; writer_watched = true })
  emit start_writer
  new_channel bridge_side.name
  new_channel client_side.name
  modify (λ t. record t {
    registry = record t.registry {
      bridges = Map.set t.client_id (new_bridge bridge_side) t.registry.bridges;
    };
  })
  modify (λ t. record t { current_leader = some id })
  attach_pair client_side
  replay_in_flight client_side
  mark_ready
  emit (announce (leader_elected id))

unfoldable pub become_leader : Text → Act
unfolding take_over clear_pending_pair new_channel new_bridge attach_pair replay_in_flight
    mark_ready
become_leader id t = if t.closed then (t, []) else take_over id bridge_side client_side t
  where
    bridge_side : Channel
    bridge_side = next_channel (pair_channel_name id t.client_id) t

    client_side : Channel
    client_side = record bridge_side { serial = t.next_serial + 1 }

unfoldable pub give_up_leadership : Act
give_up_leadership t = (
  record t {
    writer_watched = false;
    registry = record t.registry { bridges = [] };
    writer = false;
    leader_id = none;
    resolve_lock = false;
  },
  dispose_each t.registry.bridges
      ++ ((if t.writer then close_writer ∷ [] else [])
          ++ (if t.resolve_lock then release_lock ∷ [] else [])),
)

unfoldable pub request_the_lock : Act
request_the_lock t = if t.closed then (t, []) else (
  record t { lock_abort = some t.next_request; next_request = t.next_request + 1 },
  request_lock ∷ [],
)

-- The loop that drops failures older than the window.
unfoldable pub purge : ℕ → List ℕ → List ℕ
purge now [] = []
purge now (head ∷ rest) = if ltb (head + restart_window_ms) now then purge now rest else head ∷ rest

-- One error for each request in flight, dropping it first.
unfoldable pub fail_in_flight : List ℕ → Act
fail_in_flight [] t = (t, [])
fail_in_flight (id ∷ ids) t =
    let (t', rest) = fail_in_flight ids (record t { in_flight = Map.delete id t.in_flight }) in
    (t', deliver (error id permanently_failed) ∷ rest)

-- The terminal state, after `max_failures` failures within the window.
unfoldable pub fail_for_good : Act
unfolding fail_in_flight detach_pair clear_pending_pair
fail_for_good t =
    (do
      modify (λ t. record t { failed = true })
      fail_in_flight (Map.keys t.in_flight)
      detach_pair
      modify (λ t. record t { current_leader = none })
      clear_pending_pair
      modify (λ t. record t { discovering = false })
      emit close_discovery
      emit deliver_error)
      t

unfoldable pub restart_lock_request : ℕ → Act
unfolding purge fail_for_good request_the_lock
restart_lock_request now t =
    if t.closed
    then (t, [])
    else let counted : Tab = record t { failures = purge now t.failures ++ (now ∷ []) } in
      if leb max_failures (length counted.failures)
      then fail_for_good counted
      else request_the_lock counted

abbrev pub writer_failed : Text
writer_failed = codes "storage writer error"

-- `handleWriterFailure` at the time `now`, for the writer of the leader `expected`.
unfoldable pub handle_writer_failure : Text → ℕ → Act
unfolding give_up_leadership restart_lock_request same_text
handle_writer_failure expected now t =
    if not t.closed && same_text t.leader_id expected
    then (do
      fail_bridges
      emit (announce (leader_failed expected writer_failed))
      emit deliver_error
      give_up_leadership
      modify (λ t. record t { current_leader = none })
      restart_lock_request now)
        t
    else (t, [])
  where
    fail_bridges : Act
    fail_bridges t =
        let (bs, out) = fail_each writer_failed t.registry.bridges in
        (record t { registry = record t.registry { bridges = bs } }, out)

-- The callback of `locks.request`, when the lock is granted. A closed transport gives it back.
unfoldable pub on_granted : Text → Act
unfolding become_leader
on_granted id t =
    if t.closed
    then (t, release_lock ∷ [])
    else (do modify (λ t. record t { resolve_lock = true }); become_leader id) t

-- The request numbered `n` has ended, with a rejection or by the release of its lock.
unfoldable pub on_lock_settled : ℕ → Option Text → Act
unfolding fail_ready
on_lock_settled n rejection t = (do rejected; finally) t
  where
    rejected : Act
    rejected t = elim rejection [
      | none ↦ (t, [])
      | some reason ↦ if t.closed then (t, []) else (do emit deliver_error; fail_ready reason) t
    ]

    finally : Act
    finally t = elim t.lock_abort [
      | none ↦ (t, [])
      | some k ↦ if k == n then (record t { lock_abort = none }, []) else (t, [])
    ]

abbrev pub closed_before_ready : Text
closed_before_ready = codes "leader transport closed before ready"

-- `close` of the transport.
unfoldable pub close_tab : Act
unfolding clear_pending_pair fail_ready detach_pair give_up_leadership
close_tab t =
    if t.closed
    then (t, [])
    else (do
      modify (λ t. record t { closed = true })
      clear_pending_pair
      fail_ready closed_before_ready
      modify (λ t. record t { discovering = false })
      emit close_discovery
      detach_pair
      abort
      give_up_leadership
      modify (λ t. record t { in_flight = [] }))
        t
  where
    abort : Act
    abort t = elim t.lock_abort [
      | none ↦ (t, [])
      | some n ↦ (record t { lock_abort = none }, abort_lock ∷ [])
    ]
