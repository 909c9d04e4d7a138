-- ===== src/Leader/Tab/Events.antt =====
-- packages/storage/src/leader.ts, `createLeaderTransport`: what a tab reacts to.
use opfs_webauthn.Leader.Registry.{client_says, empty_registry, writer_says}
use opfs_webauthn.Leader.Tab.Leading.{
  close_tab, handle_writer_failure, on_granted, on_lock_settled, request_the_lock,
}
use opfs_webauthn.Leader.Tab.Pairing.{on_discovery, on_pair_message, on_timer, post_message}
use opfs_webauthn.Leader.Tab.State.{Act, Tab, emit, ◌>>◌}
use opfs_webauthn.Leader.Wire.{Effect, LeaderMessage, announce, leader_query}
use opfs_webauthn.Prelude.{List, Option, Text, [], false, if◌then◌else◌, is_some, none, true, ℕ}
use opfs_webauthn.Rpc.Protocol.{Message}

pub data Event : Type 0 where
  posts : Message → Event
  pair_hears : Message → Event
  bridge_hears : (client : Text) → Message → Event
  writer_emits : Message → Event
  writer_errs : (leader : Text) (now : ℕ) → Event
  discovery_hears : LeaderMessage → Event
  timer_fires : (leader name : Text) → Event
  granted : (new_id : Text) → Event
  lock_settles : (request : ℕ) (rejection : Option Text) → Event
  closes : Event

-- A listener that was removed hears nothing.
unfoldable pub step : Event → Act
unfolding post_message on_pair_message on_discovery on_timer on_granted on_lock_settled close_tab
    handle_writer_failure
step (posts m) t = post_message m t
step (pair_hears m) t = if is_some t.pair_channel then on_pair_message m t else (t, [])
step (bridge_hears client m) t =
    let (r, out) = client_says client m t.registry in (record t { registry = r }, out)
step (writer_emits m) t =
    if t.writer
    then (let (r, out) = writer_says m t.registry in (record t { registry = r }, out))
    else (t, [])
step (writer_errs leader now) t =
    if t.writer_watched then handle_writer_failure leader now t else (t, [])
step (discovery_hears m) t = if t.discovering then on_discovery m t else (t, [])
step (timer_fires leader name) t = on_timer leader name t
step (granted new_id) t = on_granted new_id t
step (lock_settles n rejection) t = on_lock_settled n rejection t
step closes t = close_tab t

-- The start of `createLeaderTransport`: ask for the lock, and for a leader that is there already.
unfoldable pub create : Text → Tab × List Effect
unfolding request_the_lock empty_registry
create client_id = (do request_the_lock; emit (announce leader_query)) blank
  where
    blank : Tab
    blank = record {
      client_id = client_id;
      pair_channel = none;
      current_leader = none;
      closed = false;
      failed = false;
      pending_pair = none;
      writer = false;
      writer_watched = false;
      leader_id = none;
      registry = empty_registry;
      resolve_lock = false;
      lock_abort = none;
      next_request = 0;
      ready_settled = false;
      in_flight = [];
      failures = [];
      discovering = true;
      next_serial = 0;
    }
