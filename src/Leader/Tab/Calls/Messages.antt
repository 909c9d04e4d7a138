-- ===== src/Leader/Tab/Calls/Messages.antt =====
-- The events of a tab that leave the lock alone.
use opfs_webauthn.Map
use opfs_webauthn.Leader.Bridge.{
  Bridge, dispose, fail_pending, on_client_message, on_writer_message, post_errors,
}
use opfs_webauthn.Leader.Registry.{
  Registry, client_says, dispose_each, each_answers, fail_each, writer_says,
}
use opfs_webauthn.Leader.Tab.Calls.Defs.{lock_calls, lock_calls-append}
use opfs_webauthn.Leader.Tab.Events.{
  Event, bridge_hears, closes, discovery_hears, granted, lock_settles, pair_hears, posts, step,
  timer_fires, writer_emits, writer_errs,
}
use opfs_webauthn.Leader.Tab.Leading.{fail_in_flight}
use opfs_webauthn.Leader.Tab.Pairing.{on_discovery}
use opfs_webauthn.Leader.Tab.State.{Tab, post_each}
use opfs_webauthn.Leader.Wire.{
  Channel, Effect, LeaderMessage, leader_elected, leader_failed, leader_query, pair_ack,
  pair_request, resolve_ready,
}
use opfs_webauthn.Map.{Map}
use opfs_webauthn.Prelude.{
  List, Option-cases, Text, [], arith, inl, inr, nat_eq, refl, text_eq, ℕ, ◌∙◌, ◌∷◌, ◌≡◌,
}
use opfs_webauthn.Rpc.Protocol.{Message}

pub lock_calls-post_each : (ch : Channel) (ms : List Message) → lock_calls (post_each ch ms) ≡ []
unfolding post_each
lock_calls-post_each ch [] = refl
lock_calls-post_each ch (m ∷ ms) = lock_calls-post_each ch ms

lock_calls-post_errors :
    (ch : Channel) (s : Text) (ids : List ℕ) → lock_calls (post_errors ch s ids) ≡ []
unfolding post_errors
lock_calls-post_errors ch s [] = refl
lock_calls-post_errors ch s (id ∷ ids) = lock_calls-post_errors ch s ids

pub lock_calls-fail_each : (s : Text) (bs : Map Text Bridge) → lock_calls (fail_each s bs).1 ≡ []
unfolding fail_each fail_pending
lock_calls-fail_each s [] = refl
lock_calls-fail_each s ((k, b) ∷ bs) =
    lock_calls-append (fail_pending s b).1 (fail_each s bs).1
    ∙ ground
        (arith, lock_calls-fail_each s bs, lock_calls-post_errors b.channel s (Map.values b.id_map))

pub lock_calls-dispose_each : (bs : Map Text Bridge) → lock_calls (dispose_each bs) ≡ []
unfolding dispose_each
lock_calls-dispose_each [] = refl
lock_calls-dispose_each ((k, b) ∷ bs) =
    lock_calls-append (dispose b).1 (dispose_each bs) ∙ ground (arith, lock_calls-dispose_each bs)

pub lock_calls-fail_in_flight : (ids : List ℕ) (t : Tab) → lock_calls (fail_in_flight ids t).1 ≡ []
unfolding fail_in_flight
lock_calls-fail_in_flight [] t = refl
lock_calls-fail_in_flight (id ∷ ids) t =
    lock_calls-fail_in_flight ids (record t { in_flight = Map.delete id t.in_flight })

lock_calls-on_writer_message :
    (m : Message) (b : Bridge) → lock_calls (on_writer_message m b).1 ≡ []
unfolding on_writer_message
lock_calls-on_writer_message m b = ground arith

lock_calls-client_says :
    (k : Text) (m : Message) (r : Registry) → lock_calls (client_says k m r).1 ≡ []
unfolding client_says on_client_message
lock_calls-client_says k m r = ground arith

lock_calls-each_answers :
    (m : Message) (bs : Map Text Bridge) → lock_calls (each_answers m bs).1 ≡ []
unfolding each_answers
lock_calls-each_answers m [] = refl
lock_calls-each_answers m ((k, b) ∷ bs) =
    lock_calls-append (on_writer_message m b).1 (each_answers m bs).1
    ∙ ground (arith, lock_calls-each_answers m bs, lock_calls-on_writer_message m b)

lock_calls-writer_says : (m : Message) (r : Registry) → lock_calls (writer_says m r).1 ≡ []
unfolding writer_says
lock_calls-writer_says m r = lock_calls-each_answers m r.bridges

-- What an event leaves alone unless it is about the lock: neither a call to the lock manager, nor a
-- change of who leads, of what is closed or failed, or of the pending lock request.
pub record Still (t : Tab) (r : Tab × List Effect) : Type 0 where
  pub calls : lock_calls r.1 ≡ []
  pub lock : r.0.resolve_lock ≡ t.resolve_lock
  pub leader : r.0.leader_id ≡ t.leader_id
  pub closed : r.0.closed ≡ t.closed
  pub failed : r.0.failed ≡ t.failed

abbrev pub IsPlain : Event → Type 0
IsPlain (granted id) = ⊥
IsPlain closes = ⊥
IsPlain (writer_errs leader now) = ⊥
IsPlain (posts m) = Unit {0}
IsPlain _ = Unit

on_discovery-Still : (m : LeaderMessage) (t : Tab) → Still t (on_discovery m t)
unfolding on_discovery
on_discovery-Still (leader_elected id) t = ground arith
on_discovery-Still (pair_request leader client name) t = ground arith
on_discovery-Still (pair_ack leader client) t = elim (Option-cases t.pair_channel) [
  | inl e ↦ ground arith
  | inr (ch, e) ↦
      let again : List Effect = post_each ch (Map.values t.in_flight) in
      ground (
        arith,
        lock_calls-post_each ch (Map.values t.in_flight),
        lock_calls-append again [],
        lock_calls-append again (resolve_ready ∷ []),
      )
]
on_discovery-Still (leader_failed leader s) t = ground arith
on_discovery-Still leader_query t = ground arith

-- An event that is no grant, no close and no failure of the writer makes no call to the lock manager,
-- and changes nothing that concerns the lock.
pub step-Still : (e : Event) (t : Tab) → IsPlain e → Still t (step e t)
unfolding step
step-Still (posts m) t p = ground arith
step-Still (pair_hears m) t p = ground arith
step-Still (bridge_hears client m) t p = ground (arith, lock_calls-client_says client m t.registry)
step-Still (writer_emits m) t p = ground (arith, lock_calls-writer_says m t.registry)
step-Still (writer_errs leader now) t p = absurd p
step-Still (discovery_hears m) t p = ground (arith, on_discovery-Still m t)
step-Still (timer_fires leader name) t p = ground arith
step-Still (granted id) t p = absurd p
step-Still (lock_settles n r) t p = ground arith
step-Still closes t p = absurd p
