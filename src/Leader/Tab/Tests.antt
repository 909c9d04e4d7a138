-- ===== src/Leader/Tab/Tests.antt =====
-- packages/storage/src/leader.ts: the theorems on one tab, at a tab that leads with one request in
-- flight and at one that waits for its leader's acknowledgement.
use opfs_webauthn.Map
use opfs_webauthn.Leader.Tab.Budget.{counted_times, failed-recent, recent_count}
use opfs_webauthn.Leader.Tab.Events.{
  Event, closes, create, discovery_hears, granted, pair_hears, posts, step, timer_fires,
  writer_errs,
}
use opfs_webauthn.Leader.Tab.Invariant.{TabInv}
use opfs_webauthn.Leader.Tab.Keeping.{Delivered}
use opfs_webauthn.Leader.Tab.Lasting.{run-in_flight}
use opfs_webauthn.Leader.Tab.Leading.{become_leader, handle_writer_failure, on_granted, take_over}
use opfs_webauthn.Leader.Tab.Pairing.{post_message}
use opfs_webauthn.Leader.Tab.Runs.{Granted, run, run-create-TabInv}
use opfs_webauthn.Leader.Tab.Stale.{Stranded, run-strands}
use opfs_webauthn.Leader.Tab.State.{PendingPair, Tab, next_channel}
use opfs_webauthn.Leader.Wire.{Channel, leader_elected, pair_ack, pair_channel_name, post}
use opfs_webauthn.Map.{Map}
use opfs_webauthn.Prelude.{
  List, [], arith, codes, inr, leb, nat_eq, refl, some, text_eq, true, ◌∷◌, ◌≡◌, ◌⊎◌,
}
use opfs_webauthn.Rpc.Protocol.{
  Message, WorkerRequest, WorkerResponse, envelope_id, request, response,
}

abbrev ping_7 : Message
ping_7 = request 7 WorkerRequest.ping

abbrev starting : Tab
starting = (create (codes "a")).0

-- It buffers a request, takes the lock, and its writer fails once.
abbrev course : List Event
course = posts ping_7 ∷ granted (codes "l") ∷ writer_errs (codes "l") 1000 ∷ []

abbrev leading : Tab
leading = (run (posts ping_7 ∷ granted (codes "l") ∷ []) starting).0

course-Granted : Granted course starting
unfolding create step post_message envelope_id
course-Granted = (tt, (inr refl, (tt, tt)))

run-create-TabInv_example : TabInv (run course starting).0
run-create-TabInv_example = run-create-TabInv (codes "a") course course-Granted

-- The third failure: the other two were 10 and 20 seconds ago.
abbrev worn : Tab
worn = record leading { failures = counted_times (20000 ∷ 10000 ∷ []) }

failed-recent_example :
    let t' = (handle_writer_failure (codes "l") 30000 worn).0 in
    (t'.failures ≡ counted_times (30000 ∷ 20000 ∷ 10000 ∷ []))
    × (t'.failed ≡ leb 2 (recent_count 30000 (20000 ∷ 10000 ∷ [])))
unfolding run step create on_granted become_leader take_over post_message envelope_id
failed-recent_example =
    failed-recent (codes "l") 30000 (20000 ∷ 10000 ∷ []) worn refl
      (((omega arith), ((omega arith), tt)), (((omega arith), tt), (tt, tt))) refl refl refl

abbrev channel_m : Channel
channel_m = record { name = codes "opfs-pair-m-a"; serial = 0 }

abbrev pairing_m : PendingPair
pairing_m = record { leader_id = codes "m"; channel = codes "opfs-pair-m-a" }

abbrev pairing : Tab
pairing = record starting {
  pending_pair = some pairing_m;
  pair_channel = some channel_m;
  current_leader = some (codes "m");
  in_flight = (7, ping_7) ∷ [];
}

-- The pairing is acknowledged, the request is posted again, and its answer comes.
abbrev answered : List Event
answered =
    discovery_hears (pair_ack (codes "m") (codes "a"))
    ∷ pair_hears (response 7 WorkerResponse.ping)
    ∷ closes
    ∷ []

run-in_flight_example :
    let (t', out) = run answered pairing in
    (Map.get 7 t'.in_flight ≡ some ping_7) ⊎ (t'.closed ≡ true) ⊎ Delivered 7 out
unfolding Map.get
run-in_flight_example = run-in_flight answered pairing 7 ping_7 (tt, (tt, (tt, tt))) refl

abbrev old_channel : Channel
old_channel = next_channel (pair_channel_name (codes "old") leading.client_id) leading

abbrev ping_8 : Message
ping_8 = request 8 WorkerRequest.ping

-- The retry timer fires, and the page posts again.
abbrev in_vain : List Event
in_vain = timer_fires (codes "old") old_channel.name ∷ posts ping_7 ∷ []

run-strands_example :
    let t' = (step (discovery_hears (leader_elected (codes "old"))) leading).0 in
    ((step (posts ping_8) t').1 ≡ post old_channel ping_8 ∷ [])
    × Stranded (codes "old") old_channel 8 ping_8 (run (posts ping_8 ∷ in_vain) t').0
unfolding run step create on_granted become_leader take_over post_message envelope_id
run-strands_example =
    run-strands (codes "l") (codes "old") 8 ping_8 in_vain leading refl refl refl refl refl refl
      (λ e. ground arith) refl (tt, (tt, tt)) (tt, ((λ e. ground arith), tt))
