-- ===== src/Leader/Tab/Replay.antt =====
-- packages/storage/src/leader.ts, `inFlight` of `createLeaderTransport`: no request is lost.
use opfs_webauthn.Map
use opfs_webauthn.Leader.Tab.Leading.{become_leader, take_over}
use opfs_webauthn.Leader.Tab.Pairing.{on_discovery}
use opfs_webauthn.Leader.Tab.State.{
  PendingPair, Tab, attach_pair, clear_pending_pair, detach_pair, mark_ready, new_channel,
  post_each, replay_in_flight,
}
use opfs_webauthn.Leader.Wire.{Channel, Effect, pair_ack, pair_channel_name, post, resolve_ready}
use opfs_webauthn.Map.{Map}
use opfs_webauthn.Prelude.{
  List, Text, [], ap, arith, false, if_false, nat_eq, none, refl, some, sym, text_beq_iff, text_eq,
  true, ◌++◌, ◌+◌, ◌∙◌, ◌∷◌, ◌≡◌,
}
use opfs_webauthn.Rpc.Protocol.{Message}
use mathlib.Core.List.{append-nil, append_assoc}

-- The messages posted among the effects, each with its channel.
abbrev pub posted_of : Effect → List (Channel × Message)
posted_of (post ch m) = (ch, m) ∷ []
posted_of _ = []

abbrev pub all_posted : List Effect → List (Channel × Message)
all_posted [] = []
all_posted (e ∷ out) = posted_of e ++ all_posted out

abbrev pub each_on : Channel → List Message → List (Channel × Message)
each_on ch [] = []
each_on ch (m ∷ ms) = (ch, m) ∷ each_on ch ms

all_posted-append : (xs ys : List Effect) → all_posted (xs ++ ys) ≡ all_posted xs ++ all_posted ys
all_posted-append [] ys = refl
all_posted-append (e ∷ xs) ys =
    ap (◌++◌ (posted_of e)) (all_posted-append xs ys)
    ∙ sym (append_assoc (posted_of e) (all_posted xs) (all_posted ys))

all_posted-post_each :
    (ch : Channel) (ms : List Message) → all_posted (post_each ch ms) ≡ each_on ch ms
unfolding post_each
all_posted-post_each ch [] = refl
all_posted-post_each ch (m ∷ ms) = ap (◌∷◌ (ch, m)) (all_posted-post_each ch ms)

clear-posted : (t : Tab) → all_posted (clear_pending_pair t).1 ≡ []
unfolding clear_pending_pair
clear-posted t = ground arith

clear-in_flight : (t : Tab) → (clear_pending_pair t).0.in_flight ≡ t.in_flight
unfolding clear_pending_pair
clear-in_flight t = ground arith

detach-posted : (t : Tab) → all_posted (detach_pair t).1 ≡ []
unfolding detach_pair
detach-posted t = ground arith

detach-in_flight : (t : Tab) → (detach_pair t).0.in_flight ≡ t.in_flight
unfolding detach_pair
detach-in_flight t = ground arith

mark_ready-posted : (t : Tab) → all_posted (mark_ready t).1 ≡ []
unfolding mark_ready
mark_ready-posted t = ground arith

mark_ready-in_flight : (t : Tab) → (mark_ready t).0.in_flight ≡ t.in_flight
unfolding mark_ready
mark_ready-in_flight t = ground arith

mark_ready-pair_channel : (t : Tab) → (mark_ready t).0.pair_channel ≡ t.pair_channel
unfolding mark_ready
mark_ready-pair_channel t = ground arith

mark_ready-settled : (t : Tab) → (mark_ready t).0.ready_settled ≡ true
unfolding mark_ready
mark_ready-settled t = ground arith

ruleset replaying = (
  all_posted-append, all_posted-post_each, append-nil, clear-posted, clear-in_flight, detach-posted,
  detach-in_flight, mark_ready-posted, mark_ready-in_flight, mark_ready-pair_channel,
  mark_ready-settled,
)

take_over-replay :
    (id : Text) (a b : Channel) (t : Tab)
    → let (t', out) = take_over id a b t in
      (all_posted out ≡ each_on b (Map.values t.in_flight))
      × (t'.pair_channel ≡ some b)
      × (t'.in_flight ≡ t.in_flight)
      × (t'.ready_settled ≡ true)
unfolding take_over new_channel attach_pair replay_in_flight
take_over-replay id a b t = (simp replaying, simp replaying, simp replaying, simp replaying)

-- The client's end of the new leader's pairing with itself.
abbrev pub own_end : Text → Tab → Channel
own_end id t = record { name = pair_channel_name id t.client_id; serial = t.next_serial + 1 }

become_leader-open :
    (id : Text) (t : Tab)
    → t.closed ≡ false
    → become_leader id t
      ≡ take_over id (record (own_end id t) { serial = t.next_serial }) (own_end id t) t
unfolding become_leader
become_leader-open id t c = if_false t.closed (t, []) _ c

-- A tab that becomes the leader posts every request in flight again, in the order of the map and
-- nothing else, on its own end of its new pairing. They stay in flight, and the transport is ready.
pub become_leader-replay :
    (id : Text) (t : Tab)
    → t.closed ≡ false
    → let (t', out) = become_leader id t in
      (all_posted out ≡ each_on (own_end id t) (Map.values t.in_flight))
      × (t'.pair_channel ≡ some (own_end id t))
      × (t'.in_flight ≡ t.in_flight)
      × (t'.ready_settled ≡ true)
become_leader-replay id t c =
    rw (become_leader-open id t c)
      (take_over-replay id (record (own_end id t) { serial = t.next_serial }) (own_end id t) t)

-- A client whose leader acknowledges the pairing that it waits for posts every request in flight again,
-- in the order of the map and nothing else, on its end of the pair channel. They stay in flight, and the
-- transport is ready.
pub on_discovery-replay :
    (leader : Text) (t : Tab) (p : PendingPair) (ch : Channel)
    → t.pending_pair ≡ some p
    → p.leader_id ≡ leader
    → t.pair_channel ≡ some ch
    → let (t', out) = on_discovery (pair_ack leader t.client_id) t in
      (all_posted out ≡ each_on ch (Map.values t.in_flight))
      × (t'.pair_channel ≡ some ch)
      × (t'.pending_pair ≡ none)
      × (t'.in_flight ≡ t.in_flight)
      × (t'.ready_settled ≡ true)
unfolding on_discovery
on_discovery-replay leader t p ch w l c =
    let again : List Effect = post_each ch (Map.values t.in_flight) in
    ground (
      arith,
      text_beq_iff t.client_id t.client_id,
      text_beq_iff p.leader_id leader,
      all_posted-post_each ch (Map.values t.in_flight),
      all_posted-append again [],
      all_posted-append again (resolve_ready ∷ []),
      append-nil (each_on ch (Map.values t.in_flight)),
    )
