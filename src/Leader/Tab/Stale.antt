-- ===== src/Leader/Tab/Stale.antt =====
-- packages/storage/src/leader.ts, `onDiscoveryMessage`: an announcement that arrives late at a leader.
use opfs_webauthn.Map
use opfs_webauthn.Leader.Tab.Events.{
  Event, bridge_hears, closes, discovery_hears, granted, lock_settles, pair_hears, posts, step,
  timer_fires, writer_emits, writer_errs,
}
use opfs_webauthn.Leader.Tab.Keeping.{Spares}
use opfs_webauthn.Leader.Tab.Lasting.{SparesAll}
use opfs_webauthn.Leader.Tab.Leading.{on_lock_settled}
use opfs_webauthn.Leader.Tab.Pairing.{on_discovery, on_timer, pair_with_leader, post_message}
use opfs_webauthn.Leader.Tab.Runs.{run}
use opfs_webauthn.Leader.Tab.State.{PendingPair, Tab, next_channel}
use opfs_webauthn.Leader.Wire.{
  Channel, leader_elected, leader_failed, leader_query, pair_ack, pair_channel_name, pair_request,
  post,
}
use opfs_webauthn.Map.{Map}
use opfs_webauthn.Prelude.{
  All, Bool, List, Option, Option-cases, Text, [], ap, arith, false, inl, inr, nat_eq, none, some,
  text_beq, text_beq_iff, text_eq, true, ℕ, ◌∷◌, ◌≡◌, ◌≢◌,
}
use opfs_webauthn.Rpc.Protocol.{Message, envelope_id}

-- What may happen at a tab that chases the leader `rival` while that leader is gone: the page posts, the bridges
-- and the writer work, timers fire, and tabs ask. Nobody speaks for `rival` or on its channel, no further
-- leader comes up, and the tab neither fails nor closes.
abbrev pub IsQuiet : Text → Event → Type 0
IsQuiet rival (posts m) = Unit
IsQuiet rival (pair_hears m) = ⊥
IsQuiet rival (bridge_hears client m) = Unit
IsQuiet rival (writer_emits m) = Unit
IsQuiet rival (writer_errs boss now) = ⊥
IsQuiet rival (discovery_hears (leader_elected boss)) = boss ≡ rival
IsQuiet rival (discovery_hears (pair_request boss client name)) = Unit
IsQuiet rival (discovery_hears (pair_ack boss client)) = boss ≢ rival
IsQuiet rival (discovery_hears (leader_failed boss message)) = boss ≢ rival
IsQuiet rival (discovery_hears leader_query) = Unit
IsQuiet rival (timer_fires boss name) = Unit
IsQuiet rival (granted new_id) = ⊥
IsQuiet rival (lock_settles n rejection) = Unit
IsQuiet rival closes = ⊥

abbrev pub chases : Text → Option PendingPair → Bool
chases boss none = false
chases boss (some p) = text_beq p.leader_id boss

-- A tab that hosts the writer and posts its requests on a channel of `rival`, with one of them waiting.
pub record Stranded (rival : Text) (ch : Channel) (i : ℕ) (m : Message) (t : Tab) : Type 0 where
  pub open_still : t.closed ≡ false
  pub sound : t.failed ≡ false
  pub hosts : t.writer ≡ true
  pub follows : t.current_leader ≡ some rival
  pub over : t.pair_channel ≡ some ch
  pub asks_again : chases rival t.pending_pair ≡ true
  pub waits : Map.get i t.in_flight ≡ some m

step-Stranded :
    (rival : Text) (ch : Channel) (i : ℕ) (m : Message) (e : Event) (t : Tab)
    → IsQuiet rival e
    → Spares i e
    → Stranded rival ch i m t
    → Stranded rival ch i m (step e t).0
unfolding step post_message on_discovery pair_with_leader on_timer on_lock_settled
step-Stranded rival ch i m (posts n) t q s k = elim (Option-cases (envelope_id n)) [
  | inl e ↦ ground arith
  | inr (j, e) ↦ ground (arith, Map.get-set j i n t.in_flight)
]
step-Stranded rival ch i m (pair_hears n) t q s k = absurd q
step-Stranded rival ch i m (bridge_hears client n) t q s k = ground arith
step-Stranded rival ch i m (writer_emits n) t q s k = ground arith
step-Stranded rival ch i m (writer_errs boss now) t q s k = absurd q
step-Stranded rival ch i m (discovery_hears (leader_elected boss)) t q s k =
    ground (arith, text_beq_iff rival boss)
step-Stranded rival ch i m (discovery_hears (pair_request boss client name)) t q s k = ground arith
step-Stranded rival ch i m (discovery_hears (pair_ack boss client)) t q s k =
    elim (Option-cases t.pending_pair) [
      | inl e ↦ absurd (cc (ap (chases rival) e, k.asks_again))
      | inr (p, e) ↦ ground (arith, text_beq_iff p.leader_id rival, text_beq_iff p.leader_id boss)
    ]
step-Stranded rival ch i m (discovery_hears (leader_failed boss message)) t q s k =
    ground (arith, text_beq_iff rival boss)
step-Stranded rival ch i m (discovery_hears leader_query) t q s k = ground arith
step-Stranded rival ch i m (timer_fires boss name) t q s k = elim (Option-cases t.pending_pair) [
  | inl e ↦ absurd (cc (ap (chases rival) e, k.asks_again))
  | inr (p, e) ↦ ground (
    arith,
    text_beq_iff p.leader_id rival,
    text_beq_iff p.leader_id boss,
    text_beq_iff boss rival,
  )
]
step-Stranded rival ch i m (granted new_id) t q s k = absurd q
step-Stranded rival ch i m (lock_settles n rejection) t q s k = ground arith
step-Stranded rival ch i m closes t q s k = absurd q

run-Stranded :
    (rival : Text) (ch : Channel) (i : ℕ) (m : Message) (es : List Event) (t : Tab)
    → All (IsQuiet rival) es
    → SparesAll i es
    → Stranded rival ch i m t
    → Stranded rival ch i m (run es t).0
unfolding run
run-Stranded rival ch i m [] t q s k = k
run-Stranded rival ch i m (e ∷ es) t q s k =
    run-Stranded rival ch i m es (step e t).0 q.1 s.1 (step-Stranded rival ch i m e t q.0 s.0 k)

-- The tab has heard the late announcement, and its page then posts a request.
starts-Stranded :
    (id rival : Text) (i : ℕ) (m : Message) (t : Tab)
    → t.closed ≡ false
    → t.failed ≡ false
    → t.writer ≡ true
    → t.discovering ≡ true
    → t.leader_id ≡ some id
    → t.current_leader ≡ some id
    → rival ≢ id
    → envelope_id m ≡ some i
    → let ch = next_channel (pair_channel_name rival t.client_id) t in
      let t' = (step (discovery_hears (leader_elected rival)) t).0 in
      Stranded rival ch i m (step (posts m) t').0 × ((step (posts m) t').1 ≡ post ch m ∷ [])
unfolding step on_discovery pair_with_leader post_message
starts-Stranded id rival i m t c f w d l k n e =
    ground (arith, text_beq_iff id rival, text_beq_iff rival rival, Map.get-set i i m t.in_flight)

-- A leading tab that hears another leader's announcement late, when that leader is gone, is cut off from the
-- writer that it hosts. The request that its page posts next goes to a channel of the gone leader and is
-- still in flight after any further events; the tab still hosts the writer, posts to that channel, and
-- waits for the gone leader's acknowledgement. The events have none from the gone leader or its channel, no
-- other announcement, no failure of the writer, no new grant of the lock and no close, and no request
-- under the same id.
pub run-strands :
    (id rival : Text) (i : ℕ) (m : Message) (es : List Event) (t : Tab)
    → t.closed ≡ false
    → t.failed ≡ false
    → t.writer ≡ true
    → t.discovering ≡ true
    → t.leader_id ≡ some id
    → t.current_leader ≡ some id
    → rival ≢ id
    → envelope_id m ≡ some i
    → All (IsQuiet rival) es
    → SparesAll i es
    → let ch = next_channel (pair_channel_name rival t.client_id) t in
      let t' = (step (discovery_hears (leader_elected rival)) t).0 in
      ((step (posts m) t').1 ≡ post ch m ∷ []) × Stranded rival ch i m (run (posts m ∷ es) t').0
unfolding run
run-strands id rival i m es t c f w d l k n e q s =
    let ch = next_channel (pair_channel_name rival t.client_id) t in
    let t' = (step (discovery_hears (leader_elected rival)) t).0 in
    let (stuck, sent) = starts-Stranded id rival i m t c f w d l k n e in
    (sent, run-Stranded rival ch i m es (step (posts m) t').0 q s stuck)
