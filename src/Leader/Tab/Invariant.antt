-- ===== src/Leader/Tab/Invariant.antt =====
-- What holds of a tab between two events.
use opfs_webauthn.Leader.Tab.Leading.{close_tab, on_granted, on_lock_settled}
use opfs_webauthn.Leader.Tab.Pairing.{
  on_discovery, on_pair_message, on_timer, pair_with_leader, post_message,
}
use opfs_webauthn.Leader.Tab.State.{Tab}
use opfs_webauthn.Leader.Wire.{
  LeaderMessage, leader_elected, leader_failed, leader_query, pair_ack, pair_request,
}
use opfs_webauthn.Prelude.{Option, Text, [], arith, false, is_some, none, true, ℕ, ◌||◌, ◌≡◌}
use opfs_webauthn.Rpc.Protocol.{Message}

pub record TabInv (t : Tab) : Type 0 where
  -- A tab hosts the writer exactly while it leads and holds the lock, and watches its errors then.
  pub hosting : t.writer ≡ is_some t.leader_id
  pub locked : t.resolve_lock ≡ t.writer
  pub watched : t.writer_watched ≡ t.writer
  -- Only a leader has bridges.
  pub bridged : t.writer ≡ false → t.registry.bridges ≡ []
  -- A tab that waits for an acknowledgement has its end of the pair channel open.
  pub waiting : is_some t.pending_pair ≡ true → is_some t.pair_channel ≡ true
  -- A closed or failed transport has let go of everything.
  pub stopped :
      (t.closed || t.failed) ≡ true
      → (t.pair_channel ≡ none)
        × (t.pending_pair ≡ none)
        × (t.leader_id ≡ none)
        × (t.in_flight ≡ [])
        × (t.discovering ≡ false)
  pub settled : t.closed ≡ true → (t.ready_settled ≡ true) × (t.lock_abort ≡ none)

pub post_message-TabInv : (m : Message) (t : Tab) → TabInv t → TabInv (post_message m t).0
unfolding post_message
post_message-TabInv m t v = ground arith

pub on_pair_message-TabInv :
    (m : Message) (t : Tab)
    → is_some t.pair_channel ≡ true
    → TabInv t
    → TabInv (on_pair_message m t).0
unfolding on_pair_message
on_pair_message-TabInv m t h v = ground arith

pair_with_leader-TabInv :
    (id : Text) (t : Tab) → t.discovering ≡ true → TabInv t → TabInv (pair_with_leader id t).0
unfolding pair_with_leader
pair_with_leader-TabInv id t d v = ground arith

pub on_discovery-TabInv :
    (m : LeaderMessage) (t : Tab) → t.discovering ≡ true → TabInv t → TabInv (on_discovery m t).0
unfolding on_discovery
on_discovery-TabInv (leader_elected id) t d v = ground (arith, pair_with_leader-TabInv id t d v)
on_discovery-TabInv (pair_request leader client name) t d v = ground arith
on_discovery-TabInv (pair_ack leader client) t d v = ground arith
on_discovery-TabInv (leader_failed leader s) t d v = ground arith
on_discovery-TabInv leader_query t d v = ground arith

pub on_timer-TabInv : (leader name : Text) (t : Tab) → TabInv t → TabInv (on_timer leader name t).0
unfolding on_timer
on_timer-TabInv leader name t v = ground arith

pub on_granted-TabInv :
    (id : Text) (t : Tab) → t.failed ≡ false → TabInv t → TabInv (on_granted id t).0
unfolding on_granted
on_granted-TabInv id t f v = ground arith

pub on_lock_settled-TabInv :
    (n : ℕ) (r : Option Text) (t : Tab) → TabInv t → TabInv (on_lock_settled n r t).0
unfolding on_lock_settled
on_lock_settled-TabInv n r t v = ground arith

pub close_tab-TabInv : (t : Tab) → TabInv t → TabInv (close_tab t).0
unfolding close_tab
close_tab-TabInv t v = ground arith
