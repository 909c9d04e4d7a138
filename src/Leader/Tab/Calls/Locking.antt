-- ===== src/Leader/Tab/Calls/Locking.antt =====
-- The calls to the lock manager of a grant, a close and a failure of the writer.
use opfs_webauthn.Map
use opfs_webauthn.Leader.Registry.{dispose_each}
use opfs_webauthn.Leader.Tab.Calls.Defs.{aborts, asks, lock_calls, lock_calls-append, releases}
use opfs_webauthn.Leader.Tab.Calls.Messages.{
  Still, lock_calls-dispose_each, lock_calls-fail_each, lock_calls-fail_in_flight,
  lock_calls-post_each,
}
use opfs_webauthn.Leader.Tab.Events.{step, writer_errs}
use opfs_webauthn.Leader.Tab.Failure.{
  counted, failing, handle_writer_failure-other, handle_writer_failure-out, is_spent, let_go,
  restart-again, restart-spent, same_text-some,
}
use opfs_webauthn.Leader.Tab.Invariant.{TabInv}
use opfs_webauthn.Leader.Tab.Leading.{
  become_leader, close_tab, fail_for_good, give_up_leadership, handle_writer_failure, on_granted,
  request_the_lock, restart_lock_request, take_over,
}
use opfs_webauthn.Leader.Tab.Pairing.{same_text}
use opfs_webauthn.Leader.Tab.State.{
  Act, Tab, attach_pair, clear_pending_pair, mark_ready, new_channel, next_channel,
  replay_in_flight,
}
use opfs_webauthn.Leader.Wire.{Channel, Effect, close_writer, pair_channel_name, release_lock}
use opfs_webauthn.Map.{Map}
use opfs_webauthn.Prelude.{
  Bool, Bool-cases, List, Text, [], ap, arith, false, if_true, if◌then◌else◌, inl, inr, is_some,
  nat_eq, not, refl, some, text_eq, true, ℕ, ◌&&◌, ◌++◌, ◌+◌, ◌∙◌, ◌∷◌, ◌≡◌, ◌⊎◌,
}

abbrev Silent : Act → Type 0
Silent m = (t : Tab) → lock_calls (m t).1 ≡ []

Silent-replay_in_flight : (ch : Channel) → Silent (replay_in_flight ch)
unfolding replay_in_flight
Silent-replay_in_flight ch t = lock_calls-post_each ch (Map.values t.in_flight)

Silent-clear : Silent clear_pending_pair
unfolding clear_pending_pair
Silent-clear t = ground arith

Silent-new_channel : (name : Text) → Silent (new_channel name)
unfolding new_channel
Silent-new_channel name t = refl

Silent-attach_pair : (ch : Channel) → Silent (attach_pair ch)
unfolding attach_pair
Silent-attach_pair ch t = ground arith

Silent-mark_ready : Silent mark_ready
unfolding mark_ready
Silent-mark_ready t = ground arith

ruleset silent = (
  lock_calls-append, Silent-clear, Silent-new_channel, Silent-attach_pair, Silent-mark_ready,
  Silent-replay_in_flight,
)

Silent-take_over : (id : Text) (a b : Channel) → Silent (take_over id a b)
unfolding take_over
Silent-take_over id a b t = simp silent

lock_calls-if :
    (b : Bool) (x y : Tab × List Effect)
    → lock_calls x.1 ≡ []
    → lock_calls y.1 ≡ []
    → lock_calls (if b then x else y).1 ≡ []
lock_calls-if true x y h k = h
lock_calls-if false x y h k = k

become_leader-calls : (id : Text) (t : Tab) → lock_calls (become_leader id t).1 ≡ []
unfolding become_leader
become_leader-calls id t =
    let a : Channel = next_channel (pair_channel_name id t.client_id) t in
    let b : Channel = record a { serial = t.next_serial + 1 } in
    lock_calls-if t.closed (t, []) (take_over id a b t) refl (Silent-take_over id a b t)

-- A tab that takes the lock makes no call; a closed one gives it back.
pub on_granted-calls :
    (id : Text) (t : Tab)
    → lock_calls (on_granted id t).1 ≡ (if t.closed then releases ∷ [] else [])
unfolding on_granted
on_granted-calls id t = ground (arith, become_leader-calls id (record t { resolve_lock = true }))

-- A transport that closes aborts its lock request if one is pending and gives the lock back if it has
-- it; one that is closed already does neither.
pub close_tab-calls :
    (t : Tab)
    → lock_calls (close_tab t).1 ≡ (
        if t.closed
        then []
        else (if is_some t.lock_abort then aborts ∷ [] else [])
          ++ (if t.resolve_lock then releases ∷ [] else []))
unfolding close_tab
close_tab-calls t =
    let gone : List Effect = dispose_each t.registry.bridges in
    let tail : List Effect =
      (if t.writer then close_writer ∷ [] else [])
      ++ (if t.resolve_lock then release_lock ∷ [] else []) in
    ground (
      arith,
      lock_calls-dispose_each t.registry.bridges,
      lock_calls-append gone tail,
      lock_calls-append (gone ++ tail) [],
    )

fail_for_good-calls : (t : Tab) → lock_calls (fail_for_good t).1 ≡ []
unfolding fail_for_good
fail_for_good-calls t = simp (lock_calls-append, lock_calls-fail_in_flight) (ground arith)

restart-calls :
    (now : ℕ) (t : Tab)
    → t.closed ≡ false
    → lock_calls (restart_lock_request now t).1 ≡ (if is_spent now t then [] else asks ∷ [])
unfolding request_the_lock
restart-calls now t c = elim (Bool-cases (is_spent now t)) [
  | inl s ↦
      ap (λ r. lock_calls r.1) (restart-spent now t c s)
      ∙ ground (arith, fail_for_good-calls (counted now t))
  | inr s ↦ ap (λ r. lock_calls r.1) (restart-again now t c s) ∙ ground arith
]

give_up_leadership-calls :
    (t : Tab) → lock_calls (give_up_leadership t).1 ≡ (if t.resolve_lock then releases ∷ [] else [])
unfolding give_up_leadership
give_up_leadership-calls t = simp (lock_calls-append, lock_calls-dispose_each) (ground arith)

-- A tab whose writer fails gives the lock back, and then asks for it again unless that was the third
-- failure within the window.
pub handle_writer_failure-calls :
    (id : Text) (now : ℕ) (t : Tab)
    → t.closed ≡ false
    → t.leader_id ≡ some id
    → t.resolve_lock ≡ true
    → lock_calls (handle_writer_failure id now t).1
      ≡ releases ∷ (if is_spent now t then [] else asks ∷ [])
unfolding let_go
handle_writer_failure-calls id now t c l r =
    ap lock_calls (handle_writer_failure-out id now t c l)
    ∙ simp (lock_calls-append, lock_calls-fail_each)
        (ground (arith, give_up_leadership-calls (failing t), restart-calls now (let_go t)))

-- A failure of the writer concerns its own leader alone.
pub writer_errs-cases :
    (id : Text) (now : ℕ) (t : Tab)
    → TabInv t
    → Still t (step (writer_errs id now) t)
      ⊎ ((t.leader_id ≡ some id)
          × (t.closed ≡ false)
          × (t.failed ≡ false)
          × (step (writer_errs id now) t ≡ handle_writer_failure id now t))
unfolding step
writer_errs-cases id now t v = elim (Bool-cases t.writer_watched) [
  | inr w ↦ inl (ground arith)
  | inl w ↦ elim (Bool-cases (not t.closed && same_text t.leader_id id)) [
    | inr h ↦ inl (ground (arith, handle_writer_failure-other id now t h))
    | inl h ↦
        let leads = same_text-some t.leader_id id (ground arith) in
        inr (leads, ground arith, ground arith, ground arith)
  ]
]

-- Closing twice is closing once.
pub close_tab-closed : (t : Tab) → t.closed ≡ true → close_tab t ≡ (t, [])
unfolding close_tab
close_tab-closed t c = if_true t.closed (t, []) _ c

pub close_tab-after :
    (t : Tab)
    → t.closed ≡ false
    → let t' = (close_tab t).0 in (t'.closed ≡ true) × (t'.resolve_lock ≡ false)
unfolding close_tab
close_tab-after t c = ground arith
