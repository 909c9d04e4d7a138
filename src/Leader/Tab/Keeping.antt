-- ===== src/Leader/Tab/Keeping.antt =====
-- packages/storage/src/leader.ts, `inFlight` of `createLeaderTransport`: what takes a request out.
use opfs_webauthn.Map
use opfs_webauthn.Leader.Registry.{fail_each}
use opfs_webauthn.Leader.Tab.Calls.Locking.{close_tab-after, close_tab-closed}
use opfs_webauthn.Leader.Tab.Events.{
  Event, bridge_hears, closes, discovery_hears, granted, lock_settles, pair_hears, posts, step,
  timer_fires, writer_emits, writer_errs,
}
use opfs_webauthn.Leader.Tab.Failure.{
  counted, failing, handle_writer_failure-other, handle_writer_failure-out,
  handle_writer_failure-tab, is_spent, let_go, restart-again, restart-spent, same_text-some,
}
use opfs_webauthn.Leader.Tab.Leading.{
  fail_for_good, fail_in_flight, give_up_leadership, handle_writer_failure, on_granted,
  request_the_lock, writer_failed,
}
use opfs_webauthn.Leader.Tab.Pairing.{on_discovery, on_pair_message, same_text}
use opfs_webauthn.Leader.Tab.Replay.{become_leader-replay}
use opfs_webauthn.Leader.Tab.Runs.{on_granted-closed}
use opfs_webauthn.Leader.Tab.State.{Tab}
use opfs_webauthn.Leader.Wire.{
  Effect, LeaderMessage, deliver, leader_elected, leader_failed, leader_query, pair_ack,
  pair_request,
}
use opfs_webauthn.Map.{Map}
use opfs_webauthn.Prelude.{
  ==_iff, Bool-cases, List, Option-cases, Text, [], ap, arith, false, if_false, if_true, inl, inr,
  is_some, nat_eq, not, refl, some, subst, sym, text_eq, true, ℕ, ◌&&◌, ◌++◌, ◌==◌, ◌∙◌, ◌∷◌, ◌≡◌,
  ◌≢◌, ◌⊎◌,
}
use opfs_webauthn.Rpc.Protocol.{Message, envelope_id, is_final}

-- The effects deliver a final answer, a response or an error, to the request `id`.
abbrev pub Delivered : ℕ → List Effect → Type 0
Delivered id [] = ⊥
Delivered id (deliver m ∷ out) =
    ((envelope_id m ≡ some id) × (is_final m ≡ true)) ⊎ Delivered id out
Delivered id (_ ∷ out) = Delivered id out

pub Delivered-append_left :
    (id : ℕ) (xs ys : List Effect) → Delivered id xs → Delivered id (xs ++ ys)
Delivered-append_left id [] ys h = absurd h
Delivered-append_left id (deliver m ∷ xs) ys (inl h) = inl h
Delivered-append_left id (deliver m ∷ xs) ys (inr h) = inr (Delivered-append_left id xs ys h)
Delivered-append_left id (_ ∷ xs) ys h = Delivered-append_left id xs ys h

pub Delivered-append_right :
    (id : ℕ) (xs ys : List Effect) → Delivered id ys → Delivered id (xs ++ ys)
Delivered-append_right id [] ys h = h
Delivered-append_right id (deliver m ∷ xs) ys h = inr (Delivered-append_right id xs ys h)
Delivered-append_right id (_ ∷ xs) ys h = Delivered-append_right id xs ys h

Delivered-fail_in_flight :
    (id : ℕ) (m : Message) (ms : Map ℕ Message) (t : Tab)
    → Map.get id ms ≡ some m
    → Delivered id (fail_in_flight (Map.keys ms) t).1
unfolding fail_in_flight Map.get envelope_id is_final
Delivered-fail_in_flight id m [] t e = cc
Delivered-fail_in_flight id m ((j, x) ∷ ms) t e = elim (Bool-cases (j == id)) [
  | inl h ↦ inl (ap some ((==_iff j id).0 h), refl)
  | inr h ↦ inr (Delivered-fail_in_flight id m ms _ (ground arith))
]

Delivered-fail_for_good :
    (id : ℕ) (m : Message) (t : Tab)
    → Map.get id t.in_flight ≡ some m
    → Delivered id (fail_for_good t).1
unfolding fail_for_good
Delivered-fail_for_good id m t e =
    Delivered-append_left id (fail_in_flight (Map.keys t.in_flight) (record t { failed = true })).1
      _ (Delivered-fail_in_flight id m t.in_flight _ e)

on_discovery-in_flight :
    (m : LeaderMessage) (t : Tab) → (on_discovery m t).0.in_flight ≡ t.in_flight
unfolding on_discovery
on_discovery-in_flight (leader_elected id) t = ground arith
on_discovery-in_flight (pair_request leader client name) t = ground arith
on_discovery-in_flight (pair_ack leader client) t = ground arith
on_discovery-in_flight (leader_failed leader s) t = ground arith
on_discovery-in_flight leader_query t = ground arith

-- What is left of a request in flight after the effects.
abbrev Settled : ℕ → Message → Tab × List Effect → Type 0
Settled id m r = (Map.get id r.0.in_flight ≡ some m) ⊎ (r.0.closed ≡ true) ⊎ Delivered id r.1

pair_hears-in_flight :
    (n : Message) (t : Tab) (id : ℕ) (m : Message)
    → Map.get id t.in_flight ≡ some m
    → Settled id m (on_pair_message n t)
unfolding on_pair_message
pair_hears-in_flight n t id m e = elim (Option-cases (envelope_id n)) [
  | inl f ↦ inl (ground arith)
  | inr (j, f) ↦ elim (Bool-cases (is_final n && j == id)) [
    | inl h ↦ inr (inr (inl (ground (arith, ==_iff j id), ground arith)))
    | inr h ↦ inl (ground (arith, Map.get-delete j id t.in_flight))
  ]
]

request-in_flight : (t : Tab) → (request_the_lock t).0.in_flight ≡ t.in_flight
unfolding request_the_lock
request-in_flight t = ground arith

failure-in_flight :
    (leader : Text) (now : ℕ) (t : Tab) (id : ℕ) (m : Message)
    → t.closed ≡ false
    → t.leader_id ≡ some leader
    → Map.get id t.in_flight ≡ some m
    → Settled id m (handle_writer_failure leader now t)
unfolding let_go
failure-in_flight leader now t id m c l e =
    let tab = handle_writer_failure-tab leader now t c l in
    let out = handle_writer_failure-out leader now t c l in
    elim (Bool-cases (is_spent now t)) [
      | inl s ↦
          let failed = restart-spent now (let_go t) c s in
          inr (
            inr (
              subst (Delivered id) (sym out) (
                Delivered-append_right id (fail_each writer_failed t.registry.bridges).1 _ (
                  Delivered-append_right id (give_up_leadership (failing t)).1 _ (
                    subst (λ r. Delivered id r.1) (sym failed)
                      (Delivered-fail_for_good id m (counted now (let_go t)) e))))))
      | inr s ↦
          let again = restart-again now (let_go t) c s in
          inl (
            subst (λ u. Map.get id u.in_flight ≡ some m) (sym (tab ∙ ap (λ r. r.0) again))
              (ap (Map.get id) (request-in_flight (counted now (let_go t))) ∙ e))
    ]

on_granted-in_flight :
    (id : Text) (t : Tab) → t.closed ≡ false → (on_granted id t).0.in_flight ≡ t.in_flight
unfolding on_granted
on_granted-in_flight id t c =
    ground (arith, become_leader-replay id (record t { resolve_lock = true }) c)

-- Nothing but a new request under the same id replaces what is in flight.
abbrev pub Spares : ℕ → Event → Type 0
Spares id (posts m) = envelope_id m ≢ some id
Spares id (pair_hears m) = Unit {0}
Spares id _ = Unit

-- A request in flight stays there until its final answer is delivered or the transport is closed.
pub step-in_flight :
    (e : Event) (t : Tab) (id : ℕ) (m : Message)
    → Spares id e
    → Map.get id t.in_flight ≡ some m
    → let (t', out) = step e t in
      (Map.get id t'.in_flight ≡ some m) ⊎ (t'.closed ≡ true) ⊎ Delivered id out
unfolding step
step-in_flight (posts n) t id m s e = elim (Option-cases (envelope_id n)) [
  | inl f ↦ inl (ground arith)
  | inr (j, f) ↦ inl (ground (arith, Map.get-set j id n t.in_flight))
]
step-in_flight (pair_hears n) t id m s e = elim (Bool-cases (is_some t.pair_channel)) [
  | inl h ↦ rw h (pair_hears-in_flight n t id m e)
  | inr h ↦ rw h (inl e)
]
step-in_flight (bridge_hears client n) t id m s e = inl e
step-in_flight (writer_emits n) t id m s e = inl (ground arith)
step-in_flight (writer_errs leader now) t id m s e = elim (Bool-cases t.writer_watched) [
  | inr w ↦ subst (Settled id m) (sym (if_false t.writer_watched _ _ w)) (inl e)
  | inl w ↦
      subst (Settled id m) (sym (if_true t.writer_watched _ (t, []) w))
        (elim (Bool-cases (not t.closed && same_text t.leader_id leader)) [
          | inl h ↦
              failure-in_flight leader now t id m (ground arith)
                (same_text-some t.leader_id leader (ground arith)) e
          | inr h ↦ subst (Settled id m) (sym (handle_writer_failure-other leader now t h)) (inl e)
        ])
]
step-in_flight (discovery_hears n) t id m s e = inl (ground (arith, on_discovery-in_flight n t))
step-in_flight (timer_fires leader name) t id m s e = inl (ground arith)
step-in_flight (granted new_id) t id m s e = elim (Bool-cases t.closed) [
  | inl c ↦ subst (Settled id m) (sym (on_granted-closed new_id t c)) (inl e)
  | inr c ↦ inl (ap (Map.get id) (on_granted-in_flight new_id t c) ∙ e)
]
step-in_flight (lock_settles n r) t id m s e = inl (ground arith)
step-in_flight closes t id m s e = elim (Bool-cases t.closed) [
  | inl c ↦ subst (Settled id m) (sym (close_tab-closed t c)) (inl e)
  | inr c ↦ inr (inl (close_tab-after t c).0)
]
