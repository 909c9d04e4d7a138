-- ===== src/Leader/Tab/Lasting.antt =====
-- packages/storage/src/leader.ts, `inFlight` of `createLeaderTransport`: a request over many events.
use opfs_webauthn.Map
use opfs_webauthn.Leader.Tab.Events.{
  Event, bridge_hears, closes, discovery_hears, granted, lock_settles, pair_hears, posts, step,
  timer_fires, writer_emits, writer_errs,
}
use opfs_webauthn.Leader.Tab.Keeping.{
  Delivered, Delivered-append_left, Delivered-append_right, Spares, step-in_flight,
}
use opfs_webauthn.Leader.Tab.Leading.{close_tab, handle_writer_failure, on_granted, on_lock_settled}
use opfs_webauthn.Leader.Tab.Pairing.{on_discovery, on_pair_message, on_timer, post_message}
use opfs_webauthn.Leader.Tab.Runs.{run}
use opfs_webauthn.Leader.Tab.State.{Tab}
use opfs_webauthn.Map.{Map}
use opfs_webauthn.Prelude.{List, [], arith, inl, inr, nat_eq, some, text_eq, true, ℕ, ◌∷◌, ◌≡◌, ◌⊎◌}
use opfs_webauthn.Rpc.Protocol.{Message}

-- A closed transport stays closed.
step-closed : (e : Event) (t : Tab) → t.closed ≡ true → (step e t).0.closed ≡ true
unfolding step post_message on_pair_message on_discovery on_timer on_granted on_lock_settled
    close_tab handle_writer_failure
step-closed (posts m) t c = ground arith
step-closed (pair_hears m) t c = ground arith
step-closed (bridge_hears client m) t c = ground arith
step-closed (writer_emits m) t c = ground arith
step-closed (writer_errs leader now) t c = ground arith
step-closed (discovery_hears m) t c = ground arith
step-closed (timer_fires leader name) t c = ground arith
step-closed (granted id) t c = ground arith
step-closed (lock_settles n r) t c = ground arith
step-closed closes t c = ground arith

run-closed : (es : List Event) (t : Tab) → t.closed ≡ true → (run es t).0.closed ≡ true
unfolding run
run-closed [] t c = c
run-closed (e ∷ es) t c = run-closed es (step e t).0 (step-closed e t c)

-- None of the events is a new request under the id.
abbrev pub SparesAll : ℕ → List Event → Type 0
SparesAll id [] = Unit {0}
SparesAll id (e ∷ es) = Spares id e × SparesAll id es

-- Whatever happens to a transport, and in any order: a request that is in flight, and whose id is not used
-- again, is still in flight in the end, or its final answer has been delivered to the page, or the
-- transport has been closed.
pub run-in_flight :
    (es : List Event) (t : Tab) (id : ℕ) (m : Message)
    → SparesAll id es
    → Map.get id t.in_flight ≡ some m
    → let (t', out) = run es t in
      (Map.get id t'.in_flight ≡ some m) ⊎ (t'.closed ≡ true) ⊎ Delivered id out
unfolding run
run-in_flight [] t id m s e = inl e
run-in_flight (x ∷ es) t id m s e = elim (step-in_flight x t id m s.0 e) [
  | inl kept ↦ elim (run-in_flight es (step x t).0 id m s.1 kept) [
    | inl h ↦ inl h
    | inr (inl h) ↦ inr (inl h)
    | inr (inr h) ↦ inr (inr (Delivered-append_right id (step x t).1 (run es (step x t).0).1 h))
  ]
  | inr (inl shut) ↦ inr (inl (run-closed es (step x t).0 shut))
  | inr (inr done) ↦ inr (inr (Delivered-append_left id (step x t).1 (run es (step x t).0).1 done))
]
