-- ===== src/Leader/Tab/Runs.antt =====
-- What holds of a tab after any events.
use opfs_webauthn.Map
use opfs_webauthn.Leader.Registry.{Registry, client_says}
use opfs_webauthn.Leader.Tab.Events.{
  Event, bridge_hears, closes, create, discovery_hears, granted, lock_settles, pair_hears, posts,
  step, timer_fires, writer_emits, writer_errs,
}
use opfs_webauthn.Leader.Tab.Failure.{handle_writer_failure-TabInv}
use opfs_webauthn.Leader.Tab.Invariant.{
  TabInv, close_tab-TabInv, on_discovery-TabInv, on_granted-TabInv, on_lock_settled-TabInv,
  on_pair_message-TabInv, on_timer-TabInv, post_message-TabInv,
}
use opfs_webauthn.Leader.Tab.Leading.{on_granted}
use opfs_webauthn.Leader.Tab.State.{Tab}
use opfs_webauthn.Leader.Wire.{Effect, release_lock}
use opfs_webauthn.Map.{Map}
use opfs_webauthn.Prelude.{
  Bool-cases, List, Text, [], arith, false, if_true, inl, inr, is_some, nat_eq, subst, sym, text_eq,
  true, ◌++◌, ◌∷◌, ◌≡◌, ◌⊎◌,
}
use opfs_webauthn.Rpc.Protocol.{Message}

-- The lock is granted to a tab that has a request queued: a closed one may still have, and one that
-- failed for good has none.
abbrev pub IsGrantable : Event → Tab → Type 0
IsGrantable (granted id) t = (t.closed ≡ true) ⊎ (t.failed ≡ false)
IsGrantable (posts m) t = Unit {0}
IsGrantable _ t = Unit

pub on_granted-closed :
    (id : Text) (t : Tab) → t.closed ≡ true → on_granted id t ≡ (t, release_lock ∷ [])
unfolding on_granted
on_granted-closed id t c = if_true t.closed _ _ c

client_says-nobody :
    (k : Text) (m : Message) (r : Registry) → r.bridges ≡ [] → (client_says k m r).0.bridges ≡ []
unfolding client_says Map.get
client_says-nobody k m r e = ground arith

-- Every event keeps the invariant of a tab, the failures of its writer included, if the lock is only
-- granted to a tab that is closed or has not failed for good.
pub step-TabInv : (e : Event) (t : Tab) → IsGrantable e t → TabInv t → TabInv (step e t).0
unfolding step
step-TabInv (posts m) t g v = post_message-TabInv m t v
step-TabInv (pair_hears m) t g v = elim (Bool-cases (is_some t.pair_channel)) [
  | inl h ↦ ground (arith, on_pair_message-TabInv m t h v)
  | inr h ↦ ground arith
]
step-TabInv (bridge_hears client m) t g v = ground (arith, client_says-nobody client m t.registry)
step-TabInv (writer_emits m) t g v = ground arith
step-TabInv (writer_errs leader now) t g v =
    ground (arith, handle_writer_failure-TabInv leader now t v)
step-TabInv (discovery_hears m) t g v = ground (arith, on_discovery-TabInv m t)
step-TabInv (timer_fires leader name) t g v = on_timer-TabInv leader name t v
step-TabInv (granted id) t (inl c) v = subst (λ r. TabInv r.0) (sym (on_granted-closed id t c)) v
step-TabInv (granted id) t (inr f) v = on_granted-TabInv id t f v
step-TabInv (lock_settles n r) t g v = on_lock_settled-TabInv n r t v
step-TabInv closes t g v = close_tab-TabInv t v

pub create-TabInv : (client_id : Text) → TabInv (create client_id).0
unfolding create
create-TabInv client_id = ground arith

unfoldable pub run : List Event → Tab → Tab × List Effect
unfolding step
run [] t = (t, [])
run (e ∷ es) t = let (t', out) = step e t in let (t'', rest) = run es t' in (t'', out ++ rest)

-- Each grant in the course of the events is one that `IsGrantable` allows.
abbrev pub Granted : List Event → Tab → Type 0
Granted [] t = Unit
Granted (e ∷ es) t = IsGrantable e t × Granted es (step e t).0

run-TabInv : (es : List Event) (t : Tab) → Granted es t → TabInv t → TabInv (run es t).0
unfolding run
run-TabInv [] t g v = v
run-TabInv (e ∷ es) t g v = run-TabInv es (step e t).0 g.1 (step-TabInv e t g.0 v)

-- `TabInv` holds of a new transport after any events, in any order, in which the lock is granted only
-- to a transport that is closed or has not failed for good: only a leader has bridges, a tab that waits
-- for an acknowledgement has its pair channel open, and a closed or failed transport has let go of
-- everything.
pub run-create-TabInv :
    (client_id : Text) (es : List Event)
    → Granted es (create client_id).0
    → TabInv (run es (create client_id).0).0
run-create-TabInv client_id es g = run-TabInv es (create client_id).0 g (create-TabInv client_id)
