-- ===== src/Leader/Tab/Failure.antt =====
-- A failure of the writer: what it does to the tab that hosts it, and the restart budget.
use opfs_webauthn.Map
use opfs_webauthn.Leader.Registry.{fail_each}
use opfs_webauthn.Leader.Tab.Invariant.{TabInv}
use opfs_webauthn.Leader.Tab.Leading.{
  fail_for_good, fail_in_flight, give_up_leadership, handle_writer_failure, max_failures, purge,
  request_the_lock, restart_lock_request, writer_failed,
}
use opfs_webauthn.Leader.Tab.Pairing.{same_text}
use opfs_webauthn.Leader.Tab.State.{Tab}
use opfs_webauthn.Leader.Wire.{announce, deliver_error, leader_failed}
use opfs_webauthn.Map.{Map, tally, tally-delete}
use opfs_webauthn.Prelude.{
  Bool, Bool-cases, List, Option, Text, [], ap, arith, false, if_false, if_true, inl, inr, leb,
  length, nat_eq, none, not, refl, some, subst, sym, text_beq_iff, text_eq, true, ℕ, ◌&&◌, ◌++◌,
  ◌==◌, ◌||◌, ◌∙◌, ◌∷◌, ◌≡◌, ◌≤◌,
}
use opfs_webauthn.Rpc.Protocol.{Message}

-- What the loop over the requests in flight leaves.
drop_all : List ℕ → Map ℕ Message → Map ℕ Message
drop_all [] m = m
drop_all (id ∷ ids) m = drop_all ids (Map.delete id m)

has : ℕ → List ℕ → Bool
has k [] = false
has k (j ∷ js) = j == k || has k js

has-keys : (k : ℕ) (m : Map ℕ Message) → 1 ≤ tally k m → has k (Map.keys m) ≡ true
unfolding has tally
has-keys k [] h = absurd (omega arith)
has-keys k ((j, x) ∷ m) h = ground (arith, has-keys k m)

drop_all-empty :
    (ids : List ℕ) (m : Map ℕ Message)
    → ((k : ℕ) → 1 ≤ tally k m → has k ids ≡ true)
    → drop_all ids m ≡ []
unfolding drop_all has tally
drop_all-empty [] [] h = refl
drop_all-empty [] ((j, x) ∷ m) h = absurd (ground (arith, h j))
drop_all-empty (id ∷ ids) m h =
    drop_all-empty ids (Map.delete id m) (λ k l. ground (arith, h k, tally-delete id k m))

-- It changes nothing else.
fail_in_flight-tab :
    (ids : List ℕ) (t : Tab)
    → (fail_in_flight ids t).0 ≡ record t { in_flight = drop_all ids t.in_flight }
unfolding fail_in_flight drop_all
fail_in_flight-tab [] t = refl
fail_in_flight-tab (id ∷ ids) t =
    fail_in_flight-tab ids (record t { in_flight = Map.delete id t.in_flight })

pub fail_in_flight-all :
    (t : Tab) → (fail_in_flight (Map.keys t.in_flight) t).0 ≡ record t { in_flight = [] }
fail_in_flight-all t =
    fail_in_flight-tab (Map.keys t.in_flight) t
    ∙ ap (λ m. record t { in_flight = m })
        (drop_all-empty (Map.keys t.in_flight) t.in_flight (λ k h. has-keys k t.in_flight h))

fail_for_good-TabInv : (t : Tab) → t.leader_id ≡ none → TabInv t → TabInv (fail_for_good t).0
unfolding fail_for_good
fail_for_good-TabInv t l v = ground (arith, fail_in_flight-all (record t { failed = true }))

-- The tab between `giveUpLeadership` and the restart.
unfoldable pub let_go : Tab → Tab
let_go t = record t {
  writer_watched = false;
  registry = record t.registry { bridges = [] };
  writer = false;
  leader_id = none;
  resolve_lock = false;
  current_leader = none;
}

pub handle_writer_failure-tab :
    (id : Text) (now : ℕ) (t : Tab)
    → t.closed ≡ false
    → t.leader_id ≡ some id
    → (handle_writer_failure id now t).0 ≡ (restart_lock_request now (let_go t)).0
unfolding handle_writer_failure let_go
handle_writer_failure-tab id now t c l =
    let e : (not t.closed && same_text t.leader_id id) ≡ true =
      ground (arith, text_beq_iff id id) in
    rw (e, handle_writer_failure) refl

-- The bridges after their errors.
abbrev pub failing : Tab → Tab
failing t = record t {
  registry = record t.registry { bridges = (fail_each writer_failed t.registry.bridges).0 };
}

pub handle_writer_failure-out :
    (id : Text) (now : ℕ) (t : Tab)
    → t.closed ≡ false
    → t.leader_id ≡ some id
    → (handle_writer_failure id now t).1
      ≡ (fail_each writer_failed t.registry.bridges).1
        ++ (announce (leader_failed id writer_failed)
            ∷ deliver_error
            ∷ ((give_up_leadership (failing t)).1 ++ (restart_lock_request now (let_go t)).1))
unfolding handle_writer_failure let_go
handle_writer_failure-out id now t c l =
    let e : (not t.closed && same_text t.leader_id id) ≡ true =
      ground (arith, text_beq_iff id id) in
    rw (e, handle_writer_failure) refl

pub handle_writer_failure-other :
    (id : Text) (now : ℕ) (t : Tab)
    → (not t.closed && same_text t.leader_id id) ≡ false
    → handle_writer_failure id now t ≡ (t, [])
unfolding handle_writer_failure
handle_writer_failure-other id now t e = rw (e, handle_writer_failure) refl

let_go-TabInv : (t : Tab) → TabInv t → TabInv (let_go t)
unfolding let_go
let_go-TabInv t v = ground arith

abbrev pub counted : ℕ → Tab → Tab
counted now t = record t { failures = purge now t.failures ++ (now ∷ []) }

-- The third failure within the window.
abbrev pub is_spent : ℕ → Tab → Bool
is_spent now t = leb max_failures (length (counted now t).failures)

pub restart-spent :
    (now : ℕ) (t : Tab)
    → t.closed ≡ false
    → is_spent now t ≡ true
    → restart_lock_request now t ≡ fail_for_good (counted now t)
unfolding restart_lock_request
restart-spent now t c s =
    if_false t.closed _ _ c ∙ if_true (is_spent now t) _ (request_the_lock (counted now t)) s

pub restart-again :
    (now : ℕ) (t : Tab)
    → t.closed ≡ false
    → is_spent now t ≡ false
    → restart_lock_request now t ≡ request_the_lock (counted now t)
unfolding restart_lock_request
restart-again now t c s =
    if_false t.closed _ _ c ∙ if_false (is_spent now t) (fail_for_good (counted now t)) _ s

pub fail_for_good-tab :
    (t : Tab)
    → (fail_for_good t).0 ≡ record t {
      failed = true;
      in_flight = [];
      pair_channel = none;
      current_leader = none;
      pending_pair = none;
      discovering = false;
    }
unfolding fail_for_good
fail_for_good-tab t = ground (arith, fail_in_flight-all (record t { failed = true }))

restart-TabInv :
    (now : ℕ) (t : Tab) → t.leader_id ≡ none → TabInv t → TabInv (restart_lock_request now t).0
unfolding restart_lock_request
restart-TabInv now t l v = ground (arith, fail_for_good-TabInv (counted now t) l)

pub same_text-some : (r : Option Text) (s : Text) → same_text r s ≡ true → r ≡ some s
unfolding same_text
same_text-some none s h = cc
same_text-some (some r) s h = ap some ((text_beq_iff r s).0 h)

pub handle_writer_failure-TabInv :
    (id : Text) (now : ℕ) (t : Tab) → TabInv t → TabInv (handle_writer_failure id now t).0
unfolding let_go
handle_writer_failure-TabInv id now t v =
    elim (Bool-cases (not t.closed && same_text t.leader_id id)) [
      | inl h ↦
          subst TabInv
            (sym (
              handle_writer_failure-tab id now t (ground arith)
                (same_text-some t.leader_id id (ground arith))))
            (restart-TabInv now (let_go t) refl (let_go-TabInv t v))
      | inr h ↦ subst (λ r. TabInv r.0) (sym (handle_writer_failure-other id now t h)) v
    ]

-- A tab whose writer fails stops leading and gives up the lock. It fails for good exactly if that was
-- the third failure within the window.
pub handle_writer_failure-after :
    (id : Text) (now : ℕ) (t : Tab)
    → t.closed ≡ false
    → t.failed ≡ false
    → t.leader_id ≡ some id
    → let t' = (handle_writer_failure id now t).0 in
      (t'.resolve_lock ≡ false)
      × (t'.leader_id ≡ none)
      × (t'.writer ≡ false)
      × (t'.current_leader ≡ none)
      × (t'.closed ≡ false)
      × (t'.failed ≡ is_spent now t)
unfolding let_go request_the_lock
handle_writer_failure-after id now t c f l = elim (Bool-cases (is_spent now t)) [
  | inl s ↦ ground (
    arith,
    handle_writer_failure-tab id now t c l,
    restart-spent now (let_go t) c s,
    fail_for_good-tab (counted now (let_go t)),
  )
  | inr s ↦ ground (arith, handle_writer_failure-tab id now t c l, restart-again now (let_go t) c s)
]
