-- ===== src/Leader/System/Placing.antt =====
-- What holds between a tab and the lock manager, and how a step of the tab keeps it.
use opfs_webauthn.Leader.Registry.Ids.{held}
use opfs_webauthn.Leader.System.Defs.{IsLocal, LockManager, System, apply, make_calls}
use opfs_webauthn.Leader.Tab.{
  Event, Tab, close_tab, closes, granted, handle_writer_failure, on_granted, posts, step,
  writer_errs,
}
use opfs_webauthn.Leader.Tab.Calls.{LockCall, aborts, asks, lock_calls, releases}
use opfs_webauthn.Leader.Tab.Calls.Locking.{
  close_tab-after, close_tab-calls, close_tab-closed, handle_writer_failure-calls, on_granted-calls,
  writer_errs-cases,
}
use opfs_webauthn.Leader.Tab.Calls.Messages.{Still, step-Still}
use opfs_webauthn.Leader.Tab.Failure.{
  handle_writer_failure-TabInv, handle_writer_failure-after, is_spent,
}
use opfs_webauthn.Leader.Tab.Invariant.{TabInv, close_tab-TabInv, on_granted-TabInv}
use opfs_webauthn.Leader.Tab.Runs.{IsGrantable, on_granted-closed, step-TabInv}
use opfs_webauthn.Leader.Wire.{Effect}
use opfs_webauthn.Prelude.{
  ==_iff, Bool-cases, List, Text, [], arith, false, if_false, inl, inr, none, some, subst, sym,
  true, ℕ, ◌==◌, ◌∙◌, ◌∷◌, ◌≡◌, ◌≢◌, ◌≤◌, ◌⊎◌,
}

module _ (L : LockManager) where
  open L use {
    State, Holds, queued, call, Grants, exclusive, asks_holds, aborts_holds, releases_holds,
    asks_queued, aborts_queued, releases_queued, grant_free, grant_holds, grant_queued,
  }

  make_calls-Holds :
      (cs : List LockCall) (i j : ℕ) (l : State) → i ≢ j → Holds l j → Holds (make_calls L cs i l) j
  unfolding make_calls
  make_calls-Holds [] i j l n h = h
  make_calls-Holds (asks ∷ cs) i j l n h = make_calls-Holds cs i j _ n (asks_holds l i j h)
  make_calls-Holds (aborts ∷ cs) i j l n h = make_calls-Holds cs i j _ n (aborts_holds l i j h)
  make_calls-Holds (releases ∷ cs) i j l n h =
      make_calls-Holds cs i j _ n (releases_holds l i j n h)

  make_calls-queued :
      (cs : List LockCall) (i j : ℕ) (l : State)
      → i ≢ j
      → queued (make_calls L cs i l) j ≤ queued l j
  unfolding make_calls
  make_calls-queued [] i j l n = omega arith
  make_calls-queued (asks ∷ cs) i j l n =
      ground (arith, make_calls-queued cs i j (call asks i l) n, asks_queued l i j)
  make_calls-queued (aborts ∷ cs) i j l n =
      ground (arith, make_calls-queued cs i j (call aborts i l) n, aborts_queued l i j)
  make_calls-queued (releases ∷ cs) i j l n =
      ground (arith, make_calls-queued cs i j (call releases i l) n, releases_queued l i j)

  -- A tab that has the lock in hand holds it, and one with a request queued can take it.
  pub record Placed (i : ℕ) (t : Tab) (l : State) : Type 0 where
    pub inv : TabInv t
    pub holding : t.resolve_lock ≡ true → Holds l i
    pub asking : 1 ≤ queued l i → (t.closed ≡ true) ⊎ ((t.failed ≡ false) × (t.leader_id ≡ none))
    pub once : queued l i ≤ 1

  pub record SystemInv (s : System L) : Type 0 where
    pub tab : (i : ℕ) (t : Tab) → s.tabs i ≡ some t → Placed i t s.lock
    pub fresh : (i : ℕ) → s.tabs i ≡ none → queued s.lock i ≡ 0

  -- A step of tab `i`, from what it does to its own tab and to the others.
  pub apply-SystemInv :
      (s : System L) (i : ℕ) (r : Tab × List Effect) (l : State)
      → SystemInv s
      → Placed i r.0 (make_calls L (lock_calls r.1) i l)
      → ((j : ℕ) (t : Tab) → i ≢ j → s.tabs j ≡ some t → t.resolve_lock ≡ true → Holds l j)
      → ((j : ℕ) → i ≢ j → queued l j ≤ queued s.lock j)
      → SystemInv (apply L i r l s.tabs)
  apply-SystemInv s i r l v own held fewer = record {
    tab = λ j t e. elim (Bool-cases (i == j)) [
      | inl h ↦
          let same : i ≡ j = (==_iff i j).0 h in
          let mine : r.0 ≡ t = ground arith in
          subst (λ k. Placed k t l') same (subst (λ x. Placed i x l') mine own)
      | inr h ↦
          let other : i ≢ j = λ p. ground (arith, ==_iff i j) in
          let old : Placed j t s.lock = v.tab j t (ground arith) in
          record {
            inv = old.inv;
            holding = λ k.
                make_calls-Holds (lock_calls r.1) i j l other (held j t other (ground arith) k);
            asking = λ k.
                old.asking
                  (omega (arith, k, fewer j other, make_calls-queued (lock_calls r.1) i j l other));
            once =
                omega
                  (arith, old.once, fewer j other, make_calls-queued (lock_calls r.1) i j l other);
          }
    ];
    fresh = λ j e.
        let other : i ≢ j = λ p. ground (arith, ==_iff i j) in
        omega (
          arith,
          v.fresh j (ground arith),
          fewer j other,
          make_calls-queued (lock_calls r.1) i j l other,
        );
  }
    where
      l' : State
      l' = make_calls L (lock_calls r.1) i l

  local-IsGrantable : (e : Event) (t : Tab) → IsLocal e → IsGrantable e t
  local-IsGrantable (granted id) t g = absurd g
  local-IsGrantable (posts m) t g = tt
  local-IsGrantable _ t g = tt

  -- A step that leaves the lock alone.
  Still-Placed :
      (i : ℕ) (t : Tab) (e : Event) (l : State)
      → Placed i t l
      → IsLocal e
      → Still t (step e t)
      → Placed i (step e t).0 (make_calls L (lock_calls (step e t).1) i l)
  unfolding make_calls
  Still-Placed i t e l o g q =
      subst (λ cs. Placed i (step e t).0 (make_calls L cs i l)) (sym q.calls)
        (record {
          inv = step-TabInv e t (local-IsGrantable e t g) o.inv;
          holding = λ h. o.holding (ground arith);
          asking = λ h. ground (arith, o.asking h);
          once = o.once;
        })

  -- A leader whose writer fails had no request queued, and has at most the new one.
  failure-Placed :
      (i : ℕ) (t : Tab) (id : Text) (now : ℕ) (l : State)
      → Placed i t l
      → t.leader_id ≡ some id
      → t.closed ≡ false
      → t.failed ≡ false
      → let r = handle_writer_failure id now t in Placed i r.0 (make_calls L (lock_calls r.1) i l)
  unfolding make_calls
  failure-Placed i t id now l o leads c f =
      subst (λ cs. Placed i r.0 (make_calls L cs i l))
        (sym (handle_writer_failure-calls id now t c leads (ground arith)))
        (record {
          inv = handle_writer_failure-TabInv id now t o.inv;
          holding = λ h. absurd (ground (arith, after));
          asking = λ h.
              ground
                (arith, after, idle, asks_queued (call releases i l) i i, releases_queued l i i);
          once = ground (arith, idle, asks_queued (call releases i l) i i, releases_queued l i i);
        })
    where
      r : Tab × List Effect
      r = handle_writer_failure id now t

      after :
          (r.0.resolve_lock ≡ false)
          × (r.0.leader_id ≡ none)
          × (r.0.writer ≡ false)
          × (r.0.current_leader ≡ none)
          × (r.0.closed ≡ false)
          × (r.0.failed ≡ is_spent now t)
      after = handle_writer_failure-after id now t c f leads

      idle : queued l i ≡ 0
      idle = ground (arith, o.asking)

  closes-Placed :
      (i : ℕ) (t : Tab) (l : State)
      → Placed i t l
      → Placed i (close_tab t).0 (make_calls L (lock_calls (close_tab t).1) i l)
  unfolding make_calls
  closes-Placed i t l o = elim (Bool-cases t.closed) [
    | inl c ↦
        subst (λ r. Placed i r.0 (make_calls L (lock_calls r.1) i l)) (sym (close_tab-closed t c)) o
    | inr c ↦ record {
      inv = close_tab-TabInv t o.inv;
      holding = λ h. absurd (ground (arith, close_tab-after t c));
      asking = λ h. inl (close_tab-after t c).0;
      once = ground (
        arith,
        close_tab-calls t,
        o.once,
        aborts_queued l i i,
        releases_queued l i i,
        releases_queued (call aborts i l) i i,
      );
    }
  ]

  pub local-Placed :
      (i : ℕ) (t : Tab) (e : Event) (l : State)
      → Placed i t l
      → IsLocal e
      → Placed i (step e t).0 (make_calls L (lock_calls (step e t).1) i l)
  unfolding step
  local-Placed i t (granted id) l o g = absurd g
  local-Placed i t closes l o g = closes-Placed i t l o
  local-Placed i t (writer_errs id now) l o g = elim (writer_errs-cases id now t o.inv) [
    | inl q ↦ Still-Placed i t (writer_errs id now) l o g q
    | inr (leads, c, f, e) ↦
        subst (λ r. Placed i r.0 (make_calls L (lock_calls r.1) i l)) (sym e)
          (failure-Placed i t id now l o leads c f)
  ]
  local-Placed i t (posts m) l o g = Still-Placed i t (posts m) l o g (step-Still (posts m) t tt)
  local-Placed i t e l o g = Still-Placed i t e l o g (step-Still e t tt)

  pub grant-Placed :
      (i : ℕ) (t : Tab) (id : Text) (l l' : State)
      → Placed i t l
      → Grants l i l'
      → Placed i (on_granted id t).0 (make_calls L (lock_calls (on_granted id t).1) i l')
  unfolding make_calls
  grant-Placed i t id l l' o g = elim (Bool-cases t.closed) [
    | inl c ↦
        subst (λ r. Placed i r.0 (make_calls L (lock_calls r.1) i l'))
          (sym (on_granted-closed id t c))
          (record {
            inv = o.inv;
            holding = λ h. absurd (ground (arith, o.inv));
            asking = λ h. inl c;
            once = ground (arith, o.once, grant_queued l i l' i g, releases_queued l' i i);
          })
    | inr c ↦
        let able : t.failed ≡ false = ground (arith, o.asking, grant_queued l i l' i g) in
        subst (λ cs. Placed i (on_granted id t).0 (make_calls L cs i l'))
          (sym (on_granted-calls id t ∙ if_false t.closed _ _ c))
          (record {
            inv = on_granted-TabInv id t able o.inv;
            holding = λ h. grant_holds l i l' g;
            asking = λ h. absurd (ground (arith, o.once, grant_queued l i l' i g));
            once = ground (arith, o.once, grant_queued l i l' i g);
          })
  ]
