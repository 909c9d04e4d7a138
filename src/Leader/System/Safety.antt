-- ===== src/Leader/System/Safety.antt =====
-- At most one tab hosts the writer, whatever messages arrive and whenever writers fail.
use opfs_webauthn.Leader.System.Defs.{
  LockManager, Reach, System, SystemStep, acts, grants, make_calls, opens, start, then_step,
}
use opfs_webauthn.Leader.System.Placing.{
  Placed, SystemInv, apply-SystemInv, grant-Placed, local-Placed,
}
use opfs_webauthn.Leader.Tab.{Tab, create, on_granted, step}
use opfs_webauthn.Leader.Tab.Calls.{lock_calls}
use opfs_webauthn.Leader.Tab.Runs.{create-TabInv}
use opfs_webauthn.Prelude.{Text, arith, inr, none, refl, some, true, ℕ, ◌∙◌, ◌≡◌}

module _ (L : LockManager) where
  open L use {State, Holds, queued, exclusive, asks_queued, grant_free, grant_queued}

  blank-Placed :
      (i : ℕ) (client_id : Text) (l : State)
      → queued l i ≡ 0
      → Placed L i (create client_id).0 (make_calls L (lock_calls (create client_id).1) i l)
  unfolding make_calls create
  blank-Placed i client_id l q = record {
    inv = create-TabInv client_id;
    holding = λ h. cc;
    asking = λ h. inr (refl, refl);
    once = ground (arith, asks_queued l i i);
  }

  SystemStep-SystemInv : {s u : System L} → SystemStep L s u → SystemInv L s → SystemInv L u
  unfolding step
  SystemStep-SystemInv {s} (opens i client_id e) v =
      apply-SystemInv L s i (create client_id) s.lock v
        (blank-Placed i client_id s.lock (v.fresh i e)) (λ j t n h k. (v.tab j t h).holding k)
        (λ j n. omega arith)
  SystemStep-SystemInv {s} (acts i t e h g) v =
      apply-SystemInv L s i (step e t) s.lock v (local-Placed L i t e s.lock (v.tab i t h) g)
        (λ j u n k r. (v.tab j u k).holding r) (λ j n. omega arith)
  SystemStep-SystemInv {s} (grants i t id l h g) v =
      apply-SystemInv L s i (on_granted id t) l v (grant-Placed L i t id s.lock l (v.tab i t h) g)
        (λ j u n k r. absurd (grant_free s.lock i l j g ((v.tab j u k).holding r)))
        (λ j n. omega (arith, grant_queued s.lock i l j g))

  Reach-SystemInv : {s u : System L} → SystemInv L s → Reach L s u → SystemInv L u
  Reach-SystemInv v start = v
  Reach-SystemInv v (then_step r st) = SystemStep-SystemInv st (Reach-SystemInv v r)

  -- Before the first tab opens, and with no request queued for any.
  abbrev pub IsFresh : System L → Type 0
  IsFresh s = ((i : ℕ) → s.tabs i ≡ none) × ((i : ℕ) → queued s.lock i ≡ 0)

  IsFresh-SystemInv : (s : System L) → IsFresh s → SystemInv L s
  IsFresh-SystemInv s f = record {
    tab = λ i t e. absurd (ground (arith, f.0 i));
    fresh = λ i e. f.1 i;
  }

  -- From a start with no tabs, whatever tabs open and close, whatever messages arrive, and whenever
  -- writers fail: at most one tab hosts the database writer. This rests on the laws of the lock
  -- manager, that an exclusive lock has one holder and is granted only when it is free.
  pub single_writer :
      (s u : System L) (i j : ℕ) (a b : Tab)
      → IsFresh s
      → Reach L s u
      → u.tabs i ≡ some a
      → u.tabs j ≡ some b
      → a.writer ≡ true
      → b.writer ≡ true
      → i ≡ j
  single_writer s u i j a b f r ea eb wa wb =
      exclusive u.lock i j (holds i a ea wa) (holds j b eb wb)
    where
      v : SystemInv L u
      v = Reach-SystemInv (IsFresh-SystemInv s f) r

      holds : (k : ℕ) (t : Tab) → u.tabs k ≡ some t → t.writer ≡ true → Holds u.lock k
      holds k t e w = (v.tab k t e).holding ((v.tab k t e).inv.locked ∙ w)
