-- ===== src/Migrations/Atomic.antt =====
-- packages/storage/src/migrations.ts: `applyMigrations` leaves no migration half applied.
use opfs_webauthn.Migrations.Defs.{
  Migration, SqlValue, Statement, Write, apply_from, apply_migrations, begin, commit, exec_all,
  migrate, read_installed_version, rollback, run_pending, sql, stamp, write,
}
use opfs_webauthn.Notes.Cursor.{decimal}
use opfs_webauthn.Prelude.{
  Bool, Bool-cases, List, Text, [], arith, false, if_false, if_true, if◌then◌else◌, inl, inr, not,
  refl, some, subst, sym, true, ℕ, ◌∙◌, ◌∷◌, ◌≡◌,
}

-- What the runner relies on of SQLite. `saved` is what a reopened database holds, `current` what the
-- open transaction sees.
pub record Sqlite : Type 1 where
  pub Database : Type 0
  pub Contents : Type 0
  pub exec : Statement → Database → Bool × Database
  pub saved : Database → Contents
  pub current : Database → Contents
  pub in_transaction : Database → Bool
  pub effect : Write → Contents → Contents
  -- The text has no statement about transactions.
  pub is_plain : Write → Bool
  pub plain_stamp : (v : Text) → is_plain (stamp v) ≡ true
  pub begin_saved : (d : Database) → in_transaction d ≡ false → saved (exec begin d).1 ≡ saved d
  pub begin_ok :
      (d : Database) → in_transaction d ≡ false → in_transaction (exec begin d).1 ≡ (exec begin d).0
  pub begin_current :
      (d : Database)
      → in_transaction d ≡ false
      → (exec begin d).0 ≡ true
      → current (exec begin d).1 ≡ saved d
  pub write_saved :
      (w : Write) (d : Database)
      → is_plain w ≡ true
      → in_transaction d ≡ true
      → saved (exec (write w) d).1 ≡ saved d
  pub write_ok :
      (w : Write) (d : Database)
      → is_plain w ≡ true
      → in_transaction d ≡ true
      → (exec (write w) d).0 ≡ true
      → (in_transaction (exec (write w) d).1 ≡ true)
        × (current (exec (write w) d).1 ≡ effect w (current d))
  pub commit_ok :
      (d : Database)
      → in_transaction d ≡ true
      → (exec commit d).0 ≡ true
      → (in_transaction (exec commit d).1 ≡ false) × (saved (exec commit d).1 ≡ current d)
  pub commit_fails :
      (d : Database)
      → in_transaction d ≡ true
      → (exec commit d).0 ≡ false
      → saved (exec commit d).1 ≡ saved d
  pub rollback_saved : (d : Database) → saved (exec rollback d).1 ≡ saved d
  pub rollback_ends : (d : Database) → in_transaction (exec rollback d).1 ≡ false

module _ (S : Sqlite) where
  open S use {
    Database, Contents, exec, saved, current, in_transaction, effect, is_plain, plain_stamp,
    begin_saved, begin_ok, begin_current, write_saved, write_ok, commit_ok, commit_fails,
    rollback_saved, rollback_ends,
  }

  -- The whole of a migration: its statements and the stamp of its version.
  abbrev pub migrated : Migration → Contents → Contents
  migrated m c = effect (stamp (decimal m.to_version)) (effect (sql m.up_sql) c)

  -- What the first so many of the migrations make of the contents, `fine` if they are all of them.
  pub data Reaches : List Migration → Contents → Bool → Contents → Type 0 where
    all : {c : Contents} → Reaches [] c true c
    stops : {m : Migration} {ms : List Migration} {c : Contents} → Reaches (m ∷ ms) c false c
    next :
        {m : Migration} {ms : List Migration} {c c' : Contents} {fine : Bool}
        → Reaches ms (migrated m c) fine c'
        → Reaches (m ∷ ms) c fine c'

  abbrev pub ArePlain : List Migration → Type 0
  ArePlain [] = Unit
  ArePlain (m ∷ ms) = (is_plain (sql m.up_sql) ≡ true) × ArePlain ms

  migrate_lem :
      (m : Migration) (d : Database)
      → is_plain (sql m.up_sql) ≡ true
      → in_transaction d ≡ false
      → let (fine, d') = migrate exec m d in
        (in_transaction d' ≡ false) × (saved d' ≡ (if fine then migrated m (saved d) else saved d))
  unfolding migrate exec_all
  migrate_lem m d p o =
      let d1 = (exec begin d).1 in
      let v = stamp (decimal m.to_version) in
      let d2 = (exec (write (sql m.up_sql)) d1).1 in
      let d3 = (exec (write v) d2).1 in
      let d4 = (exec commit d3).1 in
      ground (
        arith,
        begin_saved d o,
        begin_ok d o,
        begin_current d o,
        write_saved (sql m.up_sql) d1 p,
        write_ok (sql m.up_sql) d1 p,
        write_saved v d2 (plain_stamp _),
        write_ok v d2 (plain_stamp _),
        commit_ok d3,
        commit_fails d3,
        rollback_saved d2,
        rollback_ends d2,
        rollback_saved d3,
        rollback_ends d3,
        rollback_saved d4,
        rollback_ends d4,
      )

  run_pending-Reaches :
      (ms : List Migration) (d : Database)
      → ArePlain ms
      → in_transaction d ≡ false
      → let (fine, d') = run_pending exec ms d in
        (in_transaction d' ≡ false) × Reaches ms (saved d) fine (saved d')
  unfolding run_pending
  run_pending-Reaches [] d p o = (o, all)
  run_pending-Reaches (m ∷ ms) d p o =
      let d' = (migrate exec m d).1 in
      let (shut, kept) = migrate_lem m d p.0 o in
      elim (Bool-cases (migrate exec m d).0) [
        | inl h ↦
            let (ends, reached) = run_pending-Reaches ms d' p.1 shut in
            let at : saved d' ≡ migrated m (saved d) = kept ∙ if_true _ _ _ h in
            let (finished, last) = run_pending exec ms d' in
            rw h (ends, next (subst (λ c. Reaches ms c finished (saved last)) at reached))
        | inr h ↦
            let at : saved d' ≡ saved d = kept ∙ if_false _ _ _ h in
            rw h (shut, subst (λ c. Reaches (m ∷ ms) (saved d) false c) (sym at) stops)
      ]

  -- No migration is half applied. Whichever statements throw, the database ends outside of any
  -- transaction and holds what the first so many of the pending migrations make of it, each with the
  -- stamp of its version; it is all of them exactly if nothing was thrown. All of them are freed. This
  -- is of an installed version that can be read, and of migrations without statements about
  -- transactions.
  pub apply_migrations-atomic :
      (rounded : ℕ → ℕ) (has_meta : Database → Bool) (versions : Database → List SqlValue)
      (pending_migrations : ℕ → List Migration) (d : Database) (installed : ℕ)
      → read_installed_version rounded (has_meta d) (versions d) ≡ some installed
      → ArePlain (pending_migrations installed)
      → in_transaction d ≡ false
      → let r = apply_migrations exec rounded has_meta versions pending_migrations d in
        (in_transaction r.database ≡ false)
        × Reaches (pending_migrations installed) (saved d) (not r.threw) (saved r.database)
        × (r.freed ≡ pending_migrations installed)
  unfolding apply_migrations apply_from
  apply_migrations-atomic rounded has_meta versions pending_migrations d installed e p o =
      let ms = pending_migrations installed in
      let (ends, reached) = run_pending-Reaches ms d p o in
      let (fine, last) = run_pending exec ms d in
      let twice : fine ≡ not (not fine) = ground arith in
      rw e (ends, subst (λ b. Reaches ms (saved d) b (saved last)) twice reached, refl)
