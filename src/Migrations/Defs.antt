-- ===== src/Migrations/Defs.antt =====
-- packages/storage/src/migrations.ts: `readInstalledVersion` and `applyMigrations` over a database whose
-- statements may throw.
use opfs_webauthn.Notes.Cursor.{decimal}
use opfs_webauthn.Prelude.{
  Bool, List, Option, Text, [], false, if◌then◌else◌, leb, none, not, some, true, ℕ, ◌&&◌, ◌*◌, ◌+◌,
  ◌-◌, ◌==◌, ◌∷◌,
}

pub data Write : Type 0 where
  sql : Text → Write
  -- `STAMP_SQL` with the version as its argument.
  stamp : Text → Write

pub data Statement : Type 0 where
  begin commit rollback : Statement
  write : Write → Statement

-- A value of SQLite. A number that is no integer, or is below zero, is only known by its text.
pub data SqlValue : Type 0 where
  natural : ℕ → SqlValue
  other_number : Text → SqlValue
  bigint : Bool → ℕ → SqlValue
  text : Text → SqlValue
  blob : List ℕ → SqlValue
  null : SqlValue

pub record Migration : Type 0 where
  pub to_version : ℕ
  pub up_sql : Text

abbrev is_digits : Text → Bool
is_digits [] = true
is_digits (c ∷ cs) = leb 48 c && (leb c 57 && is_digits cs)

abbrev digits : ℕ → Text → ℕ
digits acc [] = acc
digits acc (c ∷ cs) = digits (acc * 10 + (c - 48)) cs

-- `none` where the code throws. `rounded` is the number nearest to an integer.
unfoldable pub version_of : (ℕ → ℕ) → SqlValue → Option ℕ
version_of rounded (natural n) = some n
version_of rounded (bigint negative n) = if negative && not (n == 0) then none else some (rounded n)
version_of rounded (text []) = none
version_of rounded (text (c ∷ cs)) =
    if is_digits (c ∷ cs) then some (rounded (digits 0 (c ∷ cs))) else none
version_of rounded _ = none

-- The arguments are what the two queries give: whether there is a table `schema_meta`, and the values
-- of its rows of the key `version`.
unfoldable pub read_installed_version : (ℕ → ℕ) → Bool → List SqlValue → Option ℕ
unfolding version_of
read_installed_version rounded false rows = some 0
read_installed_version rounded true [] = some 0
read_installed_version rounded true (value ∷ rows) = version_of rounded value

pub record Migrated (D : Type 0) : Type 0 where
  pub threw : Bool
  pub database : D
  pub freed : List Migration

-- `exec` gives whether the statement ended without an exception, and the database after it.
module _ {D : Type 0} (exec : Statement → D → Bool × D) where
  -- The statements of a `try` block, up to the first that throws.
  unfoldable pub exec_all : List Statement → D → Bool × D
  exec_all [] d = (true, d)
  exec_all (s ∷ ss) d =
      let (fine, d') = exec s d in let rest = exec_all ss d' in if fine then rest else (false, d')

  unfoldable pub migrate : Migration → D → Bool × D
  unfolding exec_all
  migrate m d =
      let (began, d1) = exec begin d in
      let (fine, d2) =
        exec_all (write (sql m.up_sql) ∷ write (stamp (decimal m.to_version)) ∷ commit ∷ []) d1 in
      if not began then (false, d1) else if fine then (true, d2) else (false, (exec rollback d2).1)

  unfoldable pub run_pending : List Migration → D → Bool × D
  unfolding migrate
  run_pending [] d = (true, d)
  run_pending (m ∷ ms) d =
      let (fine, d') = migrate m d in
      let rest = run_pending ms d' in if fine then rest else (false, d')

  -- The migrations of an installed version, `none` if reading it threw.
  unfoldable pub apply_from : (ℕ → List Migration) → Option ℕ → D → Migrated D
  unfolding run_pending
  apply_from pending_migrations none d = record { threw = true; database = d; freed = [] }
  apply_from pending_migrations (some installed) d =
      let pending = pending_migrations installed in
      let (fine, d') = run_pending pending d in
      record { threw = not fine; database = d'; freed = pending }

  unfoldable pub apply_migrations :
      (ℕ → ℕ) → (D → Bool) → (D → List SqlValue) → (ℕ → List Migration) → D → Migrated D
  unfolding apply_from read_installed_version
  apply_migrations rounded has_meta versions pending_migrations d =
      apply_from pending_migrations (read_installed_version rounded (has_meta d) (versions d)) d
