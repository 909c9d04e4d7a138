-- ===== src/Migrations/Tests.antt =====
-- packages/storage/src/migrations.ts: two migrations, of which the second throws.
use opfs_webauthn.Migrations.Atomic.{Reaches, Sqlite, apply_migrations-atomic}
use opfs_webauthn.Migrations.Defs.{
  Migration, Statement, Write, apply_from, apply_migrations, begin, commit, exec_all, migrate,
  read_installed_version, rollback, run_pending, sql, stamp, text, version_of, write,
}
use opfs_webauthn.Prelude.{
  Bool, List, Option, Text, [], arith, codes, false, if◌then◌else◌, is_some, none, not, refl, some,
  suc, text_beq, true, zero, ℕ, ◌∷◌, ◌≡◌,
}

record Store : Type 0 where
  kept : List Write
  transaction : Option (List Write)

abbrev bad : Text
bad = codes "bad"

abbrev throws_at : Write → Bool
throws_at (sql s) = text_beq s bad
throws_at (stamp v) = false

abbrev seen : Store → List Write
seen s = elim s.transaction [ none ↦ s.kept | some ws ↦ ws ]

abbrev write_to : Write → Store → Bool × Store
write_to w s =
    if throws_at w
    then (false, s)
    else if is_some s.transaction
    then (true, record s { transaction = some (w ∷ seen s) })
    else (true, record s { kept = w ∷ s.kept })

abbrev store_exec : Statement → Store → Bool × Store
store_exec begin s =
    if is_some s.transaction then (false, s) else (true, record s { transaction = some s.kept })
store_exec commit s =
    if is_some s.transaction
    then (true, record { kept = seen s; transaction = none })
    else (false, s)
store_exec rollback s = (is_some s.transaction, record s { transaction = none })
store_exec (write w) s = write_to w s

abbrev plain : Write → Bool
plain w = true

abbrev store : Sqlite
store = record {
  Database = Store;
  Contents = List Write;
  exec = store_exec;
  saved = λ s. s.kept;
  current = seen;
  in_transaction = λ s. is_some s.transaction;
  effect = λ w ws. w ∷ ws;
  is_plain = plain;
  plain_stamp = λ v. refl;
  begin_saved = λ d o. ground arith;
  begin_ok = λ d o. ground arith;
  begin_current = λ d o f. ground arith;
  write_saved = λ w d p o. ground arith;
  write_ok = λ w d p o f. ground arith;
  commit_ok = λ d o f. ground arith;
  commit_fails = λ d o f. ground arith;
  rollback_saved = λ d. refl;
  rollback_ends = λ d. refl;
}

abbrev first : Migration
first = record { to_version = 1; up_sql = codes "create" }

abbrev second : Migration
second = record { to_version = 2; up_sql = bad }

abbrev pending_after : ℕ → List Migration
pending_after zero = first ∷ second ∷ []
pending_after (suc n) = []

abbrev nothing : Store
nothing = record { kept = []; transaction = none }

second_throws :
    apply_migrations store_exec (λ n. n) (λ s. false) (λ s. []) pending_after nothing ≡ record {
      threw = true;
      database = record {
        kept = stamp (codes "1") ∷ sql (codes "create") ∷ [];
        transaction = none;
      };
      freed = first ∷ second ∷ [];
    }
unfolding apply_migrations apply_from run_pending migrate exec_all text_beq
    opfs_webauthn.Notes.Cursor.decimal_up_to
second_throws = refl

version_text : read_installed_version (λ n. n) true (text (codes "12") ∷ []) ≡ some 12
unfolding read_installed_version version_of
version_text = refl

version_corrupt : read_installed_version (λ n. n) true (text (codes "1corrupt") ∷ []) ≡ none
unfolding read_installed_version version_of
version_corrupt = refl

apply_migrations-atomic_example :
    let r = apply_migrations store_exec (λ n. n) (λ s. false) (λ s. []) pending_after nothing in
    (is_some r.database.transaction ≡ false)
    × Reaches store (first ∷ second ∷ []) [] (not r.threw) r.database.kept
    × (r.freed ≡ first ∷ second ∷ [])
unfolding read_installed_version
apply_migrations-atomic_example =
    apply_migrations-atomic store (λ n. n) (λ s. false) (λ s. []) pending_after nothing 0 refl
      (refl, (refl, tt)) refl
