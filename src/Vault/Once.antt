-- ===== src/Vault/Once.antt =====
-- The lock of a coordinator fires once, and is published once at most.
use opfs_webauthn.Prelude.{Bool, List, [], arith, if◌then◌else◌, ℕ, ◌++◌, ◌+◌, ◌∷◌, ◌≡◌, ◌≤◌}
use opfs_webauthn.Vault.Defs.{
  Coordinator, VaultEffect, VaultEvent, acts, hear, hears, note_activity, on_lock, publish, react,
  run_vault, tick, ticks, vault_heartbeat, vault_locked,
}

abbrev pub locks : List VaultEffect → ℕ
locks [] = 0
locks (on_lock ∷ out) = 1 + locks out
locks (publish m ∷ out) = locks out

abbrev pub lock_broadcasts : List VaultEffect → ℕ
lock_broadcasts [] = 0
lock_broadcasts (publish vault_locked ∷ out) = 1 + lock_broadcasts out
lock_broadcasts (publish vault_heartbeat ∷ out) = lock_broadcasts out
lock_broadcasts (on_lock ∷ out) = lock_broadcasts out

locks-append : (xs ys : List VaultEffect) → locks (xs ++ ys) ≡ locks xs + locks ys
locks-append [] ys = omega arith
locks-append (on_lock ∷ xs) ys = omega (arith, locks-append xs ys)
locks-append (publish m ∷ xs) ys = locks-append xs ys

lock_broadcasts-append :
    (xs ys : List VaultEffect)
    → lock_broadcasts (xs ++ ys) ≡ lock_broadcasts xs + lock_broadcasts ys
lock_broadcasts-append [] ys = omega arith
lock_broadcasts-append (publish vault_locked ∷ xs) ys = omega (arith, lock_broadcasts-append xs ys)
lock_broadcasts-append (publish vault_heartbeat ∷ xs) ys = lock_broadcasts-append xs ys
lock_broadcasts-append (on_lock ∷ xs) ys = lock_broadcasts-append xs ys

abbrev pub as_number : Bool → ℕ
as_number b = if b then 1 else 0

react-locks :
    (e : VaultEvent) (now : ℕ) (c : Coordinator)
    → let (c', out) = react e now c in
      (locks out + as_number c.locked ≡ as_number c'.locked)
      × (lock_broadcasts out + as_number c.locked ≤ as_number c'.locked)
unfolding react note_activity hear tick
react-locks acts now c = ground arith
react-locks (hears vault_heartbeat) now c = ground arith
react-locks (hears vault_locked) now c = ground arith
react-locks ticks now c = ground arith

-- Whatever happens to an open coordinator, and in any order, `onLock` has been called once if it is
-- locked in the end and never otherwise, and it has told the other tabs of its lock once at most.
pub run_vault-locks :
    (es : List (VaultEvent × ℕ)) (c : Coordinator)
    → let (c', out) = run_vault es c in
      (locks out + as_number c.locked ≡ as_number c'.locked)
      × (lock_broadcasts out + as_number c.locked ≤ as_number c'.locked)
unfolding run_vault
run_vault-locks [] c = (omega arith, omega arith)
run_vault-locks ((e, now) ∷ es) c =
    let (c', out) = react e now c in
    let (c'', rest) = run_vault es c' in
    let here = react-locks e now c in
    let later = run_vault-locks es c' in
    (
      omega (arith, here.0, later.0, locks-append out rest),
      omega (arith, here.1, later.1, lock_broadcasts-append out rest),
    )
