-- ===== src/Leader/Tab/Calls/Defs.antt =====
-- The calls to the lock manager among the effects of an event.
use opfs_webauthn.Leader.Wire.{Effect, abort_lock, release_lock, request_lock}
use opfs_webauthn.Prelude.{List, [], ap, refl, sym, ◌++◌, ◌∙◌, ◌∷◌, ◌≡◌}
use mathlib.Core.List.{append_assoc}

pub data LockCall : Type 0 where
  asks aborts releases : LockCall

abbrev pub lock_call : Effect → List LockCall
lock_call request_lock = asks ∷ []
lock_call abort_lock = aborts ∷ []
lock_call release_lock = releases ∷ []
lock_call _ = []

abbrev pub lock_calls : List Effect → List LockCall
lock_calls [] = []
lock_calls (e ∷ out) = lock_call e ++ lock_calls out

pub lock_calls-append :
    (xs ys : List Effect) → lock_calls (xs ++ ys) ≡ lock_calls xs ++ lock_calls ys
lock_calls-append [] ys = refl
lock_calls-append (e ∷ xs) ys =
    ap (◌++◌ (lock_call e)) (lock_calls-append xs ys)
    ∙ sym (append_assoc (lock_call e) (lock_calls xs) (lock_calls ys))
