-- ===== src/Dialog/Receive.antt =====
-- apps/web/src/share/receive-dialog.tsx: the handle of the recipient, and what a closed dialog does.
use opfs_webauthn.Dialog.Defs.{
  Phase, ReceiveEffect, ReceiveEvent, Receiver, Wire, aborts, after_poll, fails, frees, hands_over,
  loaded, loads, minted, mints, mounted, over, polled, polls, prepares, receive, receive_all, saved,
  saves, shows, unmounts, upserts,
}
use opfs_webauthn.Prelude.{
  Bool, List, Option, Text, [], ap, arith, false, refl, some, suc, sym, true, ℕ, ◌&&◌, ◌++◌, ◌+◌,
  ◌∙◌, ◌∷◌, ◌≡◌, ◌≤◌,
}
use opfs_webauthn.Repo.Defs.{Note}
use opfs_webauthn.Share.Errors.{Result}
use mathlib.Core.List.{append_assoc}

abbrev pub prepared : List ReceiveEffect → ℕ
prepared [] = 0
prepared (prepares ∷ out) = suc (prepared out)
prepared (frees ∷ out) = prepared out
prepared (aborts ∷ out) = prepared out
prepared (shows s ∷ out) = prepared out
prepared (upserts n ∷ out) = prepared out
prepared (hands_over n ∷ out) = prepared out

abbrev pub freed : List ReceiveEffect → ℕ
freed [] = 0
freed (prepares ∷ out) = freed out
freed (frees ∷ out) = suc (freed out)
freed (aborts ∷ out) = freed out
freed (shows s ∷ out) = freed out
freed (upserts n ∷ out) = freed out
freed (hands_over n ∷ out) = freed out

-- Whether the dialog shows nothing and gives no note away.
abbrev pub is_quiet : List ReceiveEffect → Bool
is_quiet [] = true
is_quiet (prepares ∷ out) = is_quiet out
is_quiet (frees ∷ out) = is_quiet out
is_quiet (aborts ∷ out) = is_quiet out
is_quiet (shows s ∷ out) = false
is_quiet (upserts n ∷ out) = false
is_quiet (hands_over n ∷ out) = false

-- The handles that are held while the effect awaits something, and those that it may yet make.
abbrev pub held : Phase → ℕ
held loads = 0
held mints = 1
held polls = 1
held saves = 0
held over = 0

abbrev budget : Phase → ℕ
budget loads = 1
budget mints = 0
budget polls = 0
budget saves = 0
budget over = 0

prepared-append : (xs ys : List ReceiveEffect) → prepared (xs ++ ys) ≡ prepared xs + prepared ys
prepared-append [] ys = omega arith
prepared-append (prepares ∷ xs) ys = omega (arith, prepared-append xs ys)
prepared-append (frees ∷ xs) ys = prepared-append xs ys
prepared-append (aborts ∷ xs) ys = prepared-append xs ys
prepared-append (shows s ∷ xs) ys = prepared-append xs ys
prepared-append (upserts n ∷ xs) ys = prepared-append xs ys
prepared-append (hands_over n ∷ xs) ys = prepared-append xs ys

freed-append : (xs ys : List ReceiveEffect) → freed (xs ++ ys) ≡ freed xs + freed ys
freed-append [] ys = omega arith
freed-append (prepares ∷ xs) ys = freed-append xs ys
freed-append (frees ∷ xs) ys = omega (arith, freed-append xs ys)
freed-append (aborts ∷ xs) ys = freed-append xs ys
freed-append (shows s ∷ xs) ys = freed-append xs ys
freed-append (upserts n ∷ xs) ys = freed-append xs ys
freed-append (hands_over n ∷ xs) ys = freed-append xs ys

is_quiet-append : (xs ys : List ReceiveEffect) → is_quiet (xs ++ ys) ≡ is_quiet xs && is_quiet ys
is_quiet-append [] ys = refl
is_quiet-append (prepares ∷ xs) ys = is_quiet-append xs ys
is_quiet-append (frees ∷ xs) ys = is_quiet-append xs ys
is_quiet-append (aborts ∷ xs) ys = is_quiet-append xs ys
is_quiet-append (shows s ∷ xs) ys = refl
is_quiet-append (upserts n ∷ xs) ys = refl
is_quiet-append (hands_over n ∷ xs) ys = refl

module _ (W : Wire) where
  -- One step, on each branch.
  abbrev Fair : Phase → Receiver × List ReceiveEffect → Type 0
  Fair p (r, out) =
      (held p + prepared out ≡ freed out + held r.phase)
      × (prepared out + budget r.phase ≤ budget p)

  receive-Fair :
      (e : ReceiveEvent) (p : Phase) (b : Bool)
      → Fair p (receive W e (record { phase = p; active = b }))
  unfolding receive fails
  receive-Fair e p b = ground arith

  receive_all-Fair : (es : List ReceiveEvent) (r : Receiver) → Fair r.phase (receive_all W es r)
  unfolding receive_all
  receive_all-Fair [] r = (omega arith, omega arith)
  receive_all-Fair (e ∷ es) r =
      let (r1, out) = receive W e r in
      let more = (receive_all W es r1).1 in
      let first = receive-Fair e r.phase r.active in
      let rest = receive_all-Fair es r1 in
      (
        omega (arith, first.0, rest.0, prepared-append out more, freed-append out more),
        omega (arith, first.1, rest.1, prepared-append out more),
      )

  -- Whatever happens and whenever the dialog is closed, one handle of the wasm core is made at most, none is
  -- freed that was not made, and a handle is still held only while the code is minted or polled for.
  pub receive_all-freed :
      (es : List ReceiveEvent)
      → let (r, out) = receive_all W es mounted in
        (prepared out ≡ freed out + held r.phase) × (prepared out ≤ 1)
  receive_all-freed es =
      let fair = receive_all-Fair es mounted in (omega (arith, fair.0), omega (arith, fair.1))

  receive-quiet :
      (e : ReceiveEvent) (r : Receiver)
      → r.active ≡ false
      → let (r1, out) = receive W e r in (r1.active ≡ false) × (is_quiet out ≡ true)
  unfolding receive after_poll fails
  receive-quiet e r a = ground arith

  receive_all-quiet :
      (es : List ReceiveEvent) (r : Receiver)
      → r.active ≡ false
      → is_quiet (receive_all W es r).1 ≡ true
  unfolding receive_all
  receive_all-quiet [] r a = refl
  receive_all-quiet (e ∷ es) r a =
      let (r1, out) = receive W e r in
      let (b, quiet) = receive-quiet e r a in
      is_quiet-append out (receive_all W es r1).1 ∙ rw quiet (receive_all-quiet es r1 b)

  receive_all-append :
      (es fs : List ReceiveEvent) (r : Receiver)
      → receive_all W (es ++ fs) r ≡ (
        (receive_all W fs (receive_all W es r).0).0,
        (receive_all W es r).1 ++ (receive_all W fs (receive_all W es r).0).1,
      )
  unfolding receive_all
  receive_all-append [] fs r = refl
  receive_all-append (e ∷ es) fs r =
      let (r1, out) = receive W e r in
      let (r2, more) = receive_all W es r1 in
      ap (λ x. (x.0, out ++ x.1)) (receive_all-append es fs r1)
      ∙ ap (λ l. ((receive_all W fs r2).0, l)) (sym (append_assoc out more (receive_all W fs r2).1))

  settles :
      (b : Bool) (m : Result Text) (p : Result (List ℕ)) (s : Option Note) (r : Receiver)
      → r.active ≡ false
      → let late = loaded b ∷ minted m ∷ polled (some p) ∷ saved s ∷ [] in
        (receive_all W late r).0.phase ≡ over
  unfolding receive_all receive after_poll fails
  settles b m p s r a = ground arith

  abbrev closed_after : List ReceiveEvent → Receiver
  closed_after es = record { phase = (receive_all W es mounted).0.phase; active = false }

  -- A dialog that is closed at any time shows nothing more, saves no note that it has not begun to save, and
  -- gives none away. Once what it may await is settled, in any way, its flow is over and holds no handle.
  pub receive_all-closed :
      (es : List ReceiveEvent) (b : Bool) (m : Result Text) (p : Result (List ℕ)) (s : Option Note)
      (fs : List ReceiveEvent)
      → let late = loaded b ∷ minted m ∷ polled (some p) ∷ saved s ∷ [] in
        let (r, out) = receive_all W (es ++ (unmounts ∷ late)) mounted in
        (r.phase ≡ over)
        × (prepared out ≡ freed out)
        × (is_quiet (receive_all W fs (receive_all W (es ++ (unmounts ∷ [])) mounted).0).1 ≡ true)
  unfolding receive_all receive
  receive_all-closed es b m p s fs =
      let late = loaded b ∷ minted m ∷ polled (some p) ∷ saved s ∷ [] in
      let r : Receiver = closed_after es in
      let ends =
        ap (λ x. x.0.phase) (receive_all-append es (unmounts ∷ late) mounted)
        ∙ settles b m p s r refl in
      let fair = receive_all-freed (es ++ (unmounts ∷ late)) in
      (
        ends,
        fair.0
            ∙ ap (λ q. freed (receive_all W (es ++ (unmounts ∷ late)) mounted).1 + held q) ends
            ∙ omega arith,
        ap (λ x. is_quiet (receive_all W fs x.0).1) (receive_all-append es (unmounts ∷ []) mounted)
            ∙ receive_all-quiet fs r refl,
      )
