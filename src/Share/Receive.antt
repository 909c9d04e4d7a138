-- ===== src/Share/Receive.antt =====
-- packages/share-client/src/share.ts, `pollAndDecrypt`: the loop of the recipient.
use opfs_webauthn.Prelude.{
  All, Bool, Bool-cases, List, Option, Option-cases, [], ap, arith, false, if◌then◌else◌, inl, inr,
  is_some, leb, length, min, none, not, some, suc, true, zero, ℕ, ◌&&◌, ◌*◌, ◌+◌, ◌<◌, ◌==◌, ◌||◌,
  ◌∙◌, ◌∷◌, ◌≡◌, ◌≤◌, ◌⊎◌,
}
use opfs_webauthn.Share.Blob.{ShareBlobParts, decode_share_blob}
use opfs_webauthn.Share.Errors.{
  Result, escapes, network, ok, plain, protocol, rendezvous_expired, throws,
}
use opfs_webauthn.Share.Transport.{Answer, is_ok, network_safe, then_read, try_download_blob}
use native.Mathlib.Nat.{suc-mul}

-- What happens in one turn of the loop: whether the caller has aborted before it, what the server
-- answers, the clock after the answer, and whether the caller aborts during the sleep.
pub record Round : Type 0 where
  pub aborted : Bool
  pub answer : Answer
  pub now : ℕ
  pub aborted_asleep : Bool

abbrev pub default_poll_interval_ms : ℕ
default_poll_interval_ms = 1500

abbrev pub default_poll_timeout_ms : ℕ
default_poll_timeout_ms = 300000

unfoldable pub deadline_of : (began timeout_ms expires_at : ℕ) → ℕ
deadline_of began timeout_ms expires_at = min (began + timeout_ms) (expires_at * 1000)

abbrev pub or_rest {ℓ} : {A : Type ℓ} → Option A → Option A → Option A
or_rest none rest = rest
or_rest (some x) rest = some x

-- `handle.openShare`, of the cryptographic core: `none` where it throws.
module _ (open_share : ShareBlobParts → Option (List ℕ)) where
  unfoldable pub open_sealed_blob : List ℕ → Result (List ℕ)
  open_sealed_blob blob = then_read (decode_share_blob blob) (λ parts. elim (open_share parts) [
    | none ↦ throws (plain protocol)
    | some plaintext ↦ ok plaintext
  ])

  -- One turn, which ends the loop unless it gives `none`.
  unfoldable pub turn : ℕ → Round → Option (Result (List ℕ))
  unfolding open_sealed_blob
  turn deadline r =
      if r.aborted then some (throws (plain network)) else after (try_download_blob r.answer)
    where
      after : Result (Option (List ℕ)) → Option (Result (List ℕ))
      after (throws e) = some (throws e)
      after escapes = some escapes
      after (ok (some blob)) = some (open_sealed_blob blob)
      after (ok none) =
          if leb deadline r.now
          then some (throws (plain rendezvous_expired))
          else if r.aborted_asleep
          then some (throws (plain network))
          else none

  -- How the loop ends over the rounds, and the rounds that it used; `none` if it still waits after them.
  unfoldable pub poll_and_decrypt : ℕ → List Round → Option (Result (List ℕ))
  unfolding turn
  poll_and_decrypt deadline [] = none
  poll_and_decrypt deadline (r ∷ rs) =
      let rest = poll_and_decrypt deadline rs in or_rest (turn deadline r) rest

  -- The server has no blob yet.
  abbrev pub finds_none : Answer → Bool
  finds_none none = false
  finds_none (some r) = not (is_ok r) && r.status == 404

  abbrev pub asks_on : Round → Bool
  asks_on r = not r.aborted && (finds_none r.answer && not r.aborted_asleep)

  -- The first round ends at `earliest` or later, and each later one at least `interval` after the one before
  -- it, since the loop polls before it sleeps.
  abbrev pub Paced : (interval earliest : ℕ) → List Round → Type 0
  Paced interval earliest [] = Unit
  Paced interval earliest (r ∷ rs) = (earliest ≤ r.now) × Paced interval (r.now + interval) rs

  turn-early : (deadline : ℕ) (r : Round) → turn deadline r ≡ none → r.now < deadline
  unfolding turn
  turn-early deadline r e = ground arith

  -- A poll ends, whatever the server answers: it is over once its rounds take it to the deadline.
  pub poll_and_decrypt-ends :
      (deadline interval earliest n : ℕ) (rs : List Round)
      → Paced interval earliest rs
      → n < length rs
      → deadline ≤ earliest + n * interval
      → is_some (poll_and_decrypt deadline rs) ≡ true
  unfolding poll_and_decrypt
  poll_and_decrypt-ends deadline interval earliest n [] p l d = absurd (omega arith)
  poll_and_decrypt-ends deadline interval earliest zero (r ∷ rs) p l d =
      elim (Option-cases (turn deadline r)) [
        | inr (end, e) ↦ ap (λ x. is_some (or_rest x (poll_and_decrypt deadline rs))) e
        | inl e ↦ absurd (omega (arith, turn-early deadline r e, p.0))
      ]
  poll_and_decrypt-ends deadline interval earliest (suc n) (r ∷ rs) p l d =
      elim (Option-cases (turn deadline r)) [
        | inr (end, e) ↦ ap (λ x. is_some (or_rest x (poll_and_decrypt deadline rs))) e
        | inl e ↦
            ap (λ x. is_some (or_rest x (poll_and_decrypt deadline rs))) e
            ∙ poll_and_decrypt-ends deadline interval (r.now + interval) n rs p.1 (omega arith)
                (omega (arith, p.0, suc-mul n interval))
      ]

  -- What a turn does that finds no blob, and whose caller does not abort.
  abbrev pub IsPatient : (began expires_at deadline : ℕ) → Round → Type 0
  IsPatient began expires_at deadline r =
      (asks_on r ≡ false)
      ⊎ (turn deadline r ≡ (
          if leb (began + 300000) r.now || leb (expires_at * 1000) r.now
          then some (throws (plain rendezvous_expired))
          else none))

  turn-IsPatient :
      (began expires_at : ℕ) (r : Round)
      → IsPatient began expires_at (deadline_of began default_poll_timeout_ms expires_at) r
  unfolding turn deadline_of try_download_blob network_safe
  turn-IsPatient began expires_at r = elim (Bool-cases (asks_on r)) [
    | inr b ↦ inl b
    | inl b ↦ inr (ground arith)
  ]

  each-IsPatient :
      (began expires_at : ℕ) (rs : List Round)
      → All (IsPatient began expires_at (deadline_of began default_poll_timeout_ms expires_at)) rs
  each-IsPatient began expires_at [] = tt
  each-IsPatient began expires_at (r ∷ rs) =
      (turn-IsPatient began expires_at r, each-IsPatient began expires_at rs)

  -- With the default options a poll has ended after n + 1 rounds if n is 200 or more (five minutes of sleep), or
  -- if the rendezvous expires within n intervals of the start: whatever the server answers, if each round
  -- after the first comes at least an interval after the one before. And it does not give up early: a round
  -- that finds no blob yet, and whose caller does not abort, ends the poll just if five minutes have passed or
  -- the rendezvous has expired, and then with the error that says so.
  pub poll_and_decrypt-default :
      (began expires_at n : ℕ) (rs : List Round)
      → Paced default_poll_interval_ms began rs
      → n < length rs
      → (200 ≤ n) ⊎ (expires_at * 1000 ≤ began + n * default_poll_interval_ms)
      → let deadline = deadline_of began default_poll_timeout_ms expires_at in
        (is_some (poll_and_decrypt deadline rs) ≡ true)
        × All (IsPatient began expires_at deadline) rs
  unfolding deadline_of
  poll_and_decrypt-default began expires_at n rs p l d = (
    poll_and_decrypt-ends (deadline_of began default_poll_timeout_ms expires_at)
        default_poll_interval_ms began n rs p l (ground (arith, d)),
    each-IsPatient began expires_at rs,
  )
