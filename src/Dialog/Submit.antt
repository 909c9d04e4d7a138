-- ===== src/Dialog/Submit.antt =====
-- apps/web/src/share/send-dialog.tsx: the dialog that sends a note.
use opfs_webauthn.Dialog.Defs.{SharedNote, Wire, encode_shared_note}
use opfs_webauthn.Prelude.{
  Bool, Bool-cases, List, Option, Text, [], arith, false, if◌then◌else◌, inl, inr, none, not, refl,
  some, suc, true, zero, ℕ, ◌&&◌, ◌++◌, ◌||◌, ◌∷◌, ◌≡◌, ◌≤◌,
}
use opfs_webauthn.Share.Code.{normalize_code}
use opfs_webauthn.Share.Errors.{Result, ShareErrorKind, escapes, ok, throws}

pub data SendStatus : Type 0 where
  idle sending sent : SendStatus
  refused : Option ShareErrorKind → SendStatus

pub record SendView : Type 0 where
  pub code : Text
  pub status : SendStatus

-- What was rendered last, on which the handlers run; the state that is rendered next; the guard; and how many
-- calls of `sendShare` are unsettled.
pub record Sender : Type 0 where
  pub rendered : SendView
  pub current : SendView
  pub inflight : Bool
  pub running : ℕ

pub data SendEvent : Type 0 where
  types : Text → SendEvent
  submits renders : SendEvent
  -- A call is settled, which is after the page was rendered.
  ended : Result (Unit {0}) → SendEvent

pub data SendEffect : Type 0 where
  calls_send_share : (normalized : Text) → (bytes : List ℕ) → SendEffect

abbrev is_sending : SendStatus → Bool
is_sending idle = false
is_sending sending = true
is_sending sent = false
is_sending (refused e) = false

abbrev pub is_sent : SendStatus → Bool
is_sent idle = false
is_sent sending = false
is_sent sent = true
is_sent (refused e) = false

abbrev pub fresh_sender : Sender
fresh_sender = record {
  rendered = record { code = []; status = idle };
  current = record { code = []; status = idle };
  inflight = false;
  running = 0;
}

abbrev outcome : Result (Unit {0}) → SendStatus
outcome (ok x) = sent
outcome (throws e) = refused (some e.kind)
outcome escapes = refused none

module _ (upper_other : ℕ → Text) (W : Wire) (payload : SharedNote) where
  unfoldable pub submit : Sender → Sender × List SendEffect
  submit s = elim (normalize_code upper_other s.rendered.code) [
    | none ↦ (s, [])
    | some normalized ↦
        if is_sending s.rendered.status || (is_sent s.rendered.status || s.inflight)
        then (s, [])
        else (
          record {
            rendered = s.rendered;
            current = record { code = s.current.code; status = sending };
            inflight = true;
            running = suc s.running;
          },
          calls_send_share normalized (encode_shared_note W payload) ∷ [],
        )
  ]

  unfoldable pub send_step : SendEvent → Sender → Sender × List SendEffect
  unfolding submit
  -- The field is disabled while the note is sent, and gone once it is.
  send_step (types code) s =
      if is_sending s.rendered.status || is_sent s.rendered.status then (s, []) else (
        record {
          rendered = s.rendered;
          current = record { code = code; status = s.current.status };
          inflight = s.inflight;
          running = s.running;
        },
        [],
      )
  send_step submits s = submit s
  send_step renders s = (
    record {
      rendered = s.current;
      current = s.current;
      inflight = s.inflight;
      running = s.running;
    },
    [],
  )
  send_step (ended result) s = elim s.running [
    | zero ↦ (s, [])
    | suc n ↦ (
      record {
        rendered = s.current;
        current = record { code = s.current.code; status = outcome result };
        inflight = false;
        running = n;
      },
      [],
    )
  ]

  unfoldable pub send_run : List SendEvent → Sender → Sender × List SendEffect
  unfolding send_step
  send_run [] s = (s, [])
  send_run (e ∷ es) s =
      let (s1, out) = send_step e s in let (s2, more) = send_run es s1 in (s2, out ++ more)

  abbrev IsGuarded : Sender → Type 0
  IsGuarded s =
      (s.running ≡ (if s.inflight then 1 else 0))
      × (is_sending s.current.status ≡ s.inflight)
      × ((is_sent s.rendered.status && not (is_sent s.current.status)) ≡ false)
      × ((is_sent s.current.status
            && not (is_sending s.rendered.status || is_sent s.rendered.status))
          ≡ false)

  send_step-IsGuarded : (e : SendEvent) (s : Sender) → IsGuarded s → IsGuarded (send_step e s).0
  unfolding send_step submit
  send_step-IsGuarded e s g = ground arith

  send_step-sent :
      (e : SendEvent) (s : Sender)
      → IsGuarded s
      → is_sent s.current.status ≡ true
      → ((send_step e s).1 ≡ []) × (is_sent (send_step e s).0.current.status ≡ true)
  unfolding send_step submit
  send_step-sent e s g h = ground arith

  send_run-IsGuarded :
      (es : List SendEvent) (s : Sender) → IsGuarded s → IsGuarded (send_run es s).0
  unfolding send_run
  send_run-IsGuarded [] s g = g
  send_run-IsGuarded (e ∷ es) s g =
      send_run-IsGuarded es (send_step e s).0 (send_step-IsGuarded e s g)

  send_run-sent :
      (es : List SendEvent) (s : Sender)
      → IsGuarded s
      → is_sent s.current.status ≡ true
      → (send_run es s).1 ≡ []
  unfolding send_run
  send_run-sent [] s g h = refl
  send_run-sent (e ∷ es) s g h =
      let (quiet, still) = send_step-sent e s g h in
      rw (quiet, send_run-sent es (send_step e s).0 (send_step-IsGuarded e s g) still) refl

  -- However the button is pressed, twice before the page is rendered included, one call is under way at most;
  -- and once the note is sent, it is not sent again, whatever happens.
  pub send_run-once :
      (es fs : List SendEvent)
      → let s = (send_run es fresh_sender).0 in
        (s.running ≤ 1) × ((if is_sent s.current.status then (send_run fs s).1 else []) ≡ [])
  send_run-once es fs =
      let s = (send_run es fresh_sender).0 in
      let g = send_run-IsGuarded es fresh_sender (refl, refl, refl, refl) in
      (
        ground (arith, g.0),
        elim (Bool-cases (is_sent s.current.status)) [
          | inr b ↦ rw b refl
          | inl b ↦ rw b (send_run-sent fs s g b)
        ],
      )
