-- ===== src/Dialog/Defs.antt =====
-- apps/web/src/share: note-codec.ts, and the two dialogs, receive-dialog.tsx with `prepareReceive` of
-- packages/share-client/src/share.ts, and send-dialog.tsx.
use opfs_webauthn.Prelude.{
  Bool, List, Option, Text, [], false, if◌then◌else◌, none, some, true, ℕ, ◌++◌, ◌∷◌, ◌≡◌,
}
use opfs_webauthn.Repo.Defs.{Note}
use opfs_webauthn.Share.Errors.{Result, ShareErrorKind, escapes, ok, throws}

pub record SharedNote : Type 0 where
  pub title : Text
  pub body : Text

-- JSON and UTF-8. `json_parse` gives the two properties, each if it is a string, and `none` where it, or the
-- reading of a property, throws; the decoder gives `none` where it throws.
pub record Wire : Type 0 where
  pub json_stringify : SharedNote → Text
  pub json_parse : Text → Option (Option Text × Option Text)
  pub utf8_encode : Text → List ℕ
  pub utf8_decode : List ℕ → Option Text

-- `JSON.stringify` escapes lone surrogates, so that its text can be encoded.
pub record WireLaws (W : Wire) : Type 0 where
  pub reads :
      (n : SharedNote) → W.json_parse (W.json_stringify n) ≡ some (some n.title, some n.body)
  pub decodes :
      (n : SharedNote)
      → W.utf8_decode (W.utf8_encode (W.json_stringify n)) ≡ some (W.json_stringify n)

abbrev pub shared_note_of : Option (Option Text × Option Text) → Option SharedNote
shared_note_of (some (some title, some body)) = some (record { title = title; body = body })
shared_note_of (some (some title, none)) = none
shared_note_of (some (none, body)) = none
shared_note_of none = none

module _ (W : Wire) where
  unfoldable pub encode_shared_note : SharedNote → List ℕ
  encode_shared_note n = W.utf8_encode (W.json_stringify n)

  -- `none` where it throws.
  unfoldable pub decode_shared_note : List ℕ → Option SharedNote
  decode_shared_note bytes = elim (W.utf8_decode bytes) [
    | none ↦ none
    | some s ↦ shared_note_of (W.json_parse s)
  ]

-- An error is that of a `ShareError`, or another one.
pub data ReceiveStatus : Type 0 where
  minting received : ReceiveStatus
  waiting : (code : Text) → ReceiveStatus
  failed : Option ShareErrorKind → ReceiveStatus

-- What the effect of the dialog awaits: the wasm core, the result to `mint`, the poll, or the repository.
pub data Phase : Type 0 where
  loads mints polls saves over : Phase

pub record Receiver : Type 0 where
  pub phase : Phase
  pub active : Bool

pub data ReceiveEvent : Type 0 where
  -- Whether the wasm core is there and makes a handle.
  loaded : Bool → ReceiveEvent
  minted : Result Text → ReceiveEvent
  -- How the poll ended, `none` if it still waits.
  polled : Option (Result (List ℕ)) → ReceiveEvent
  -- The note that `upsertNote` gives, `none` if it throws.
  saved : Option Note → ReceiveEvent
  unmounts : ReceiveEvent

pub data ReceiveEffect : Type 0 where
  prepares frees aborts : ReceiveEffect
  shows : ReceiveStatus → ReceiveEffect
  upserts : SharedNote → ReceiveEffect
  hands_over : Note → ReceiveEffect

abbrev pub mounted : Receiver
mounted = record { phase = loads; active = true }

abbrev pub at : Phase → Receiver → Receiver
at p r = record { phase = p; active = r.active }

-- The `catch` of the effect.
unfoldable pub fails : Option ShareErrorKind → Receiver → Receiver × List ReceiveEffect
fails e r = (at over r, if r.active then shows (failed e) ∷ [] else [])

abbrev pub frees_first : Receiver × List ReceiveEffect → Receiver × List ReceiveEffect
frees_first (r, out) = (r, frees ∷ out)

module _ (W : Wire) where
  unfoldable pub after_poll : Result (List ℕ) → Receiver → Receiver × List ReceiveEffect
  unfolding fails decode_shared_note
  after_poll (ok bytes) r =
      if r.active
      then (elim (decode_shared_note W bytes) [
        | none ↦ fails none r
        | some n ↦ (at saves r, upserts n ∷ [])
      ])
      else (at over r, [])
  after_poll (throws e) r = fails (some e.kind) r
  after_poll escapes r = fails none r

  -- The effect runs on when what it awaits is settled; another result is of no one's.
  unfoldable pub receive : ReceiveEvent → Receiver → Receiver × List ReceiveEffect
  unfolding fails after_poll
  receive unmounts r =
      (record { phase = r.phase; active = false }, if r.active then aborts ∷ [] else [])
  receive (loaded b) r = elim r.phase [
    | loads ↦ if b then (at mints r, prepares ∷ []) else fails none r
    | mints ↦ (r, [])
    | polls ↦ (r, [])
    | saves ↦ (r, [])
    | over ↦ (r, [])
  ]
  receive (minted result) r = elim r.phase [
    | mints ↦ elim result [
      | ok code ↦
          if r.active then (at polls r, shows (waiting code) ∷ []) else (at over r, frees ∷ [])
      | throws e ↦ frees_first (fails (some e.kind) r)
      | escapes ↦ frees_first (fails none r)
    ]
    | loads ↦ (r, [])
    | polls ↦ (r, [])
    | saves ↦ (r, [])
    | over ↦ (r, [])
  ]
  receive (polled none) r = (r, [])
  receive (polled (some result)) r = elim r.phase [
    | polls ↦ frees_first (after_poll result r)
    | loads ↦ (r, [])
    | mints ↦ (r, [])
    | saves ↦ (r, [])
    | over ↦ (r, [])
  ]
  receive (saved result) r = elim r.phase [
    | saves ↦ elim result [
      | none ↦ fails none r
      | some entry ↦ (at over r, if r.active then shows received ∷ hands_over entry ∷ [] else [])
    ]
    | loads ↦ (r, [])
    | mints ↦ (r, [])
    | polls ↦ (r, [])
    | over ↦ (r, [])
  ]

  unfoldable pub receive_all : List ReceiveEvent → Receiver → Receiver × List ReceiveEffect
  unfolding receive
  receive_all [] r = (r, [])
  receive_all (e ∷ es) r =
      let (r1, out) = receive e r in let (r2, more) = receive_all es r1 in (r2, out ++ more)
