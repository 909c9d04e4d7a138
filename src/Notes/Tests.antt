-- ===== src/Notes/Tests.antt =====
-- packages/storage: the theorems on rows and pages, at a codec that prefixes a byte and at a table of three
-- notes, one of them archived.
use opfs_webauthn.Notes.Cursor.{has_colon}
use opfs_webauthn.Notes.Handles.{
  Balanced, HandleEvent, asks_db, calls_open_database, no_handles, opens_db, runs_on, with_db_run,
  with_db_run-Balanced, with_db_step,
}
use opfs_webauthn.Notes.Latest.{store_run-latest}
use opfs_webauthn.Notes.Order.{IsDistinct, StoredRow}
use opfs_webauthn.Notes.Paging.{RowIdCodec}
use opfs_webauthn.Notes.Store.{
  Load, StoreEvent, create_notes_store, error_of, finishes, notes, ready, set_show_archived,
  start_reload, store_run, store_step, toggles,
}
use opfs_webauthn.Notes.Worker.{serve, serve-narrow}
use opfs_webauthn.Prelude.{
  List, Option, Text, [], ap, arith, codes, false, map, none, refl, some, true, ℕ, ◌+◌, ◌-◌, ◌∷◌,
  ◌≡◌, ◌⊎◌,
}
use opfs_webauthn.Rpc.Client.{fulfilled, narrow}
use opfs_webauthn.Rpc.Protocol.{
  EncryptedNoteRow, Kind, WorkerRequest, WorkerResponse, error, request_kind, response,
}
use mathlib.Core.List.{Memᴰ}

abbrev encode : List ℕ → Text
encode bytes = 65 ∷ map (λ b. b + 100) bytes

decode_each : List ℕ → List ℕ
decode_each [] = []
decode_each (c ∷ cs) = (c - 100) ∷ decode_each cs

abbrev decode : Text → Option (List ℕ)
decode [] = none
decode (c ∷ cs) = some (decode_each cs)

decode_each-map : (bytes : List ℕ) → decode_each (map (λ b. b + 100) bytes) ≡ bytes
unfolding decode_each
decode_each-map [] = refl
decode_each-map (b ∷ bytes) = ground (arith, decode_each-map bytes)

has_colon-map : (bytes : List ℕ) → has_colon (map (λ b. b + 100) bytes) ≡ false
has_colon-map [] = refl
has_colon-map (b ∷ bytes) = ground (arith, has_colon-map bytes)

codec : RowIdCodec encode decode
codec = record {
  back = λ id l. ap some (decode_each-map id);
  plain = λ id l. has_colon-map id;
  filled = λ id l. refl;
}

abbrev id_of : ℕ → List ℕ
id_of n = n ∷ 0 ∷ 0 ∷ 0 ∷ 0 ∷ 0 ∷ 0 ∷ 0 ∷ 0 ∷ 0 ∷ 0 ∷ 0 ∷ 0 ∷ 0 ∷ 0 ∷ 0 ∷ []

abbrev row_of : (n day archived : ℕ) → StoredRow
row_of n day archived = record {
  id = id_of n;
  updated_day = day;
  archived = archived;
  title_nonce = [];
  title_ciphertext = n ∷ [];
  body_nonce = [];
  body_ciphertext = [];
}

abbrev three : List StoredRow
three = row_of 1 5 0 ∷ row_of 2 9 1 ∷ row_of 3 5 0 ∷ []

three-IsDistinct : IsDistinct three
three-IsDistinct =
    (((λ e. ground arith), ((λ e. ground arith), tt)), (((λ e. ground arith), tt), (tt, tt)))

abbrev new_row : EncryptedNoteRow
new_row = record {
  id = encode (id_of 2);
  updated_day = 11;
  archived = false;
  title_nonce = [];
  title_ciphertext = [];
  body_nonce = [];
  body_ciphertext = [];
}

-- The first load is on its way when the archive is shown: the second load ends first.
abbrev toggled : List StoreEvent
toggled = toggles true ∷ []

abbrev latest_load : Load
latest_load = record { generation = 2; include_archived = true }

store_run-latest_example :
    let s = store_run toggled create_notes_store in
    let u =
      store_run
        (finishes 1 (error_of (codes "late")) ∷ [])
        (store_step (finishes 2 (notes [])) s) in
    (u.state ≡ ready []) × (u.show_archived ≡ true)
unfolding store_run store_step create_notes_store start_reload set_show_archived
store_run-latest_example =
    store_run-latest toggled (finishes 1 (error_of (codes "late")) ∷ []) latest_load []
      (Memᴰ.head refl) refl ((λ p. ground arith), tt)

serve-narrow_example :
    let (out, closed, h) =
      serve encode decode 1 5
        (WorkerRequest.get_note (encode (id_of 3)))
        (codes "no")
        (some three)
        none in
    ((r : WorkerResponse) × (out ≡ response 5 r ∷ []) × (narrow Kind.get_note r ≡ fulfilled r))
    ⊎ ((out ≡ error 5 (codes "no") ∷ []) × (closed ≡ false) × (h.tx_applied ≡ []))
unfolding request_kind
serve-narrow_example =
    serve-narrow encode decode 1 5 (WorkerRequest.get_note (encode (id_of 3))) (codes "no")
      (some three) none

-- Two requests come before the database is open, the second of which opens it again, and then a third.
abbrev early : List HandleEvent
early = asks_db ∷ asks_db ∷ opens_db ∷ opens_db ∷ asks_db ∷ []

early-effects :
    (with_db_run early no_handles).1
    ≡ calls_open_database ∷ calls_open_database ∷ runs_on 0 ∷ runs_on 1 ∷ runs_on 1 ∷ []
unfolding with_db_run with_db_step
early-effects = refl

with_db_run-Balanced_example :
    let (s', out) = with_db_run early no_handles in Balanced early no_handles out s'
with_db_run-Balanced_example = with_db_run-Balanced early no_handles refl
