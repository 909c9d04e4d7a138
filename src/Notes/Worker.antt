-- ===== src/Notes/Worker.antt =====
-- packages/storage/src/worker-handlers.ts, `createDispatcher`, and connection.ts, class Connection: the
-- worker's answer to one request. Requests are handled one after the other.
use opfs_webauthn.Notes.Order.{StoredRow}
use opfs_webauthn.Notes.Table.{archive_row, delete_row, get_row, list_page, upsert_row}
use opfs_webauthn.Prelude.{
  Bool, List, Option, Option-cases, Text, [], ap, arith, false, inl, inr, none, refl, some, sym, ℕ,
  ◌∙◌, ◌∷◌, ◌≡◌, ◌⊎◌,
}
use opfs_webauthn.Rpc.Client.{fulfilled, mismatch, narrow, rejected}
use opfs_webauthn.Rpc.Protocol.{
  EncryptedNoteRow, Kind, Kind-discrete, Message, WorkerRequest, WorkerResponse, error, fail,
  is_close, request, request_kind, respond, response, response_kind,
}
use mathlib.Core.Option
use mathlib.Core.Logic.{if_pos}

-- What a handler does: the open database after it, its response (`none` where it throws), and the ids of
-- the `tx-applied` notifications that it broadcasts.
pub record Handled : Type 0 where
  pub db : Option (List StoredRow)
  pub response : Option WorkerResponse
  pub tx_applied : List Text

abbrev answers : List StoredRow → Option WorkerResponse → Handled
answers table r = record { db = some table; response = r; tx_applied = [] }

-- The codec of row ids, and the schema version.
module _ (encode_row_id : List ℕ → Text) (decode_row_id : Text → Option (List ℕ))
    (schema_version : ℕ) where
  writes : Text → WorkerResponse → List StoredRow → Option (List StoredRow) → Handled
  writes id r table none = answers table none
  writes id r table (some table') = record {
    db = some table';
    response = some r;
    tx_applied = id ∷ [];
  }

  -- The handlers that need the database, once it is open.
  handle : WorkerRequest → List StoredRow → Handled
  unfolding writes
  handle WorkerRequest.bootstrap table =
      answers table (some (WorkerResponse.bootstrap schema_version))
  handle (WorkerRequest.list_notes limit cursor include_archived) table = answers table (
      Option.map
        (λ (page : List EncryptedNoteRow × Option Text). WorkerResponse.list_notes page.0 page.1)
        (list_page encode_row_id decode_row_id limit cursor include_archived table))
  handle (WorkerRequest.upsert_note row) table =
      writes row.id (WorkerResponse.upsert_note row) table (
        Option.map (λ (r : List StoredRow × EncryptedNoteRow). r.0)
          (upsert_row encode_row_id decode_row_id row table))
  handle (WorkerRequest.get_note id) table =
      answers table
        (Option.map WorkerResponse.get_note (get_row encode_row_id decode_row_id id table))
  handle (WorkerRequest.archive_note id) table =
      writes id WorkerResponse.archive_note table (archive_row encode_row_id decode_row_id id table)
  handle (WorkerRequest.delete_note id) table =
      writes id WorkerResponse.delete_note table (delete_row encode_row_id decode_row_id id table)
  handle WorkerRequest.ping table = answers table (some WorkerResponse.ping)
  handle WorkerRequest.close table = answers table (some WorkerResponse.close)

  -- `withDb`: a database that is not open yet is opened, if `opening` gives one.
  with_db : WorkerRequest → (db opening : Option (List StoredRow)) → Handled
  unfolding handle
  with_db req (some table) opening = handle req table
  with_db req none (some table) = handle req table
  with_db req none none = record { db = none; response = none; tx_applied = [] }

  unfoldable pub dispatch : WorkerRequest → (db opening : Option (List StoredRow)) → Handled
  unfolding with_db
  dispatch WorkerRequest.ping db opening = record {
    db = db;
    response = some WorkerResponse.ping;
    tx_applied = [];
  }
  dispatch WorkerRequest.close db opening = record {
    db = db;
    response = some WorkerResponse.close;
    tx_applied = [];
  }
  dispatch req db opening = with_db req db opening

  -- What a connection posts for a request, and whether it is disposed of then. `reason` is the message of
  -- what the dispatcher threw.
  unfoldable pub serve :
      (id : ℕ) (req : WorkerRequest) (reason : Text) (db opening : Option (List StoredRow))
      → List Message × Bool × Handled
  unfolding dispatch
  serve id req reason db opening =
      let h : Handled = dispatch req db opening in
      elim h.response [
        | none ↦ (fail id reason ∷ [], false, h)
        | some r ↦ (respond id r ∷ [], is_close (request id req), h)
      ]

  -- A handler's response is of the kind of its request, and one that throws broadcasts nothing.
  abbrev Fits : WorkerRequest → Handled → Type 0
  Fits req h =
      ((r : WorkerResponse) → h.response ≡ some r → response_kind r ≡ request_kind req)
      × (h.response ≡ none → h.tx_applied ≡ [])

  writes-Fits :
      (id : Text) (req : WorkerRequest) (r : WorkerResponse) (table : List StoredRow)
      (table' : Option (List StoredRow))
      → response_kind r ≡ request_kind req
      → Fits req (writes id r table table')
  unfolding writes
  writes-Fits id req r table none k = ((λ r e. cc), λ e. refl)
  writes-Fits id req r table (some t) k =
      ((λ r' e. ground (arith, ap response_kind (sym (some-inj r r' e)))), λ e. cc)
    where
      some-inj : (a b : WorkerResponse) → some a ≡ some b → a ≡ b
      some-inj a b e = ground arith

  map-kind :
      {A : Type 0} (f : A → WorkerResponse) (kind : Kind) (x : Option A) (r : WorkerResponse)
      → ((a : A) → response_kind (f a) ≡ kind)
      → Option.map f x ≡ some r
      → response_kind r ≡ kind
  map-kind f kind none r k e = cc
  map-kind f kind (some a) r k e = ap response_kind (sym (inj (f a) r e)) ∙ k a
    where
      inj : (a b : WorkerResponse) → some a ≡ some b → a ≡ b
      inj a b e = ground arith

  handle-Fits : (req : WorkerRequest) (table : List StoredRow) → Fits req (handle req table)
  unfolding handle request_kind response_kind
  handle-Fits WorkerRequest.bootstrap table = ((λ r e. ground arith), λ e. refl)
  handle-Fits (WorkerRequest.list_notes limit cursor include_archived) table =
      ((λ r e. map-kind _ Kind.list_notes _ r (λ a. refl) e), λ e. refl)
  handle-Fits (WorkerRequest.upsert_note row) table =
      writes-Fits row.id (WorkerRequest.upsert_note row) (WorkerResponse.upsert_note row) table _
        refl
  handle-Fits (WorkerRequest.get_note id) table =
      ((λ r e. map-kind _ Kind.get_note _ r (λ a. refl) e), λ e. refl)
  handle-Fits (WorkerRequest.archive_note id) table =
      writes-Fits id (WorkerRequest.archive_note id) WorkerResponse.archive_note table _ refl
  handle-Fits (WorkerRequest.delete_note id) table =
      writes-Fits id (WorkerRequest.delete_note id) WorkerResponse.delete_note table _ refl
  handle-Fits WorkerRequest.ping table = ((λ r e. ground arith), λ e. refl)
  handle-Fits WorkerRequest.close table = ((λ r e. ground arith), λ e. refl)

  with_db-Fits :
      (req : WorkerRequest) (db opening : Option (List StoredRow))
      → Fits req (with_db req db opening)
  unfolding with_db
  with_db-Fits req (some table) opening = handle-Fits req table
  with_db-Fits req none (some table) = handle-Fits req table
  with_db-Fits req none none = ((λ r e. cc), λ e. refl)

  dispatch-Fits :
      (req : WorkerRequest) (db opening : Option (List StoredRow))
      → Fits req (dispatch req db opening)
  unfolding dispatch request_kind response_kind
  dispatch-Fits WorkerRequest.ping db opening = ((λ r e. ground arith), λ e. refl)
  dispatch-Fits WorkerRequest.close db opening = ((λ r e. ground arith), λ e. refl)
  dispatch-Fits WorkerRequest.bootstrap db opening = with_db-Fits WorkerRequest.bootstrap db opening
  dispatch-Fits (WorkerRequest.list_notes limit cursor i) db opening =
      with_db-Fits (WorkerRequest.list_notes limit cursor i) db opening
  dispatch-Fits (WorkerRequest.upsert_note row) db opening =
      with_db-Fits (WorkerRequest.upsert_note row) db opening
  dispatch-Fits (WorkerRequest.get_note id) db opening =
      with_db-Fits (WorkerRequest.get_note id) db opening
  dispatch-Fits (WorkerRequest.archive_note id) db opening =
      with_db-Fits (WorkerRequest.archive_note id) db opening
  dispatch-Fits (WorkerRequest.delete_note id) db opening =
      with_db-Fits (WorkerRequest.delete_note id) db opening

  -- The worker answers each request with one envelope under its id: a response that the guard of the
  -- client's `send` lets through, or an error, and then nothing is broadcast.
  pub serve-narrow :
      (id : ℕ) (req : WorkerRequest) (reason : Text) (db opening : Option (List StoredRow))
      → let (out, closed, h) = serve id req reason db opening in
        ((r : WorkerResponse) × (out ≡ response id r ∷ [])
          × (narrow (request_kind req) r ≡ fulfilled r))
        ⊎ ((out ≡ error id reason ∷ []) × (closed ≡ false) × (h.tx_applied ≡ []))
  unfolding serve narrow
  serve-narrow id req reason db opening = elim (Option-cases (dispatch req db opening).response) [
    | inl e ↦ inr (ground arith, ground arith, ground (arith, (dispatch-Fits req db opening).1 e))
    | inr (r, e) ↦ inl (
      r,
      ground arith,
      if_pos (Kind-discrete (response_kind r) (request_kind req))
          ((dispatch-Fits req db opening).0 r e) (fulfilled r)
          (rejected (mismatch (response_kind r) (request_kind req))),
    )
  ]
