-- ===== src/Rpc/Protocol.antt =====
-- packages/storage/src/rpc.ts and row.ts: the messages of the protocol.
use opfs_webauthn.Prelude.{Bool, List, Option, Text, codes, false, none, some, true, ℕ}

-- A row as it lives in the database and crosses the worker boundary.
pub record EncryptedNoteRow : Type 0 where
  pub id : Text
  pub updated_day : ℕ
  pub archived : Bool
  pub title_nonce : List ℕ
  pub title_ciphertext : List ℕ
  pub body_nonce : List ℕ
  pub body_ciphertext : List ℕ

pub data WorkerRequest : Type 0 where
  bootstrap : WorkerRequest
  ping : WorkerRequest
  list_notes : (limit : ℕ) (cursor : Option Text) (include_archived : Bool) → WorkerRequest
  upsert_note : EncryptedNoteRow → WorkerRequest
  get_note : Text → WorkerRequest
  archive_note : Text → WorkerRequest
  delete_note : Text → WorkerRequest
  close : WorkerRequest

pub data WorkerResponse : Type 0 where
  bootstrap : (schema_version : ℕ) → WorkerResponse
  ping : WorkerResponse
  list_notes : (rows : List EncryptedNoteRow) (next_cursor : Option Text) → WorkerResponse
  upsert_note : EncryptedNoteRow → WorkerResponse
  get_note : Option EncryptedNoteRow → WorkerResponse
  archive_note : WorkerResponse
  delete_note : WorkerResponse
  close : WorkerResponse

-- The tag `kind` that a request and its response share.
pub data Kind : Type 0 where
  bootstrap ping list_notes upsert_note get_note archive_note delete_note close : Kind

unfoldable pub request_kind : WorkerRequest → Kind
request_kind WorkerRequest.bootstrap = Kind.bootstrap
request_kind WorkerRequest.ping = Kind.ping
request_kind (WorkerRequest.list_notes _ _ _) = Kind.list_notes
request_kind (WorkerRequest.upsert_note _) = Kind.upsert_note
request_kind (WorkerRequest.get_note _) = Kind.get_note
request_kind (WorkerRequest.archive_note _) = Kind.archive_note
request_kind (WorkerRequest.delete_note _) = Kind.delete_note
request_kind WorkerRequest.close = Kind.close

unfoldable pub response_kind : WorkerResponse → Kind
response_kind (WorkerResponse.bootstrap _) = Kind.bootstrap
response_kind WorkerResponse.ping = Kind.ping
response_kind (WorkerResponse.list_notes _ _) = Kind.list_notes
response_kind (WorkerResponse.upsert_note _) = Kind.upsert_note
response_kind (WorkerResponse.get_note _) = Kind.get_note
response_kind WorkerResponse.archive_note = Kind.archive_note
response_kind WorkerResponse.delete_note = Kind.delete_note
response_kind WorkerResponse.close = Kind.close

unfoldable pub kind_name : Kind → Text
kind_name Kind.bootstrap = codes "bootstrap"
kind_name Kind.ping = codes "ping"
kind_name Kind.list_notes = codes "listNotes"
kind_name Kind.upsert_note = codes "upsertNote"
kind_name Kind.get_note = codes "getNote"
kind_name Kind.archive_note = codes "archiveNote"
kind_name Kind.delete_note = codes "deleteNote"
kind_name Kind.close = codes "close"

pub Kind-discrete : Discrete Kind
Kind-discrete = hlevel

-- What travels over a port or a pair channel: the client's envelope, the two envelopes of the
-- server, and `stray` for a value that carries no numeric `id`.
pub data Message : Type 0 where
  request : ℕ → WorkerRequest → Message
  response : ℕ → WorkerResponse → Message
  error : ℕ → Text → Message
  stray : Text → Message

abbrev pub respond : ℕ → WorkerResponse → Message
respond id r = response id r

abbrev pub fail : ℕ → Text → Message
fail id message = error id message

-- `envelopeId`, and `{ ...data, id }` on an envelope that has one.
unfoldable pub envelope_id : Message → Option ℕ
envelope_id (request id req) = some id
envelope_id (response id r) = some id
envelope_id (error id message) = some id
envelope_id (stray s) = none

unfoldable pub with_id : ℕ → Message → Message
with_id n (request id req) = request n req
with_id n (response id r) = response n r
with_id n (error id message) = error n message
with_id n (stray s) = stray s

-- Does a client ask to be closed?
unfoldable pub is_close : Message → Bool
is_close (request id WorkerRequest.close) = true
is_close (request id req) = false
is_close (response id r) = false
is_close (error id message) = false
is_close (stray s) = false

-- The two kinds that end a request.
unfoldable pub is_final : Message → Bool
is_final (request id req) = false
is_final (response id r) = true
is_final (error id message) = true
is_final (stray s) = false
