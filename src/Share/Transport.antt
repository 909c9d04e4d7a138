-- ===== src/Share/Transport.antt =====
-- packages/share-client/src/transport.ts, class RendezvousClient: what its methods make of what `fetch`
-- gives. The server is an argument: the answer to the one request that a method sends.
use opfs_webauthn.Prelude.{Bool, List, Option, if◌then◌else◌, leb, none, not, some, ℕ, ◌&&◌, ◌==◌}
use opfs_webauthn.Share.Errors.{
  Result, download_blob, escapes, fetch_rendezvous, mint, network, ok, plain,
  share_error_for_status, throws, upload_blob,
}
use opfs_webauthn.Share.Mint.{MintResponseParts, decode_mint_response}

-- A response, whose body may fail to arrive.
pub record Response : Type 0 where
  pub status : ℕ
  pub body : Option (List ℕ)

-- `none` is a `fetch` that rejects.
abbrev pub Answer : Type 0
Answer = Option Response

-- `response.ok`
abbrev pub is_ok : Response → Bool
is_ok r = leb 200 r.status && leb r.status 299

-- `networkSafe`: a rejection becomes a typed `network` error.
unfoldable pub network_safe {ℓ} : {A : Type ℓ} → Option A → Result A
network_safe none = throws (plain network)
network_safe (some x) = ok x

-- A body that is read without `networkSafe`.
abbrev read_plainly : Option (List ℕ) → Result (List ℕ)
read_plainly none = escapes
read_plainly (some bytes) = ok bytes

abbrev pub then_read {ℓ κ} : {A : Type ℓ} {B : Type κ} → Result A → (A → Result B) → Result B
then_read (ok x) f = f x
then_read (throws e) f = throws e
then_read escapes f = escapes

unfoldable pub mint_rendezvous : Answer → Result MintResponseParts
unfolding network_safe
mint_rendezvous answer = then_read (network_safe answer) (λ r.
    if not (is_ok r)
    then throws (share_error_for_status r.status mint)
    else then_read (network_safe r.body) decode_mint_response)

unfoldable pub fetch_epk : Answer → Result (List ℕ)
unfolding network_safe
fetch_epk answer = then_read (network_safe answer) (λ r.
    if not (is_ok r)
    then throws (share_error_for_status r.status fetch_rendezvous)
    else read_plainly r.body)

unfoldable pub upload_blob_to : Answer → Result (Unit {0})
unfolding network_safe
upload_blob_to answer =
    then_read (network_safe answer)
      (λ r. if not (is_ok r) then throws (share_error_for_status r.status upload_blob) else ok tt)

-- `none` says that the blob is not there yet.
unfoldable pub try_download_blob : Answer → Result (Option (List ℕ))
unfolding network_safe
try_download_blob answer = then_read (network_safe answer) (λ r.
    if is_ok r
    then then_read (read_plainly r.body) (λ bytes. ok (some bytes))
    else if r.status == 404
    then ok none
    else throws (share_error_for_status r.status download_blob))
