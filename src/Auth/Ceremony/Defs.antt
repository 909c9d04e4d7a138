-- ===== src/Auth/Ceremony/Defs.antt =====
-- packages/auth/src/ceremony.ts, `enroll` and `unlock`. The authenticator and the wasm core are parameters.
use opfs_webauthn.Auth.Store.{VaultCredential}
use opfs_webauthn.Prelude.{
  Bool, List, Option, Text, [], codes, false, if◌then◌else◌, none, some, true, ℕ, ◌++◌, ◌∷◌,
}

-- `AuthUnsupportedError`, `AuthCeremonyError`, and any other exception.
pub data AuthError : Type 0 where
  unsupported ceremony foreign : AuthError

pub data Attempt (A : Type 0) : Type 0 where
  done : A → Attempt A
  raises : AuthError → Attempt A

pub data Attachment : Type 0 where
  platform cross_platform : Attachment

unfoldable pub same_attachment : Attachment → Attachment → Bool
same_attachment platform platform = true
same_attachment platform cross_platform = false
same_attachment cross_platform platform = false
same_attachment cross_platform cross_platform = true

-- What the code reads of a `PublicKeyCredential`.
pub record Passkey : Type 0 where
  pub raw_id : List ℕ
  pub attachment : Option Attachment
  pub prf : Option (List ℕ)

-- How a call of `navigator.credentials` ends; `none` is `null`.
pub data Answer : Type 0 where
  answers : Option Passkey → Answer
  dom_exception : Answer
  other_exception : Answer

-- What the code asks of its surroundings, in order.
pub data AuthCall : Type 0 where
  loads_wasm : AuthCall
  creates_passkey : (rp_id : Text) (salt : List ℕ) (attachment : Option Attachment) → AuthCall
  gets_passkey : (rp_id : Text) (id salt : List ℕ) → AuthCall
  makes_vault frees_result opens_vault : AuthCall

-- The page's surroundings: whether there is WebAuthn and whether the wasm core loads, `location.hostname`
-- where there is one, the answers of `create` and `get`, and the functions of `CryptoVault`. An
-- enrolment gives a vault, a wrapped key and a nonce; `none` is an exception.
pub record Platform : Type 1 where
  pub CryptoVault : Type 0
  pub has_credentials : Bool
  pub loads : Bool
  pub hostname : Option Text
  pub create : Text → List ℕ → Option Attachment → Answer
  pub get : Text → List ℕ → List ℕ → Answer
  pub enroll_vault : List ℕ → List ℕ → Option (CryptoVault × List ℕ × List ℕ)
  pub unlock_vault : List ℕ → List ℕ → List ℕ → List ℕ → Option CryptoVault

abbrev pub Action : Type 0 → Type 0
Action A = Attempt A × List AuthCall

abbrev pub then_do : {A B : Type 0} → Attempt A → List AuthCall → (A → Action B) → Action B
then_do (done a) out f = let (r, more) = f a in (r, out ++ more)
then_do (raises e) out f = (raises e, out)

infixl 5 ◌>>=◌ ◌>>◌
abbrev pub ◌>>=◌ : {A B : Type 0} → Action A → (A → Action B) → Action B
m >>= f = then_do m.0 m.1 f

abbrev pub ◌>>◌ : {B : Type 0} → Action (Unit {0}) → Action B → Action B
m >> k = m >>= λ _. k

abbrev pub expect : {A : Type 0} → AuthError → Option A → Action A
expect e none = (raises e, [])
expect e (some a) = (done a, [])

abbrev pub demand : AuthError → Bool → Action (Unit {0})
demand e false = (raises e, [])
demand e true = (done tt, [])

unfoldable pub resolve_rp_id : Option Text → Option Text → Action Text
resolve_rp_id (some (c ∷ id)) host = (done (c ∷ id), [])
resolve_rp_id _ (some (c ∷ host)) = (done (c ∷ host), [])
resolve_rp_id _ (some []) = (done (codes "localhost"), [])
resolve_rp_id _ none = (raises ceremony, [])

unfoldable pub run_ceremony : AuthCall → Answer → Action (Option Passkey)
run_ceremony call (answers p) = (done p, call ∷ [])
run_ceremony call dom_exception = (raises ceremony, call ∷ [])
run_ceremony call other_exception = (raises foreign, call ∷ [])

unfoldable pub honours : Option Attachment → Option Attachment → Bool
unfolding same_attachment
honours none actual = true
honours (some a) none = false
honours (some a) (some b) = same_attachment b a

module _ (P : Platform) where
  open P use {
    CryptoVault, has_credentials, loads, hostname, create, get, enroll_vault, unlock_vault,
  }

  unfoldable pub load_wasm : Action (Unit {0})
  load_wasm = (if loads then done tt else raises foreign, loads_wasm ∷ [])

  -- An assertion of a passkey, and the PRF output that comes with it.
  unfoldable pub assertion_output : Text → List ℕ → List ℕ → Action (List ℕ)
  unfolding run_ceremony
  assertion_output rp_id id salt = do
    answer ← run_ceremony (gets_passkey rp_id id salt) (get rp_id id salt)
    assertion ← expect ceremony answer
    expect unsupported assertion.prf

  -- The PRF output of the new passkey, or that of an assertion if `create` gave none.
  unfoldable pub prf_output : Text → List ℕ → Passkey → Action (List ℕ)
  unfolding assertion_output
  prf_output rp_id salt passkey = elim passkey.prf [
    | some output ↦ (done output, [])
    | none ↦ assertion_output rp_id passkey.raw_id salt
  ]

  unfoldable pub make_vault :
      Text → List ℕ → ℕ → Passkey → List ℕ → Action (CryptoVault × VaultCredential ℕ)
  make_vault rp_id salt now passkey output = elim (enroll_vault output salt) [
    | none ↦ (raises foreign, makes_vault ∷ [])
    | some (vault, wrapped_dek, wrap_nonce) ↦ (
      done (
        vault,
        record {
          credential_id = passkey.raw_id;
          prf_salt = salt;
          wrapped_dek = wrapped_dek;
          wrap_nonce = wrap_nonce;
          rp_id = rp_id;
          created_at = now;
        },
      ),
      makes_vault ∷ frees_result ∷ [],
    )
  ]

  -- The ceremony and what follows it, for the rp id that was resolved.
  unfoldable pub enroll_with :
      Option Attachment → List ℕ → ℕ → Text → Action (CryptoVault × VaultCredential ℕ)
  unfolding run_ceremony honours prf_output make_vault
  enroll_with attachment salt now rp_id = do
    answer ← run_ceremony (creates_passkey rp_id salt attachment) (create rp_id salt attachment)
    passkey ← expect ceremony answer
    demand unsupported (honours attachment passkey.attachment)
    output ← prf_output rp_id salt passkey
    make_vault rp_id salt now passkey output

  -- The options' rp id and attachment, the random salt and the clock.
  unfoldable pub enroll :
      Option Text → Option Attachment → List ℕ → ℕ → Action (CryptoVault × VaultCredential ℕ)
  unfolding load_wasm resolve_rp_id enroll_with
  enroll rp_option attachment salt now = do
    demand unsupported has_credentials
    load_wasm
    rp_id ← resolve_rp_id rp_option hostname
    enroll_with attachment salt now rp_id

  unfoldable pub open_vault : VaultCredential ℕ → List ℕ → Action CryptoVault
  open_vault c output = elim (unlock_vault output c.prf_salt c.wrapped_dek c.wrap_nonce) [
    | none ↦ (raises foreign, opens_vault ∷ [])
    | some vault ↦ (done vault, opens_vault ∷ [])
  ]

  unfoldable pub unlock : VaultCredential ℕ → Action CryptoVault
  unfolding load_wasm assertion_output open_vault
  unlock c = do
    demand unsupported has_credentials
    load_wasm
    output ← assertion_output c.rp_id c.credential_id c.prf_salt
    open_vault c output
