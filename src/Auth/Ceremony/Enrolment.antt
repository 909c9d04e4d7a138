-- ===== src/Auth/Ceremony/Enrolment.antt =====
-- packages/auth/src/ceremony.ts: a vault that is enrolled can be unlocked, and what an enrolment gives back.
use opfs_webauthn.Auth.Ceremony.Defs.{
  Action, Answer, Attachment, Attempt, AuthCall, AuthError, Passkey, Platform, answers,
  assertion_output, demand, dom_exception, done, enroll, enroll_with, expect, honours, load_wasm,
  make_vault, open_vault, other_exception, prf_output, raises, resolve_rp_id, run_ceremony, then_do,
  unlock, ◌>>=◌,
}
use opfs_webauthn.Auth.Store.{VaultCredential}
use opfs_webauthn.Prelude.{
  Bool, Bool-cases, List, Option, Option-cases, Text, ap, arith, false, inl, inr, none, refl, some,
  subst, sym, true, ℕ, ◌∙◌, ◌≡◌, ◌⊎◌,
}

-- What the ceremonies rely on. The authenticator's PRF output depends on the passkey and the salt only, and
-- what the core wraps under an output it unwraps under the same.
pub record PlatformLaws (P : Platform) : Type 1 where
  pub stable :
      (rp_id : Text) (salt : List ℕ) (attachment : Option Attachment) (passkey : Passkey)
      (output : List ℕ)
      → P.create rp_id salt attachment ≡ answers (some passkey)
      → passkey.prf ≡ some output
      → (assertion : Passkey) × (P.get rp_id passkey.raw_id salt ≡ answers (some assertion))
        × (assertion.prf ≡ some output)
  pub unwraps :
      (output salt wrapped nonce : List ℕ) (vault : P.CryptoVault)
      → P.enroll_vault output salt ≡ some (vault, wrapped, nonce)
      → P.unlock_vault output salt wrapped nonce ≡ some vault

-- A result that is there has gone through the first step.
then_do-done :
    {A B : Type 0} (r : Attempt A) (out : List AuthCall) (f : A → Action B) (b : B)
    → (then_do r out f).0 ≡ done b
    → (a : A) × (r ≡ done a) × ((f a).0 ≡ done b)
then_do-done (done a) out f b h = (a, refl, h)
then_do-done (raises e) out f b h = cc

expect-done :
    {A : Type 0} (e : AuthError) (o : Option A) (a : A) → (expect e o).0 ≡ done a → o ≡ some a
expect-done e none a h = cc
expect-done e (some b) a h = ground arith

run_ceremony-done :
    (call : AuthCall) (a : Answer) (p : Option Passkey)
    → (run_ceremony call a).0 ≡ done p
    → a ≡ answers p
unfolding run_ceremony
run_ceremony-done call (answers q) p h = ground arith
run_ceremony-done call dom_exception p h = cc
run_ceremony-done call other_exception p h = cc

demand-done : (e : AuthError) (b : Bool) (u : Unit {0}) → (demand e b).0 ≡ done u → b ≡ true
demand-done e false u h = cc
demand-done e true u h = refl

module _ (P : Platform) where
  open P use {CryptoVault, has_credentials, loads, create, get, hostname, enroll_vault}

  -- What has happened when an enrolment returns.
  pub record Enrolled (attachment : Option Attachment) (salt : List ℕ) (vault : CryptoVault)
      (c : VaultCredential ℕ) : Type 0 where
    pub passkey : Passkey
    pub output : List ℕ
    pub online : (has_credentials ≡ true) × (loads ≡ true)
    pub salted : c.prf_salt ≡ salt
    pub named : c.credential_id ≡ passkey.raw_id
    pub created : create c.rp_id salt attachment ≡ answers (some passkey)
    pub honoured : honours attachment passkey.attachment ≡ true
    pub source :
        (passkey.prf ≡ some output)
        ⊎ ((assertion : Passkey) × (get c.rp_id passkey.raw_id salt ≡ answers (some assertion))
            × (assertion.prf ≡ some output))
    pub wrapped : enroll_vault output salt ≡ some (vault, c.wrapped_dek, c.wrap_nonce)

  load_wasm-done : (u : Unit {0}) → (load_wasm P).0 ≡ done u → loads ≡ true
  unfolding load_wasm
  load_wasm-done u h = ground arith

  assertion_output-done :
      (rp_id : Text) (id salt output : List ℕ)
      → (assertion_output P rp_id id salt).0 ≡ done output
      → (assertion : Passkey) × (get rp_id id salt ≡ answers (some assertion))
        × (assertion.prf ≡ some output)
  unfolding assertion_output
  assertion_output-done rp_id id salt output h =
      let (answer, a, h1) = then_do-done _ _ _ _ h in
      let (assertion, b, h2) = then_do-done _ _ _ _ h1 in
      (
        assertion,
        run_ceremony-done _ _ _ a ∙ ap answers (expect-done _ _ _ b),
        expect-done _ _ _ h2,
      )

  prf_output-done :
      (rp_id : Text) (salt : List ℕ) (passkey : Passkey) (output : List ℕ)
      → (prf_output P rp_id salt passkey).0 ≡ done output
      → (passkey.prf ≡ some output)
        ⊎ ((assertion : Passkey) × (get rp_id passkey.raw_id salt ≡ answers (some assertion))
            × (assertion.prf ≡ some output))
  unfolding prf_output
  prf_output-done rp_id salt passkey output h = elim (Option-cases passkey.prf) [
    | inr (o, e) ↦ inl (ground arith)
    | inl e ↦ inr (assertion_output-done rp_id passkey.raw_id salt output (ground arith))
  ]

  make_vault-done :
      (rp_id : Text) (salt : List ℕ) (now : ℕ) (passkey : Passkey) (output : List ℕ)
      (vault : CryptoVault) (c : VaultCredential ℕ)
      → (make_vault P rp_id salt now passkey output).0 ≡ done (vault, c)
      → (enroll_vault output salt ≡ some (vault, c.wrapped_dek, c.wrap_nonce))
        × (c.rp_id ≡ rp_id)
        × (c.prf_salt ≡ salt)
        × (c.credential_id ≡ passkey.raw_id)
  unfolding make_vault
  make_vault-done rp_id salt now passkey output vault c h =
      elim (Option-cases (enroll_vault output salt)) [
        | inl e ↦ ground arith
        | inr ((v, w, n), e) ↦ ground arith
      ]

  enroll_with-Enrolled :
      (attachment : Option Attachment) (salt : List ℕ) (now : ℕ) (rp_id : Text)
      (vault : CryptoVault) (c : VaultCredential ℕ)
      → (has_credentials ≡ true) × (loads ≡ true)
      → (enroll_with P attachment salt now rp_id).0 ≡ done (vault, c)
      → Enrolled attachment salt vault c
  unfolding enroll_with
  enroll_with-Enrolled attachment salt now rp_id vault c online h =
      let (answer, a, h1) = then_do-done _ _ _ _ h in
      let (passkey, b, h2) = then_do-done _ _ _ _ h1 in
      let (u, good, h3) = then_do-done _ _ _ _ h2 in
      let (output, o, h4) = then_do-done _ _ _ _ h3 in
      let (sealed, named, salted, id) = make_vault-done rp_id salt now passkey output vault c h4 in
      let made : create rp_id salt attachment ≡ answers (some passkey) =
        run_ceremony-done _ _ _ a ∙ ap answers (expect-done _ _ _ b) in
      record {
        passkey = passkey;
        output = output;
        online = online;
        salted = salted;
        named = id;
        created = ap (λ r. create r salt attachment) named ∙ made;
        honoured = demand-done _ _ _ good;
        source =
            subst
              (λ r.
                (passkey.prf ≡ some output)
                ⊎ ((assertion : Passkey) × (get r passkey.raw_id salt ≡ answers (some assertion))
                    × (assertion.prf ≡ some output)))
              (sym named) (prf_output-done rp_id salt passkey output o);
        wrapped = sealed;
      }

  enroll-Enrolled :
      (rp_option : Option Text) (attachment : Option Attachment) (salt : List ℕ) (now : ℕ)
      (vault : CryptoVault) (c : VaultCredential ℕ)
      → (enroll P rp_option attachment salt now).0 ≡ done (vault, c)
      → Enrolled attachment salt vault c
  unfolding enroll load_wasm
  enroll-Enrolled rp_option attachment salt now vault c h =
      let follow = λ (id : Text). enroll_with P attachment salt now id in
      elim (Bool-cases has_credentials) [
        | inr off ↦ absurd (ground arith)
        | inl there ↦ elim (Bool-cases loads) [
          | inr off ↦ absurd (ground arith)
          | inl loaded ↦
              let h' : (resolve_rp_id rp_option hostname >>= follow).0 ≡ done (vault, c) =
                ground arith in
              let (rp_id, r, h1) =
                then_do-done (resolve_rp_id rp_option hostname).0
                  (resolve_rp_id rp_option hostname).1 follow (vault, c) h' in
              enroll_with-Enrolled attachment salt now rp_id vault c (there, loaded) h1
        ]
      ]

module _ (P : Platform) (L : PlatformLaws P) where
  open L use {stable, unwraps}

  unlock-answers :
      (c : VaultCredential ℕ) (assertion : Passkey) (output : List ℕ) (vault : P.CryptoVault)
      → (P.has_credentials ≡ true) × (P.loads ≡ true)
      → P.get c.rp_id c.credential_id c.prf_salt ≡ answers (some assertion)
      → assertion.prf ≡ some output
      → P.unlock_vault output c.prf_salt c.wrapped_dek c.wrap_nonce ≡ some vault
      → (unlock P c).0 ≡ done vault
  unfolding unlock load_wasm assertion_output run_ceremony open_vault
  unlock-answers c assertion output vault (there, loaded) g p u = ground arith

  -- What the authenticator answers to an unlocking.
  reply :
      (attachment : Option Attachment) (salt : List ℕ) (vault : P.CryptoVault)
      (c : VaultCredential ℕ) (e : Enrolled P attachment salt vault c)
      → (assertion : Passkey) × (P.get c.rp_id c.credential_id c.prf_salt
          ≡ answers (some assertion))
        × (assertion.prf ≡ some e.output)
  reply attachment salt vault c e = elim e.source [
    | inl p ↦
        let (a, g, q) = stable c.rp_id salt attachment e.passkey e.output e.created p in
        (a, rw (e.named, e.salted) g, q)
    | inr (a, g, q) ↦ (a, rw (e.named, e.salted) g, q)
  ]

  -- A vault that was enrolled can be unlocked. If `enroll` returns a vault and a credential, then
  -- `unlock` with that credential, on the same platform with the same authenticator, gives the vault;
  -- and if the caller asked for an attachment, the passkey that was made reports it. The authenticator's
  -- PRF output depends on the passkey and the salt only, and the core unwraps what it wrapped.
  pub unlock-enroll :
      (rp_option : Option Text) (attachment : Option Attachment) (salt : List ℕ) (now : ℕ)
      (vault : P.CryptoVault) (c : VaultCredential ℕ)
      → (enroll P rp_option attachment salt now).0 ≡ done (vault, c)
      → ((unlock P c).0 ≡ done vault)
        × ((passkey : Passkey) × (P.create c.rp_id salt attachment ≡ answers (some passkey))
            × (passkey.raw_id ≡ c.credential_id)
            × (honours attachment passkey.attachment ≡ true))
  unlock-enroll rp_option attachment salt now vault c h =
      let e = enroll-Enrolled P rp_option attachment salt now vault c h in
      let (assertion, g, p) = reply attachment salt vault c e in
      (
        unlock-answers c assertion e.output vault e.online g p
            (rw e.salted (unwraps e.output salt c.wrapped_dek c.wrap_nonce vault e.wrapped)),
        (e.passkey, e.created, sym e.named, e.honoured),
      )
