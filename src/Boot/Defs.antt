-- ===== src/Boot/Defs.antt =====
-- packages/storage/src/index.ts, `createRepo` and `bootRepo`.
use opfs_webauthn.Prelude.{
  Bool, List, Option, Text, [], codes, false, if◌then◌else◌, includes, none, some, ◌++◌, ◌∷◌,
}

-- What was thrown: an `Error` with its message, a string, or another value.
pub data Thrown : Type 0 where
  error string : Text → Thrown
  other : Thrown

pub data Tier : Type 0 where
  given shared leader dedicated : Tier

pub data BootEffect : Type 0 where
  opens bootstraps closes : Tier → BootEffect

pub data Booted : Type 0 where
  repo : Tier → Booted
  fails : Thrown → Booted

-- What the page meets. An optional value is what is thrown, `none` if all is well: by `ensureWasm`, by the
-- making of a transport, by `whenReady`, and by the first request over each transport.
pub record World : Type 0 where
  pub wasm : Option Thrown
  pub has_transport : Bool
  pub given_boot : Option Thrown
  pub supports_shared_worker : Bool
  pub shared_made : Option Thrown
  pub shared_boot : Option Thrown
  pub has_leader : Bool
  pub leader_made : Option Thrown
  pub leader_ready : Option Thrown
  pub leader_boot : Option Thrown
  pub dedicated_made : Option Thrown
  pub dedicated_boot : Option Thrown

abbrev pub opfs_unavailable_marker : Text
opfs_unavailable_marker = codes "Missing required OPFS APIs"

unfoldable pub is_opfs_unavailable : Thrown → Bool
unfolding includes
is_opfs_unavailable (error message) = includes opfs_unavailable_marker message
is_opfs_unavailable (string s) = includes opfs_unavailable_marker s
is_opfs_unavailable other = false

abbrev pub after : List BootEffect → Booted × List BootEffect → Booted × List BootEffect
after out (r, more) = (r, out ++ more)

-- A client that cannot bootstrap is terminated, which closes its transport.
unfoldable pub boot_repo : Tier → Option Thrown → Booted × List BootEffect
boot_repo t none = (repo t, bootstraps t ∷ [])
boot_repo t (some e) = (fails e, bootstraps t ∷ closes t ∷ [])

unfoldable pub boot_dedicated : World → Booted × List BootEffect
unfolding boot_repo
boot_dedicated w = elim w.dedicated_made [
  | some e ↦ (fails e, [])
  | none ↦ after (opens dedicated ∷ []) (boot_repo dedicated w.dedicated_boot)
]

-- A failed leader is closed before the dedicated worker is made. An exception while the leader's transport is
-- made is thrown on, since it comes before the `try`.
unfoldable pub boot_leader : World → Booted × List BootEffect
unfolding boot_dedicated
boot_leader w =
    if w.has_leader
    then (elim w.leader_made [
      | some e ↦ (fails e, [])
      | none ↦ elim w.leader_ready [
        | some e ↦ after (opens leader ∷ closes leader ∷ []) (boot_dedicated w)
        | none ↦ elim w.leader_boot [
          | none ↦ (repo leader, opens leader ∷ bootstraps leader ∷ [])
          | some e ↦
              after (opens leader ∷ bootstraps leader ∷ closes leader ∷ closes leader ∷ [])
                (boot_dedicated w)
        ]
      ]
    ])
    else boot_dedicated w

unfoldable pub boot_shared : World → Booted × List BootEffect
unfolding boot_leader is_opfs_unavailable
boot_shared w =
    if w.supports_shared_worker
    then (elim w.shared_made [
      | some e ↦ if is_opfs_unavailable e then boot_leader w else (fails e, [])
      | none ↦ elim w.shared_boot [
        | none ↦ (repo shared, opens shared ∷ bootstraps shared ∷ [])
        | some e ↦
            after (opens shared ∷ bootstraps shared ∷ closes shared ∷ [])
              (if is_opfs_unavailable e then boot_leader w else (fails e, []))
      ]
    ])
    else boot_leader w

unfoldable pub create_repo : World → Booted × List BootEffect
unfolding boot_shared boot_repo
create_repo w = elim w.wasm [
  | some e ↦ (fails e, [])
  | none ↦ if w.has_transport then boot_repo given w.given_boot else boot_shared w
]
