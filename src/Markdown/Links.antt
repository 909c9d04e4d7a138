-- ===== src/Markdown/Links.antt =====
-- apps/web/src/notes/markdown.tsx: the links that open another tab.
-- The first letter of a web address is no `#`, `/` or `.`.
use opfs_webauthn.Markdown.Defs.{is_external_href, is_http, link}
use opfs_webauthn.Prelude.{
  Bool-cases, Text, [], ap, arith, codes, false, if◌then◌else◌, inl, inr, none, refl, some,
  starts_with, text_beq, true, ℕ, ◌||◌, ◌∷◌, ◌≡◌,
}

is_http-first :
    (c : ℕ) (s : Text)
    → is_http (c ∷ s) ≡ true
    → starts_with (codes "#") (c ∷ s)
        || (starts_with (codes "/") (c ∷ s) || starts_with (codes ".") (c ∷ s))
      ≡ false
unfolding is_http starts_with
is_http-first c s h = ground arith

starts_with-slash :
    (href : Text) → starts_with (codes "//") href ≡ true → starts_with (codes "#") href ≡ false
unfolding starts_with
starts_with-slash [] h = refl
starts_with-slash (c ∷ s) h = ground arith

is_external_href-host :
    (href : Text) → is_external_href (some href) ≡ starts_with (codes "//") href || is_http href
unfolding is_external_href text_beq
is_external_href-host [] = refl
is_external_href-host (c ∷ s) = elim (Bool-cases (is_http (c ∷ s))) [
  | inl b ↦ ground (arith, is_http-first c s b, starts_with-slash (c ∷ s))
  | inr b ↦ ground (arith, starts_with-slash (c ∷ s))
]

-- A link is external exactly if it names a host: it is `http` or `https`, in either case of the letters, or
-- relative to the protocol. Such a link, and no other, opens a new tab, which cannot reach this one.
pub link-external :
    (href : Text)
    → let host = starts_with (codes "//") href || is_http href in
      (is_external_href (some href) ≡ host)
      × ((link (some href)).target ≡ (if host then some (codes "_blank") else none))
      × ((link (some href)).rel ≡ (if host then some (codes "noopener noreferrer") else none))
unfolding link
link-external href =
    let e = is_external_href-host href in
    (
      e,
      ap (λ b. if b then some (codes "_blank") else none) e,
      ap (λ b. if b then some (codes "noopener noreferrer") else none) e,
    )
