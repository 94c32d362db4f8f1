-- ===== src/Delegation/Chain.antt =====
-- delegation/chain.py: what a verified chain of grants guarantees of its leaf.
use chitragupta_protocol.Base.{ℕ, ◌≡◌, false, none, some, List, [], ◌∷◌, arith, All, eq_option_iff}
use chitragupta_protocol.Crypto.{Keyring, SignatureCheck}
use chitragupta_protocol.Errors.{ok, Result-cases}
use chitragupta_protocol.Grants.{ExecutionGrant, verify_grant}
use chitragupta_protocol.GrantStore.{GrantStore, is_revoked}
use chitragupta_protocol.Delegation.{
  assert_grant_narrower_or_equal, verify_each, verify_links, verify_delegation_chain,
}
use chitragupta_protocol.Delegation.Attenuation.{narrower_refl, narrower_trans}

abbrev pub leaf : ExecutionGrant → List ExecutionGrant → ExecutionGrant
leaf g [] = g
leaf g (h ∷ hs) = leaf h hs

-- Each grant names the one before it as its parent.
abbrev pub IsLinked : ExecutionGrant → List ExecutionGrant → Type 0
IsLinked g [] = Unit
IsLinked g (h ∷ hs) = (h.parent_grant_id ≡ some g.grant_id) × IsLinked h hs

links_narrow :
    (a g : ExecutionGrant) (rest : List ExecutionGrant)
    → assert_grant_narrower_or_equal g a ≡ ok tt
    → verify_links g rest ≡ ok tt
    → assert_grant_narrower_or_equal (leaf g rest) a ≡ ok tt
unfolding verify_links
links_narrow a g [] n h = n
links_narrow a g (c ∷ rest) n h =
    let step : assert_grant_narrower_or_equal c g ≡ ok tt =
      ground (arith, Result-cases (assert_grant_narrower_or_equal c g)) in
    let later : verify_links c rest ≡ ok tt =
      ground (arith, Result-cases (assert_grant_narrower_or_equal c g)) in
    links_narrow a c rest (narrower_trans c g a step n) later

links-IsLinked :
    (g : ExecutionGrant) (rest : List ExecutionGrant)
    → verify_links g rest ≡ ok tt
    → IsLinked g rest
unfolding verify_links
links-IsLinked g [] h = tt
links-IsLinked g (c ∷ rest) h =
    let later : verify_links c rest ≡ ok tt =
      ground (arith, Result-cases (assert_grant_narrower_or_equal c g)) in
    (ground (arith, eq_option_iff c.parent_grant_id (some g.grant_id)), links-IsLinked c rest later)

module _ (check : SignatureCheck) (grant_hash : ExecutionGrant → ℕ) (keys : Keyring)
    (store : GrantStore) (now leeway : ℕ) where
  abbrev pub IsUsable : ExecutionGrant → Type 0
  IsUsable g =
      (verify_grant check grant_hash g keys now leeway ≡ ok tt)
      × (is_revoked g.grant_id store ≡ false)

  each-IsUsable :
      (gs : List ExecutionGrant)
      → verify_each check grant_hash keys store now leeway gs ≡ ok tt
      → All IsUsable gs
  unfolding verify_each
  each-IsUsable [] h = tt
  each-IsUsable (g ∷ gs) h =
      let valid : verify_grant check grant_hash g keys now leeway ≡ ok tt =
        ground (arith, Result-cases (verify_grant check grant_hash g keys now leeway)) in
      let later : verify_each check grant_hash keys store now leeway gs ≡ ok tt =
        ground (arith, valid) in
      ((valid, ground (arith, valid)), each-IsUsable gs later)

  -- A chain that verifies starts at a root without a parent, each grant names the one before it as
  -- its parent, every grant of it verifies by itself and is not revoked, and the leaf is accepted
  -- as a narrowing of the root.
  pub chain_sound :
      (root : ExecutionGrant) (rest : List ExecutionGrant)
      → verify_delegation_chain check grant_hash keys store now leeway (root ∷ rest) ≡ ok tt
      → (root.parent_grant_id ≡ none)
        × IsLinked root rest
        × All IsUsable (root ∷ rest)
        × (assert_grant_narrower_or_equal (leaf root rest) root ≡ ok tt)
  unfolding verify_delegation_chain
  chain_sound root rest h =
      let each : verify_each check grant_hash keys store now leeway (root ∷ rest) ≡ ok tt =
        ground (
          arith,
          Result-cases (verify_each check grant_hash keys store now leeway (root ∷ rest)),
        ) in
      let links : verify_links root rest ≡ ok tt = ground (arith, each) in
      (
        ground arith,
        links-IsLinked root rest links,
        each-IsUsable (root ∷ rest) each,
        links_narrow root root rest (narrower_refl root) links,
      )
