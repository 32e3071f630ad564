-- ===== src/Types/Legacy/Deploys/Laws.antt =====
-- No deploy of a 2.x block is lost or made up by types/src/legacy_sse_data/translate_deploy_hashes.rs.
use mathlib.Core.List.{perm_append_comm, Perm, append_assoc}
use mathlib.Core.List.Perm
use casper_sidecar.Prelude.{
  ◌==◌, if◌then◌else◌, Bool-cases, ℕ, ◌≡◌, refl, sym, ap, inl, inr, List, [], ◌∷◌, ◌++◌,
}
use casper_sidecar.Types.Casper.{Casper, TransactionHash, deploy_hash, v1_hash, BlockBodyV2}
use casper_sidecar.Types.Legacy.Deploys.{
  deploys_only, standard_lanes, translate_standard, translate_transfers,
}

swap_front : {A : Type 0} (xs ys zs : List A) → Perm (xs ++ (ys ++ zs)) (ys ++ (xs ++ zs))
swap_front xs ys zs =
    rw (sym (append_assoc xs ys zs), sym (append_assoc ys xs zs))
      (Perm.append_right zs (perm_append_comm xs ys))

module _ {c : Casper} where
  -- The hashes of every lane.
  abbrev pub all_hashes : List (ℕ × List (TransactionHash c)) → List (TransactionHash c)
  all_hashes [] = []
  all_hashes ((lane, hashes) ∷ lanes) = hashes ++ all_hashes lanes

  -- The hashes of the lane of transfers.
  abbrev pub mint_hashes : List (ℕ × List (TransactionHash c)) → List (TransactionHash c)
  mint_hashes [] = []
  mint_hashes ((lane, hashes) ∷ lanes) =
      if lane == c.mint_lane_id then hashes ++ mint_hashes lanes else mint_hashes lanes

  deploys_only-append :
      (xs ys : List (TransactionHash c))
      → deploys_only (xs ++ ys) ≡ deploys_only xs ++ deploys_only ys
  unfolding deploys_only
  deploys_only-append [] ys = refl
  deploys_only-append (deploy_hash h ∷ xs) ys = ap (◌∷◌ h) (deploys_only-append xs ys)
  deploys_only-append (v1_hash h ∷ xs) ys = deploys_only-append xs ys

  standard_lanes-cons :
      (lane : ℕ) (hashes : List (TransactionHash c)) (lanes : List (ℕ × List (TransactionHash c)))
      → standard_lanes ((lane, hashes) ∷ lanes) ≡ (
          if lane == c.mint_lane_id
          then standard_lanes lanes
          else deploys_only hashes ++ standard_lanes lanes)
  unfolding standard_lanes
  standard_lanes-cons lane hashes lanes = refl

  keep_front :
      (hashes : List (TransactionHash c)) (lanes : List (ℕ × List (TransactionHash c)))
      {rest : List c.DeployHash}
      → Perm rest (deploys_only (all_hashes lanes))
      → Perm (deploys_only hashes ++ rest) (deploys_only (hashes ++ all_hashes lanes))
  keep_front hashes lanes p =
      rw (deploys_only-append hashes (all_hashes lanes)) (Perm.append_left (deploys_only hashes) p)

  lanes-perm :
      (lanes : List (ℕ × List (TransactionHash c)))
      → Perm
          (standard_lanes lanes ++ deploys_only (mint_hashes lanes))
          (deploys_only (all_hashes lanes))
  lanes-perm [] = unfold standard_lanes deploys_only in Perm.refl _
  lanes-perm ((lane, hashes) ∷ lanes) = elim (Bool-cases (lane == c.mint_lane_id)) [
    | inl e ↦
        rw (standard_lanes-cons lane hashes lanes, e, mint_hashes, deploys_only-append)
          (Perm.trans
            (swap_front (standard_lanes lanes) (deploys_only hashes)
              (deploys_only (mint_hashes lanes)))
            (keep_front hashes lanes (lanes-perm lanes)))
    | inr e ↦
        rw
          (
            standard_lanes-cons lane hashes lanes,
            e,
            mint_hashes,
            append_assoc (deploys_only hashes) (standard_lanes lanes)
                (deploys_only (mint_hashes lanes)),
          )
          (keep_front hashes lanes (lanes-perm lanes))
  ]

  -- If the crate's view of the transfers is the lane of transfers, then the deploys of a legacy block
  -- and its transfers together are a permutation of all the deploys of the 2.x block.
  pub translate_deploys-Perm :
      (body : BlockBodyV2 c)
      → body.mint ≡ mint_hashes body.transactions
      → Perm
          (translate_standard body ++ translate_transfers body)
          (deploys_only (all_hashes body.transactions))
  unfolding translate_standard translate_transfers
  translate_deploys-Perm body h = rw h (lanes-perm body.transactions)
