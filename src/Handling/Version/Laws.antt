-- ===== src/Handling/Version/Laws.antt =====
-- event_sidecar/src/api_version_manager.rs keeps the newest version.
use casper_sidecar.Prelude.{
  if◌then◌else◌, Bool-cases, All, ◌≡◌, refl, sym, ap, ◌∙◌, subst, ◌⊎◌, inl, inr, Bool, true, false,
  Option, none, some, List, [], ◌∷◌,
}
use casper_sidecar.Handling.Version.{ApiVersionManager, store_version}

-- There is a newest version, and it is not older than this one.
abbrev pub IsAtMost : {V : Type 0} → (V → V → Bool) → Option V → V → Type 0
IsAtMost gt none v = ⊥
IsAtMost gt (some n) v = gt v n ≡ false

abbrev pub store_all :
    {V : Type 0} → (V → V → Bool) → List V → ApiVersionManager V → ApiVersionManager V
store_all gt [] m = m
store_all gt (v ∷ vs) m = store_all gt vs (store_version gt v m).1

abbrev at : {V : Type 0} → Option V → ApiVersionManager V
at o = record { newest_protocol_version = o }

module _ {V : Type 0} (gt : V → V → Bool) (irreflexive : (v : V) → gt v v ≡ false)
    (trans : (v n w : V) → gt v n ≡ false → gt w n ≡ true → gt v w ≡ false) where
  stored-some :
      (w n : V)
      → (store_version gt w (at (some n))).1.newest_protocol_version
        ≡ (if gt w n then some w else some n)
  unfolding store_version
  stored-some w n = elim (Bool-cases (gt w n)) [
    | inl e ↦ rw (e, store_version) refl
    | inr e ↦ rw (e, store_version) refl
  ]

  choose :
      (v w n : V) (b : Bool)
      → gt w n ≡ b
      → (gt v n ≡ false) ⊎ (v ≡ w)
      → IsAtMost gt (if b then some w else some n) v
  choose v w n true e (inl h) = trans v n w h e
  choose v w n true e (inr h) = ap (λ x. gt x w) h ∙ irreflexive w
  choose v w n false e (inl h) = h
  choose v w n false e (inr h) = ap (λ x. gt x n) h ∙ e

  store_version-IsAtMost :
      (v w : V) (o : Option V)
      → IsAtMost gt o v ⊎ (v ≡ w)
      → IsAtMost gt (store_version gt w (at o)).1.newest_protocol_version v
  store_version-IsAtMost v w none (inl h) = elim h [ ]
  store_version-IsAtMost v w none (inr h) =
      unfold store_version in ap (λ x. gt x w) h ∙ irreflexive w
  store_version-IsAtMost v w (some n) h =
      subst (λ o. IsAtMost gt o v) (sym (stored-some w n)) (choose v w n (gt w n) refl h)

  store_all-keeps :
      (v : V) (vs : List V) (m : ApiVersionManager V)
      → IsAtMost gt m.newest_protocol_version v
      → IsAtMost gt (store_all gt vs m).newest_protocol_version v
  store_all-keeps v [] m h = h
  store_all-keeps v (w ∷ vs) m h =
      store_all-keeps v vs (store_version gt w m).1
        (store_version-IsAtMost v w m.newest_protocol_version (inl h))

  -- After any versions of any nodes, the manager holds one that none of them is newer than, if the order
  -- of versions is irreflexive and what is not newer than a version is not newer than a newer one.
  pub store_all-IsAtMost :
      (vs : List V) (m : ApiVersionManager V)
      → All (IsAtMost gt (store_all gt vs m).newest_protocol_version) vs
  store_all-IsAtMost [] m = tt
  store_all-IsAtMost (v ∷ vs) m = (
    store_all-keeps v vs (store_version gt v m).1
        (store_version-IsAtMost v v m.newest_protocol_version (inr refl)),
    store_all-IsAtMost vs (store_version gt v m).1,
  )
