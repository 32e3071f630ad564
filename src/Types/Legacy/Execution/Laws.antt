-- ===== src/Types/Legacy/Execution/Laws.antt =====
-- types/src/legacy_sse_data/translate_execution_result.rs translates all effects of a transaction or none.
use mathlib.Core.List.{append-nil, append_assoc}
use casper_sidecar.Prelude.{
  Option-cases, ◌≡◌, refl, sym, ap, ◌∙◌, inl, inr, Option, none, some, List, [], ◌∷◌, ◌++◌,
}
use casper_sidecar.Types.Casper.{Casper, TransformKindV1, TransformV2, TransformV1}
use casper_sidecar.Types.Legacy.Execution.{map_transform_v2, effects_loop, translate_effects}

module _ {c : Casper} where
  abbrev pub with_key : c.Key → TransformKindV1 c → TransformV1 c
  with_key key kind = record { key = c.to_formatted_string key; transform = kind }

  abbrev pub cons_all :
      c.Key
      → Option (TransformKindV1 c)
      → Option (List (TransformV1 c))
      → Option (List (TransformV1 c))
  cons_all key (some kind) (some ts) = some (with_key key kind ∷ ts)
  cons_all _ _ _ = none

  -- Every transform translated, in order, if each can be.
  unfoldable pub translate_all : List (TransformV2 c) → Option (List (TransformV1 c))
  translate_all [] = some []
  translate_all (e ∷ es) = cons_all e.key (map_transform_v2 e.kind) (translate_all es)

  abbrev pub after : List (TransformV1 c) → Option (List (TransformV1 c)) → List (TransformV1 c)
  after done none = []
  after done (some ts) = done ++ ts

  after-cons :
      (done : List (TransformV1 c)) (key : c.Key) (k : TransformKindV1 c)
      (rest : Option (List (TransformV1 c)))
      → after (done ++ with_key key k ∷ []) rest ≡ after done (cons_all key (some k) rest)
  after-cons done key k none = refl
  after-cons done key k (some ts) = append_assoc done (with_key key k ∷ []) ts

  cons_all-none :
      (done : List (TransformV1 c)) (key : c.Key) (rest : Option (List (TransformV1 c)))
      → [] ≡ after done (cons_all key none rest)
  cons_all-none done key rest = refl

  effects_loop_lem :
      (done : List (TransformV1 c)) (es : List (TransformV2 c))
      → effects_loop done es ≡ after done (translate_all es)
  unfolding effects_loop translate_all
  effects_loop_lem done [] = sym (append-nil done)
  effects_loop_lem done (e ∷ es) = elim (Option-cases (map_transform_v2 e.kind)) [
    | inl h ↦ rw (h, effects_loop, translate_all) (cons_all-none done e.key (translate_all es))
    | inr (k, h) ↦
        rw (h, effects_loop, translate_all)
          (effects_loop_lem (done ++ with_key e.key k ∷ []) es
            ∙ after-cons done e.key k (translate_all es))
  ]

  -- The effects are the translations of all transforms in their order, or none at all if one of them
  -- has no translation; there are never operations.
  pub translate_effects_lem :
      (es : List (TransformV2 c))
      → translate_effects es
        ≡ some (record { operations = []; transforms = after [] (translate_all es) })
  unfolding translate_effects
  translate_effects_lem es =
      ap (λ ts. some (record { operations = []; transforms = ts })) (effects_loop_lem [] es)
