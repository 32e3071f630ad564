-- ===== src/Rpcs/Common/Laws.antt =====
-- What the shared requests of rpc_sidecar/src/rpcs/common.rs answer.
use casper_sidecar.Prelude.{
  String, ◌≡◌, refl, sym, ap, ◌∙◌, ◌↔◌, Option, none, some, List, [], ◌∷◌, ◌++◌, map,
}
use casper_sidecar.Prelude.Result.{Result, ok, err}
use casper_sidecar.Prelude.Result
use casper_sidecar.NodeClient.Call.{Call, after_call, failing_with, returns}
use casper_sidecar.NodeClient.Port.{BinaryPort}
use casper_sidecar.NodeClient.Types.{PortTypes}
use casper_sidecar.Rpcs.Error.{ErrorTypes, RpcsError, node_request, no_block_found}
use casper_sidecar.Rpcs.Client.{NodeClient, ValueTypes}
use casper_sidecar.Rpcs.Common.{
  collect, found_or_range, get_block_with_signatures, get_block_header,
  get_latest_switch_block_header, entry_point_of, get_entity_entry_points,
}

module _ {S : Type 0} {port : BinaryPort} {types : PortTypes port} {more : ErrorTypes types}
    (values : ValueTypes types more) (node_client : NodeClient S types) where
  -- The error that tells of a missing block, after all calls.
  abbrev pub missing :
      {A : Type 0}
      → Option types.BlockIdentifier
      → types.AvailableBlockRange
      → S
      → Option (Result A (RpcsError types more)) × S
  missing identifier range s = (some (err (no_block_found identifier range)), s)

  -- A call that finds nothing, and the call of the range after it.
  found_or_range-missing :
      {A : Type 0} (label : String) (call : Call S (Option A))
      (identifier : Option types.BlockIdentifier) (range : types.AvailableBlockRange) (s s1 s2 : S)
      → call s ≡ (some (ok none), s1)
      → node_client.read_available_block_range s1 ≡ (some (ok range), s2)
      → after_call
          (found_or_range values node_client identifier)
          (failing_with (node_request label) (call s))
        ≡ missing identifier range s2
  unfolding found_or_range
  found_or_range-missing label call identifier range s s1 s2 h hr =
      ap
        (λ x.
          after_call (found_or_range values node_client identifier)
            (failing_with (node_request label) x))
        h
      ∙ ap
          (λ x.
            after_call (λ r. returns (err (no_block_found identifier r)))
              (failing_with (node_request "available block range") x))
          hr

  pub get_block_header-missing :
      (identifier : Option types.BlockIdentifier) (range : types.AvailableBlockRange) (s s1 s2 : S)
      → node_client.read_block_header identifier s ≡ (some (ok none), s1)
      → node_client.read_available_block_range s1 ≡ (some (ok range), s2)
      → get_block_header values node_client identifier s ≡ missing identifier range s2
  unfolding get_block_header
  get_block_header-missing identifier =
      found_or_range-missing "block header" (node_client.read_block_header identifier) identifier

  pub get_block_with_signatures-missing :
      (identifier : Option types.BlockIdentifier) (range : types.AvailableBlockRange) (s s1 s2 : S)
      → node_client.read_block_with_signatures identifier s ≡ (some (ok none), s1)
      → node_client.read_available_block_range s1 ≡ (some (ok range), s2)
      → get_block_with_signatures values node_client identifier s ≡ missing identifier range s2
  unfolding get_block_with_signatures
  get_block_with_signatures-missing identifier =
      found_or_range-missing "block with signatures"
        (node_client.read_block_with_signatures identifier) identifier

  pub get_latest_switch_block_header-missing :
      (range : types.AvailableBlockRange) (s s1 s2 : S)
      → node_client.read_latest_switch_block_header s ≡ (some (ok none), s1)
      → node_client.read_available_block_range s1 ≡ (some (ok range), s2)
      → get_latest_switch_block_header values node_client s ≡ missing none range s2
  unfolding get_latest_switch_block_header
  get_latest_switch_block_header-missing =
      found_or_range-missing "latest switch block header"
        node_client.read_latest_switch_block_header none

  -- A list of stored values that are all entry points.
  abbrev all_entry_points :
      List types.StoredValue → Result (List values.EntryPointValue) (RpcsError types more)
  all_entry_points stored =
      collect (map (λ v. entry_point_of values node_client v (values.as_entry_point v)) stored)

  -- One more value.
  abbrev entry_points_cons :
      types.StoredValue
      → Option values.EntryPointValue
      → Result (List values.EntryPointValue) (RpcsError types more)
      → Result (List values.EntryPointValue) (RpcsError types more)
  entry_points_cons v seen rest =
      Result.◌>>=◌ (entry_point_of values node_client v seen)
        (λ a. Result.◌>>=◌ rest (λ l. ok (a ∷ l)))

  cons_sound :
      (v : types.StoredValue) (seen : Option values.EntryPointValue)
      (stored : List types.StoredValue)
      (rest : Result (List values.EntryPointValue) (RpcsError types more))
      (l : List values.EntryPointValue)
      → ((l : List values.EntryPointValue)
          → rest ≡ ok l
          → map values.as_entry_point stored ≡ map some l)
      → entry_points_cons v seen rest ≡ ok l
      → seen ∷ map values.as_entry_point stored ≡ map some l
  unfolding entry_point_of
  cons_sound v none stored rest l h e = cc
  cons_sound v (some a) stored (err x) l h e = cc
  cons_sound v (some a) stored (ok m) [] h e = cc
  cons_sound v (some a) stored (ok m) (b ∷ l) h e =
      let same : a ∷ m ≡ b ∷ l = cc in ap (λ m. some a ∷ m) (h m refl) ∙ ap (map some) same

  cons_complete :
      (v : types.StoredValue) (seen : Option values.EntryPointValue)
      (stored : List types.StoredValue)
      (rest : Result (List values.EntryPointValue) (RpcsError types more))
      (l : List values.EntryPointValue)
      → ((l : List values.EntryPointValue)
          → map values.as_entry_point stored ≡ map some l
          → rest ≡ ok l)
      → seen ∷ map values.as_entry_point stored ≡ map some l
      → entry_points_cons v seen rest ≡ ok l
  unfolding entry_point_of
  cons_complete v none stored rest [] h e = cc
  cons_complete v none stored rest (b ∷ l) h e = cc
  cons_complete v (some a) stored rest [] h e = cc
  cons_complete v (some a) stored rest (b ∷ l) h e =
      let same : a ≡ b = cc in
      ap (entry_points_cons v (some a)) (h l cc) ∙ ap (λ x. ok (x ∷ l)) same

  all_entry_points_sound :
      (stored : List types.StoredValue) (l : List values.EntryPointValue)
      → all_entry_points stored ≡ ok l
      → map values.as_entry_point stored ≡ map some l
  all_entry_points_sound [] [] e = refl
  all_entry_points_sound [] (b ∷ l) e = cc
  all_entry_points_sound (v ∷ stored) l e =
      cons_sound v (values.as_entry_point v) stored (all_entry_points stored) l
        (all_entry_points_sound stored) e

  all_entry_points_complete :
      (stored : List types.StoredValue) (l : List values.EntryPointValue)
      → map values.as_entry_point stored ≡ map some l
      → all_entry_points stored ≡ ok l
  all_entry_points_complete [] [] e = refl
  all_entry_points_complete [] (b ∷ l) e = cc
  all_entry_points_complete (v ∷ stored) l e =
      cons_complete v (values.as_entry_point v) stored (all_entry_points stored) l
        (all_entry_points_complete stored) e

  get_entity_entry_points-run :
      (entity : values.EntityAddr) (state : Option types.GlobalStateIdentifier)
      (v1 v2 : List types.StoredValue) (s s1 s2 : S)
      → node_client.query_global_state_by_prefix state (values.entry_points_v1_by_entity entity) s
        ≡ (some (ok v1), s1)
      → node_client.query_global_state_by_prefix state (values.entry_points_v2_by_entity entity) s1
        ≡ (some (ok v2), s2)
      → get_entity_entry_points values node_client entity state s
        ≡ (some (all_entry_points (v1 ++ v2)), s2)
  unfolding get_entity_entry_points
  get_entity_entry_points-run entity state v1 v2 s s1 s2 h1 h2 =
      ap
        (λ x.
          after_call
            (λ stored s.
              after_call (λ more. returns (all_entry_points (stored ++ more)))
                (failing_with (node_request "entity named keys") (
                  node_client.query_global_state_by_prefix state
                    (values.entry_points_v2_by_entity entity) s)))
            (failing_with (node_request "entity named keys") x))
        h1
      ∙ ap
          (λ x.
            after_call (λ more. returns (all_entry_points (v1 ++ more)))
              (failing_with (node_request "entity named keys") x))
          h2

  answered :
      {A E : Type 0} (r : Result A E) (a : A) (s : S)
      → ◌≡◌ {A = Option (Result A E) × S} (some r, s) (some (ok a), s)
      → r ≡ ok a
  answered r a s h = cc

  -- The entry points of an entity: if the node answers both queries, the result is a list exactly
  -- if all values of the first and of the second answer are entry points, and it is those in this
  -- order.
  pub get_entity_entry_points_iff :
      (entity : values.EntityAddr) (state : Option types.GlobalStateIdentifier)
      (v1 v2 : List types.StoredValue) (s s1 s2 : S) (l : List values.EntryPointValue)
      → node_client.query_global_state_by_prefix state (values.entry_points_v1_by_entity entity) s
        ≡ (some (ok v1), s1)
      → node_client.query_global_state_by_prefix state (values.entry_points_v2_by_entity entity) s1
        ≡ (some (ok v2), s2)
      → (get_entity_entry_points values node_client entity state s ≡ (some (ok l), s2))
        ↔ (map values.as_entry_point (v1 ++ v2) ≡ map some l)
  get_entity_entry_points_iff entity state v1 v2 s s1 s2 l h1 h2 =
      let run = get_entity_entry_points-run entity state v1 v2 s s1 s2 h1 h2 in
      (
        (λ e. all_entry_points_sound (v1 ++ v2) l (answered _ l s2 (sym run ∙ e))),
        (λ e. run ∙ ap (λ r. (some r, s2)) (all_entry_points_complete (v1 ++ v2) l e)),
      )
