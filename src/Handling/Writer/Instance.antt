-- ===== src/Handling/Writer/Instance.antt =====
-- A small database: it holds the primary keys of its rows, and so does a transaction.
use casper_sidecar.Prelude.{
  ◌≡◌, refl, sym, ap, ◌∙◌, Bool, true, false, ◌&&◌, ◌||◌, Option, none, some, List, [], ◌∷◌, arith,
  str_eq, str_eq_iff,
}
use casper_sidecar.Prelude.Decimal.{decimal}
use casper_sidecar.Prelude.Result.{Result, ok, err}
use casper_sidecar.Types.Casper.{
  TransactionHash, deploy_hash, v1_hash, Transaction, deploy, v1_transaction,
}
use casper_sidecar.Types.Tests.{plain}
use casper_sidecar.Handling.Service.{DatabaseWriteError, unique_constraint}
use casper_sidecar.Handling.Writer.{Insert, PrimaryKey, primary_key, Sql, Encoding}
use casper_sidecar.Handling.Writer.Laws.{KeyLaws}

same_key : PrimaryKey → PrimaryKey → Bool
same_key [] [] = true
same_key (a ∷ k) (b ∷ l) = str_eq a b && same_key k l
same_key _ _ = false

-- Is a primary key in the list?
unfoldable pub holds : PrimaryKey → List PrimaryKey → Bool
unfolding same_key
holds k [] = false
holds k (l ∷ rest) = same_key k l || holds k rest

abbrev insert_new :
    (there : Bool) → PrimaryKey → List PrimaryKey → Result (List PrimaryKey) DatabaseWriteError
insert_new true k tx = err (unique_constraint "there already")
insert_new false k tx = ok (k ∷ tx)

-- One row: none of its primary key may be there.
abbrev insert_key :
    Option PrimaryKey → List PrimaryKey → Result (List PrimaryKey) DatabaseWriteError
insert_key none tx = ok tx
insert_key (some k) tx = insert_new (holds k tx) k tx

abbrev after_insert :
    (List PrimaryKey → Result (List PrimaryKey) DatabaseWriteError)
    → Result (List PrimaryKey) DatabaseWriteError
    → Result (List PrimaryKey) DatabaseWriteError
after_insert next (ok tx) = next tx
after_insert next (err e) = err e

unfoldable pub insert_all :
    List Insert → List PrimaryKey → Result (List PrimaryKey) DatabaseWriteError
unfolding holds primary_key
insert_all [] tx = ok tx
insert_all (row ∷ rows) tx = after_insert (insert_all rows) (insert_key (primary_key row) tx)

abbrev pub small_sql : Sql (List PrimaryKey) (List PrimaryKey)
small_sql = record {
  begin = λ db. (ok db, db);
  insert_event_log = λ type origin key tx. ok (1, tx);
  execute = insert_all;
  commit = λ tx db. (ok tt, tx);
  unix_timestamp = λ db. 1700000000;
}

same_key_self : (k : PrimaryKey) → same_key k k ≡ true
unfolding same_key
same_key_self [] = refl
same_key_self (a ∷ k) = ground (arith, str_eq_iff a a, same_key_self k)

insert_new_ok :
    (there : Bool) (k : PrimaryKey) (tx next : List PrimaryKey)
    → insert_new there k tx ≡ ok next
    → k ∷ tx ≡ next
insert_new_ok true k tx next h = cc
insert_new_ok false k tx next h = cc

insert_key-keeps :
    (o : Option PrimaryKey) (k : PrimaryKey) (tx later : List PrimaryKey)
    → insert_key o tx ≡ ok later
    → holds k tx ≡ true
    → holds k later ≡ true
unfolding holds
insert_key-keeps none k tx later h there =
    let same : tx ≡ later = cc (h) in ap (holds k) (sym same) ∙ there
insert_key-keeps (some l) k tx later h there =
    ap (holds k) (sym (insert_new_ok (holds l tx) l tx later h)) ∙ ground (arith, there)

after_insert_ok :
    (f : List PrimaryKey → Result (List PrimaryKey) DatabaseWriteError)
    (r : Result (List PrimaryKey) DatabaseWriteError) (later : List PrimaryKey)
    → after_insert f r ≡ ok later
    → (next : List PrimaryKey) × (r ≡ ok next) × (f next ≡ ok later)
after_insert_ok f (ok next) later h = (next, refl, h)
after_insert_ok f (err e) later h = cc

insert_all-keeps :
    (rows : List Insert) (k : PrimaryKey) (tx later : List PrimaryKey)
    → insert_all rows tx ≡ ok later
    → holds k tx ≡ true
    → holds k later ≡ true
unfolding insert_all
insert_all-keeps [] k tx later h there =
    let same : tx ≡ later = cc (h) in ap (holds k) (sym same) ∙ there
insert_all-keeps (row ∷ rows) k tx later h there =
    let (next, e, rest) =
      after_insert_ok (insert_all rows) (insert_key (primary_key row) tx) later h in
    insert_all-keeps rows k next later rest (insert_key-keeps (primary_key row) k tx next e there)

new_key :
    (k : PrimaryKey) (tx next : List PrimaryKey)
    → insert_key (some k) tx ≡ ok next
    → holds k next ≡ true
unfolding holds
new_key k tx next h =
    ap (holds k) (sym (insert_new_ok (holds k tx) k tx next h)) ∙ ground (arith, same_key_self k)

pub inserted :
    (row : Insert) (rows : List Insert) (k : PrimaryKey) (tx later : List PrimaryKey)
    → primary_key row ≡ some k
    → insert_all (row ∷ rows) tx ≡ ok later
    → holds k later ≡ true
unfolding insert_all
inserted row rows k tx later p h =
    let (next, e, rest) =
      after_insert_ok (insert_all rows) (insert_key (primary_key row) tx) later h in
    insert_all-keeps rows k next later rest
      (new_key k tx next (sym (ap (λ o. insert_key o tx) p) ∙ e))

pub refused :
    (row : Insert) (rows : List Insert) (k : PrimaryKey) (tx later : List PrimaryKey)
    → primary_key row ≡ some k
    → holds k tx ≡ true
    → ¬ (insert_all (row ∷ rows) tx ≡ ok later)
unfolding insert_all
refused row rows k tx later p there h =
    let full = ap (λ o. insert_key o tx) p ∙ ap (λ b. insert_new b k tx) there in
    let e = sym (ap (after_insert (insert_all rows)) full) ∙ h in cc e

abbrev pub small_laws : KeyLaws small_sql
small_laws = record {
  Has = λ db k. holds k db ≡ true;
  HasTx = λ tx k. holds k tx ≡ true;
  inserted = inserted;
  refused = refused;
  kept = λ tx db later k h there. ap (holds k) (sym (ap (λ p. p.1) h)) ∙ there;
  seen = λ db later tx k h there.
      let same : db ≡ tx = cc (ap (λ p. p.0) h) in ap (holds k) (sym same) ∙ there;
  logged = λ type origin key tx later id k h there.
      let same : tx ≡ later = cc (h) in ap (holds k) (sym same) ∙ there;
}

abbrev hash_of : Transaction plain → TransactionHash plain
hash_of (deploy d) = deploy_hash d
hash_of (v1_transaction t) = v1_hash t

abbrev pub small_encoding : Encoding plain
small_encoding = record {
  hex_of_block_hash = λ hash. decimal hash;
  height = λ block. 1000;
  hash = hash_of;
  transaction_hash_to_identifier = λ hash. "0a";
  era_value = λ era. era;
  to_hex = λ key. decimal key;
  to_string = λ d. ok "{}";
}
