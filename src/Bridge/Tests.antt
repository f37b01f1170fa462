-- ===== src/Bridge/Tests.antt =====
-- The bridge over the counter. A log id is its term and its index, and a membership is a number.
use bf_multiraft.Base.{ℕ, refl, true, false, Option, none, some, List, [], ◌∷◌, contains, bytes_eq}
use bf_multiraft.OrdMap.{lookup, insert}
use bf_multiraft.Io.{ok, calm}
use bf_multiraft.Core.{standby_snapshot_trigger, is_standby_snapshot_trigger}
use bf_multiraft.Core.Decimal.{digits, dir_name}
use bf_multiraft.Fsm.{StateMachine}
use bf_multiraft.Fsm
use bf_multiraft.Fsm.Counter.{
  counter, decode, new, value, snapshot, restore, apply_cmd, collect_set,
}
use bf_multiraft.Fsm.Counter
use bf_multiraft.Fsm.Counter.Replica.{counter_restorable}
use bf_multiraft.Fsm.Tests.{serde}
use bf_multiraft.Catalog.{
  list, list_entries, latest, read, find, first_named, has_name, find_entry, hex_sha256, to_hex,
  position_le,
}
use bf_multiraft.Catalog.Order.{sort_by, insert_by}
use bf_multiraft.Catalog.Tests.{params, disk}
use bf_multiraft.Bridge.{
  SmTypes, EntryPayload, normal, membership, Item, StoredSnapshot, SmOptions,
  StateMachineStoreInner, new_inner, respond_to, apply_entries, apply, applied_state,
  build_snapshot, install_snapshot, get_current_snapshot, snapshot_from_catalog, next_snapshot_idx,
}
use bf_multiraft.Bridge.Entries.{Effects}
use bf_multiraft.Bridge.Apply.{apply-Effects}
use bf_multiraft.Bridge.Replicas.{Alike, Answers, apply-Answers, install_snapshot-Alike}
use bf_multiraft.Bridge.Snapshots.{FromCatalog, get_current_snapshot-FromCatalog}

abbrev pub types : SmTypes
types = record {
  LogId = ℕ × ℕ;
  index = λ id. id.1;
  term = λ id. id.0;
  new_log_id = λ term index. (term, index);
  leader_text = λ id. digits 9 id.0;
  Membership = ℕ;
  StoredMembership = Option (ℕ × ℕ) × ℕ;
  default_membership = (none, 0);
  new_membership = λ id m. (id, m);
}

abbrev pub machine : StateMachine
machine = counter serde

abbrev pub Store : Type 0
Store = StateMachineStoreInner types machine

abbrev pub voter : SmOptions types
voter = record { allow_hot_build = true; catalog = none; has_trigger = false }

abbrev standby : SmOptions types
standby = record {
  allow_hot_build = false;
  catalog = some (record { keep = 2 });
  has_trigger = true;
}

abbrev pub empty : Store
empty = new_inner types machine 7 new

abbrev at : ℕ → EntryPayload types → Item types
at index payload = ok (record { log_id = (3, index); payload = payload }, true)

-- An addition of 5 under the key 1, a trigger, and a membership.
abbrev items : List (Item types)
items =
    at 1 (normal (record { payload = 1 ∷ 5 ∷ [] }))
    ∷ at 2 (normal (record { payload = standby_snapshot_trigger }))
    ∷ at 3 (membership 9)
    ∷ []

-- A command that does not decode.
abbrev broken : List (Item types)
broken =
    at 1 (normal (record { payload = standby_snapshot_trigger }))
    ∷ at 2 (normal (record { payload = [] }))
    ∷ []

apply-Effects_example :
    Effects types machine true items empty (apply types machine standby items empty)
unfolding apply apply_entries respond_to is_standby_snapshot_trigger bytes_eq Counter.apply
apply-Effects_example = apply-Effects types machine standby items empty refl

abbrev pub restorable : Fsm.Restorable machine
restorable = counter_restorable serde

abbrev unlike : Store
unlike = record empty { snapshot_idx = 4 }

apply-Answers_example :
    Answers types machine restorable
      (apply types machine voter items empty)
      (apply types machine standby items unlike)
unfolding new_inner applied_state
apply-Answers_example =
    apply-Answers types machine restorable voter standby items empty unlike (record {
      group_eq = refl;
      applied_eq = refl;
      same = record { value_eq = refl; keys_eq = λ k. refl };
    })

abbrev taken : StoredSnapshot types
taken = record {
  snapshot_meta = record {
    last_log_id = some (3, 1);
    last_membership = (none, 0);
    snapshot_id = 51 ∷ 45 ∷ 49 ∷ 45 ∷ 49 ∷ [];
  };
  snapshot_data = 5 ∷ 1 ∷ [];
}

abbrev leader : Store
leader =
    (apply types machine voter (at 1 (normal (record { payload = 1 ∷ 5 ∷ [] })) ∷ []) empty).inner

install_snapshot-Alike_example :
    Alike types machine restorable
      (build_snapshot types machine params voter leader (calm disk)).inner
      (install_snapshot types machine params standby taken empty (calm disk)).inner
unfolding build_snapshot new_inner apply apply_entries respond_to is_standby_snapshot_trigger
    bytes_eq Counter.apply apply_cmd snapshot value lookup insert contains next_snapshot_idx digits
    dir_name
install_snapshot-Alike_example =
    install_snapshot-Alike types machine restorable params voter standby leader empty (calm disk)
      (calm disk) taken refl refl refl

abbrev cataloged : StoredSnapshot types
cataloged = record {
  snapshot_meta = record {
    last_log_id = some (3, 30);
    last_membership = (none, 0);
    snapshot_id = 30 ∷ 3 ∷ [];
  };
  snapshot_data = 99 ∷ [];
}

get_current_snapshot-FromCatalog_example : FromCatalog types machine params 7 (calm disk) cataloged
unfolding new_inner get_current_snapshot snapshot_from_catalog latest read find list list_entries
    lookup sort_by insert_by position_le first_named has_name bytes_eq find_entry dir_name digits
    hex_sha256 to_hex
get_current_snapshot-FromCatalog_example =
    get_current_snapshot-FromCatalog types machine params standby empty (calm disk) cataloged refl
      refl
