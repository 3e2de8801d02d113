-- ===== src/Tests/Names.antt =====
-- The theorems on names, script objects, versions and the file pool, at concrete inputs.
use retoc.Prelude.{list_eq, ◌≡◌, refl, true, arith, ◌∷◌, [], codes, ◌^◌, ◌+◌, ◌-◌, ◌≤◌}
use retoc.Outcome.{ok}
use retoc.NameMap.{FMappedName, mapped_name_parts, EMappedNameType, global_type}
use retoc.NameMap.Numbers.{
  break_down_split, split_before, accept_number, parse_i32, parse_magnitude, parse_digits,
  to_string, digits, with_number, break_down_name_string, with_number-break_down_name_string,
  rsplit_once,
}
use retoc.NameMap.Store.{same_kind, FNameMap, get, store, create_from_names}
use retoc.NameMap.Stored.{
  IsNameMap, get-store, store-IsNameMap, get-store_other, create_from_names-IsNameMap,
}
use retoc.ScriptObjects.{FPackageImportReference, FScriptObjectEntry}
use retoc.ScriptObjects.Kinds.{IsEntry}
use retoc.FilePool.{
  enters, must_wait, waited, dropped, take_or_open, open_new, Pool, Reachable, acquire_round, new,
  start, acquired, lock, drop_handle, notify_one, wait, remove,
}
use retoc.FilePool.Limit.{IsPool, Reachable-IsPool}
use retoc.FilePool.Waiting.{waiting_served}
use retoc.NameMap

-- A number with a leading zero stays in the name.
broken_down : break_down_name_string (codes "Rocket_4") ≡ (codes "Rocket", 5)
unfolding break_down_name_string rsplit_once break_down_split split_before accept_number parse_i32
    parse_magnitude parse_digits list_eq to_string digits
broken_down = refl

kept_whole : break_down_name_string (codes "Rocket_04") ≡ (codes "Rocket_04", 0)
unfolding break_down_name_string rsplit_once break_down_split split_before accept_number parse_i32
    parse_magnitude parse_digits list_eq to_string digits
kept_whole = refl

with_number-break_down_name_string_example :
    with_number
      (break_down_name_string (codes "Rocket_4")).0
      (break_down_name_string (codes "Rocket_4")).1
    ≡ codes "Rocket_4"
with_number-break_down_name_string_example = with_number-break_down_name_string (codes "Rocket_4")

abbrev rockets : FNameMap
rockets = create_from_names global_type (codes "Rocket" ∷ codes "None" ∷ [])

get-store_example :
    get (store rockets (codes "Rocket_4")).0 (store rockets (codes "Rocket_4")).1
    ≡ ok (codes "Rocket_4")
get-store_example =
    get-store rockets (codes "Rocket_4")
      (create_from_names-IsNameMap global_type (codes "Rocket" ∷ codes "None" ∷ []))
      (unfold create_from_names in omega arith)

store-IsNameMap_example : IsNameMap (store rockets (codes "New")).0
store-IsNameMap_example =
    store-IsNameMap rockets (codes "New")
      (create_from_names-IsNameMap global_type (codes "Rocket" ∷ codes "None" ∷ []))

create_from_names-IsNameMap_example :
    IsNameMap (create_from_names global_type (codes "a" ∷ codes "a" ∷ []))
create_from_names-IsNameMap_example =
    create_from_names-IsNameMap global_type (codes "a" ∷ codes "a" ∷ [])

none_name : get rockets (NameMap.create 1 global_type 0) ≡ ok (codes "None")
unfolding get NameMap.index NameMap.kind NameMap.create same_kind with_number create_from_names
none_name = refl

get-store_other_example :
    get (store rockets (codes "New")).0 (NameMap.create 1 global_type 0) ≡ ok (codes "None")
get-store_other_example =
    get-store_other rockets (codes "New") (codes "None") (NameMap.create 1 global_type 0) none_name

abbrev reference : FPackageImportReference
reference = record { imported_package_index = 3; imported_public_export_hash_index = 4 }

abbrev entry : FScriptObjectEntry
entry = record {
  object_name = record { index_and_type = 5; number = 0 };
  global_index = record { type_and_id = 2 ^ 62 + 8 };
  outer_index = record { type_and_id = 2 ^ 64 - 1 };
  cdo_class_index = record { type_and_id = 2 ^ 64 - 1 };
}

entry-IsEntry : IsEntry entry
entry-IsEntry = record {
  object_name = record { index_and_type = omega arith; number = omega arith };
  global_index = omega arith;
  outer_index = omega arith;
  cdo_class_index = omega arith;
}

-- A pool of one handle, which is out.
abbrev full : Pool
full = record {
  max_handles = 1;
  available_files = [];
  active_count = 1;
  taken = 8 ∷ [];
  waiting = 0;
  woken = 0;
}

full-Reachable : Reachable 1 full
full-Reachable =
    acquired (new 1) full enters 8 true 8 start tt
      (unfold lock acquire_round take_or_open open_new new in refl)

Reachable-IsPool_example : IsPool 1 full
Reachable-IsPool_example = Reachable-IsPool 1 full full-Reachable

full-waited : acquire_round (lock enters full) 9 true ≡ must_wait
unfolding lock acquire_round take_or_open open_new
full-waited = refl

-- A thread waits for the handle, which is dropped.
abbrev served : Pool
served = record {
  max_handles = 1;
  available_files = 8 ∷ [];
  active_count = 1;
  taken = [];
  waiting = 1;
  woken = 1;
}

served-Reachable : Reachable 1 served
unfolding drop_handle notify_one wait lock remove
served-Reachable =
    dropped (wait (wait full)) 0 8 []
      (waited (wait full) enters 9 true (waited full enters 9 true full-Reachable tt full-waited) tt
        (unfold acquire_round take_or_open open_new in refl))
      refl

waiting_served_example : (1 + 0 ≡ 1) × (1 ≤ 1)
waiting_served_example = waiting_served 1 served served-Reachable (omega arith)
