-- ===== src/Diff/Memory.antt =====
-- A database in memory that keeps the laws which the comparison relies on: the diffs of each kind are a
-- list of pairs of an item and a source; a pair is stored once, as the tables' unique keys demand, and
-- a table takes as many as the capacity says.
use dtu.Prelude.{ℕ, refl, Bool, List, [], ◌∷◌, arith, ltb, ◌==◌, if◌then◌else◌, length}
use dtu.Diff.Database.{
  DbResult, ok, err, unique_violation, database_error, Reads, DeviceDatabase, contains_id,
  ApkTableLaws, ReceiverTableLaws, ServiceTableLaws, ActivityTableLaws, ProviderTableLaws,
  PermissionTableLaws,
}

abbrev Pairs : Type 0
Pairs = List (ℕ × ℕ)

-- The items of one source.
abbrev items_of : ℕ → Pairs → List ℕ
items_of src [] = []
items_of src ((i, s) ∷ ps) = let rest = items_of src ps in if s == src then i ∷ rest else rest

abbrev is_stored : ℕ → ℕ → Pairs → Bool
is_stored i src ps = contains_id (items_of src ps) i

pub record Memory : Type 0 where
  pub base : Reads
  pub capacity : ℕ
  pub services_done : Pairs
  pub methods_done : Pairs
  pub apks_done : Pairs
  pub receivers_done : Pairs
  pub ipc_services_done : Pairs
  pub activities_done : Pairs
  pub providers_done : Pairs
  pub permissions_done : Pairs

abbrev pub memory_reads : Memory → Reads
memory_reads m = record m.base {
  get_apk_diffs_by_diff_id = λ src. ok (items_of src m.apks_done);
  get_receiver_diffs_by_diff_id = λ src. ok (items_of src m.receivers_done);
  get_service_diffs_by_diff_id = λ src. ok (items_of src m.ipc_services_done);
  get_activity_diffs_by_diff_id = λ src. ok (items_of src m.activities_done);
  get_provider_diffs_by_diff_id = λ src. ok (items_of src m.providers_done);
  get_permission_diffs_by_diff_id = λ src. ok (items_of src m.permissions_done);
}

abbrev unless_stored : ℕ → ℕ → Pairs → Memory → DbResult Memory
unless_stored i src ps m =
    if is_stored i src ps
    then err unique_violation
    else (if ltb (length ps) m.capacity then ok m else err database_error)

abbrev pub memory : DeviceDatabase Memory
memory = record {
  reads = memory_reads;
  add_system_service_diff = λ r m.
      unless_stored r.system_service r.diff_source m.services_done
        (record m { services_done = (r.system_service, r.diff_source) ∷ m.services_done });
  add_system_service_method_diff = λ r m.
      unless_stored r.method r.diff_source m.methods_done
        (record m { methods_done = (r.method, r.diff_source) ∷ m.methods_done });
  add_apk_diff = λ r m.
      unless_stored r.apk r.diff_source m.apks_done
        (record m { apks_done = (r.apk, r.diff_source) ∷ m.apks_done });
  add_receiver_diff = λ r m.
      unless_stored r.item r.diff_source m.receivers_done
        (record m { receivers_done = (r.item, r.diff_source) ∷ m.receivers_done });
  add_service_diff = λ r m.
      unless_stored r.item r.diff_source m.ipc_services_done
        (record m { ipc_services_done = (r.item, r.diff_source) ∷ m.ipc_services_done });
  add_activity_diff = λ r m.
      unless_stored r.item r.diff_source m.activities_done
        (record m { activities_done = (r.item, r.diff_source) ∷ m.activities_done });
  add_provider_diff = λ r m.
      unless_stored r.provider r.diff_source m.providers_done
        (record m { providers_done = (r.provider, r.diff_source) ∷ m.providers_done });
  add_permission_diff = λ r m.
      unless_stored r.permission r.diff_source m.permissions_done
        (record m { permissions_done = (r.permission, r.diff_source) ∷ m.permissions_done });
}

pub memory-ApkTableLaws : ApkTableLaws memory
memory-ApkTableLaws = record {
  keeps_all = λ r s s' h. ground arith;
  done_ids = λ r s s' ids. r.apk ∷ ids;
  reads_done = λ r s s' ids h d. ground arith;
  adds_item = λ r s s' ids id h d. refl;
}

pub memory-ReceiverTableLaws : ReceiverTableLaws memory
memory-ReceiverTableLaws = record {
  keeps_all = λ r s s' h. ground arith;
  done_ids = λ r s s' ids. r.item ∷ ids;
  reads_done = λ r s s' ids h d. ground arith;
  adds_item = λ r s s' ids id h d. refl;
}

pub memory-ServiceTableLaws : ServiceTableLaws memory
memory-ServiceTableLaws = record {
  keeps_all = λ r s s' h. ground arith;
  done_ids = λ r s s' ids. r.item ∷ ids;
  reads_done = λ r s s' ids h d. ground arith;
  adds_item = λ r s s' ids id h d. refl;
}

pub memory-ActivityTableLaws : ActivityTableLaws memory
memory-ActivityTableLaws = record {
  keeps_all = λ r s s' h. ground arith;
  done_ids = λ r s s' ids. r.item ∷ ids;
  reads_done = λ r s s' ids h d. ground arith;
  adds_item = λ r s s' ids id h d. refl;
}

pub memory-ProviderTableLaws : ProviderTableLaws memory
memory-ProviderTableLaws = record {
  keeps_all = λ r s s' h. ground arith;
  done_ids = λ r s s' ids. r.provider ∷ ids;
  reads_done = λ r s s' ids h d. ground arith;
  adds_item = λ r s s' ids id h d. refl;
}

pub memory-PermissionTableLaws : PermissionTableLaws memory
memory-PermissionTableLaws = record {
  keeps_all = λ r s s' h. ground arith;
  done_ids = λ r s s' ids. r.permission ∷ ids;
  reads_done = λ r s s' ids h d. ground arith;
  adds_item = λ r s s' ids id h d. refl;
}
