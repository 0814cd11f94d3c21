-- ===== src/Diff/Database.antt =====
-- The device database, as the comparison uses it. SQLite and the query builder are not code of the
-- repository: the queries that read are functions of the database's state, and each insertion gives
-- the new state or an error. The reads of one database at one time are a record of its own, which is
-- all that is used of the other database.
use dtu.Prelude.{ℕ, ◌≡◌, refl, ◌⊎◌, inl, inr, Bool, false, ◌||◌, List, [], ◌∷◌, ◌==◌, Text}
use dtu.Diff.Rows.{
  Permission, Apk, Receiver, Activity, Service, Provider, SystemService, SystemServiceMethod,
}
use dtu.Diff.Inserts.{
  InsertApkDiff, InsertSystemServiceDiff, InsertSystemServiceMethodDiff, InsertIpcDiff,
  InsertProviderDiff, InsertPermissionDiff,
}

-- `db::Error`, without the texts that its cases carry.
pub data DbError : Type 0 where
  connection_error not_found invalid_query database_error unique_violation : DbError
  foreign_key_violation non_null_violation generic : DbError

pub data DbResult {ℓ} (A : Type ℓ) : Type ℓ where
  ok : A → DbResult A
  err : DbError → DbResult A

-- The `*_diffs_by_diff_id` queries join a table with its diffs for one source; of their rows only the
-- number of the joined item is used.
pub record Reads : Type 0 where
  pub get_system_services : DbResult (List SystemService)
  pub get_system_service_by_name : Text → DbResult SystemService
  pub get_system_service_methods_by_service_id : ℕ → DbResult (List SystemServiceMethod)
  pub get_apks : DbResult (List Apk)
  pub get_receivers : DbResult (List Receiver)
  pub get_services : DbResult (List Service)
  pub get_activities : DbResult (List Activity)
  pub get_providers : DbResult (List Provider)
  pub get_permissions : DbResult (List Permission)
  pub get_apk_diffs_by_diff_id : ℕ → DbResult (List ℕ)
  pub get_receiver_diffs_by_diff_id : ℕ → DbResult (List ℕ)
  pub get_service_diffs_by_diff_id : ℕ → DbResult (List ℕ)
  pub get_activity_diffs_by_diff_id : ℕ → DbResult (List ℕ)
  pub get_provider_diffs_by_diff_id : ℕ → DbResult (List ℕ)
  pub get_permission_diffs_by_diff_id : ℕ → DbResult (List ℕ)

pub record DeviceDatabase (S : Type 0) : Type 0 where
  pub reads : S → Reads
  pub add_system_service_diff : InsertSystemServiceDiff → S → DbResult S
  pub add_system_service_method_diff : InsertSystemServiceMethodDiff → S → DbResult S
  pub add_apk_diff : InsertApkDiff → S → DbResult S
  pub add_receiver_diff : InsertIpcDiff → S → DbResult S
  pub add_service_diff : InsertIpcDiff → S → DbResult S
  pub add_activity_diff : InsertIpcDiff → S → DbResult S
  pub add_provider_diff : InsertProviderDiff → S → DbResult S
  pub add_permission_diff : InsertPermissionDiff → S → DbResult S

pub DbResult-cases {ℓ} :
    {A : Type ℓ} (r : DbResult A) → ((a : A) × (r ≡ ok a)) ⊎ ((e : DbError) × (r ≡ err e))
DbResult-cases (ok a) = inl (a, refl)
DbResult-cases (err e) = inr (e, refl)

abbrev pub contains_id : List ℕ → ℕ → Bool
contains_id [] id = false
contains_id (x ∷ xs) id = x == id || contains_id xs id

-- What the comparison relies on of one table and its diffs: an insertion that the database takes leaves
-- the table as it is, and the item then counts among those that have a diff for the row's source,
-- beside those that had one.
pub record TableLaws {S T Ins : Type 0} (get_all : S → DbResult (List T))
    (get_done : ℕ → S → DbResult (List ℕ)) (add : Ins → S → DbResult S) (item source : Ins → ℕ)
    : Type 0 where
  pub keeps_all : (row : Ins) (s s' : S) → add row s ≡ ok s' → get_all s' ≡ get_all s
  pub done_ids : (row : Ins) (s s' : S) (ids : List ℕ) → List ℕ
  pub reads_done :
      (row : Ins) (s s' : S) (ids : List ℕ)
      → add row s ≡ ok s'
      → get_done (source row) s ≡ ok ids
      → get_done (source row) s' ≡ ok (done_ids row s s' ids)
  pub adds_item :
      (row : Ins) (s s' : S) (ids : List ℕ) (id : ℕ)
      → add row s ≡ ok s'
      → get_done (source row) s ≡ ok ids
      → contains_id (done_ids row s s' ids) id ≡ (item row == id || contains_id ids id)

module _ {S : Type 0} (database : DeviceDatabase S) where
  abbrev pub ApkTableLaws : Type 0
  ApkTableLaws =
      TableLaws (λ s. (database.reads s).get_apks)
        (λ src s. (database.reads s).get_apk_diffs_by_diff_id src) database.add_apk_diff
        (λ (row : InsertApkDiff). row.apk) (λ (row : InsertApkDiff). row.diff_source)

  abbrev pub ReceiverTableLaws : Type 0
  ReceiverTableLaws =
      TableLaws (λ s. (database.reads s).get_receivers)
        (λ src s. (database.reads s).get_receiver_diffs_by_diff_id src) database.add_receiver_diff
        (λ (row : InsertIpcDiff). row.item) (λ (row : InsertIpcDiff). row.diff_source)

  abbrev pub ServiceTableLaws : Type 0
  ServiceTableLaws =
      TableLaws (λ s. (database.reads s).get_services)
        (λ src s. (database.reads s).get_service_diffs_by_diff_id src) database.add_service_diff
        (λ (row : InsertIpcDiff). row.item) (λ (row : InsertIpcDiff). row.diff_source)

  abbrev pub ActivityTableLaws : Type 0
  ActivityTableLaws =
      TableLaws (λ s. (database.reads s).get_activities)
        (λ src s. (database.reads s).get_activity_diffs_by_diff_id src) database.add_activity_diff
        (λ (row : InsertIpcDiff). row.item) (λ (row : InsertIpcDiff). row.diff_source)

  abbrev pub ProviderTableLaws : Type 0
  ProviderTableLaws =
      TableLaws (λ s. (database.reads s).get_providers)
        (λ src s. (database.reads s).get_provider_diffs_by_diff_id src) database.add_provider_diff
        (λ (row : InsertProviderDiff). row.provider) (λ (row : InsertProviderDiff). row.diff_source)

  abbrev pub PermissionTableLaws : Type 0
  PermissionTableLaws =
      TableLaws (λ s. (database.reads s).get_permissions)
        (λ src s. (database.reads s).get_permission_diffs_by_diff_id src)
        database.add_permission_diff (λ (row : InsertPermissionDiff). row.permission)
        (λ (row : InsertPermissionDiff). row.diff_source)
