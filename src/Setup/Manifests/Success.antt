-- ===== src/Setup/Manifests/Success.antt =====
-- `AddManifestTask::run` succeeds where it is not cancelled and the database refuses nothing but the
-- rows that other APKs may have, as there already.
use dtu.Prelude.{
  ℕ, ◌≡◌, refl, ◌⊎◌, inl, inr, Bool, true, false, none, some, List, Bool-cases, is_empty, Text,
}
use dtu.Diff.Database.{unique_violation}
use dtu.Setup.Rows.{
  SetupEvent, Row, receiver_row, activity_row, provider_row, permission_row, apk_permission_row,
  protected_broadcast_row,
}
use dtu.Setup.Exec.{ok, World, Outside, on_event, insert, insert_or_ignore, cancel_check, ◌>>◌}
use dtu.Setup.Success.{
  Succeeds, pure-Succeeds, on_event-Succeeds, >>-Succeeds, for_each-Succeeds, cancel_check-Succeeds,
  insert-Succeeds, insert_or_ignore-Succeeds,
}
use dtu.Manifest.Items.{Ipc, ProviderItem, PermissionItem}
use dtu.Setup.Manifests.Written.{service_entry_row, broadcast_row}
use dtu.Setup.Manifests.{
  AddManifestTask, ipc_row, provider_entry_row, permission_entry_row, add_manifest_receiver,
  add_manifest_receivers, add_manifest_provider, add_manifest_providers, add_manifest_activity,
  add_manifest_activities, add_manifest_service, add_manifest_services, add_manifest_permission,
  add_uses_permission, add_manifest_permissions, add_protected_broadcast, add_protected_broadcasts,
  run_manifest,
}

-- The rows whose unique violations are no error.
abbrev pub is_shared : Row → Bool
is_shared (permission_row r) = true
is_shared (apk_permission_row id name) = true
is_shared (protected_broadcast_row name) = true
is_shared _ = false

module _ (o : Outside) (t : AddManifestTask) (never : (n : ℕ) → o.cancel n ≡ false)
    (takes : (row : Row) (rows : List Row) → is_shared row ≡ false → o.refuses rows row ≡ none)
    (shares : (row : Row) (rows : List Row)
      → is_shared row ≡ true
      → (o.refuses rows row ≡ none) ⊎ (o.refuses rows row ≡ some unique_violation)) where
  taken-Succeeds :
      (evt : SetupEvent) (row : Row)
      → is_shared row ≡ false
      → Succeeds (on_event evt >> insert o row)
  taken-Succeeds evt row own =
      >>-Succeeds (on_event-Succeeds evt) (insert-Succeeds o row (λ rows. takes row rows own))

  shared-Succeeds : (row : Row) → is_shared row ≡ true → Succeeds (insert_or_ignore o row)
  shared-Succeeds row own = insert_or_ignore-Succeeds o row (λ rows. shares row rows own)

  receiver-Succeeds : (r : Ipc) → Succeeds (add_manifest_receiver o t r)
  unfolding add_manifest_receiver
  receiver-Succeeds r = taken-Succeeds _ (receiver_row (ipc_row o t r)) refl

  service-Succeeds : (s : Ipc) → Succeeds (add_manifest_service o t s)
  unfolding add_manifest_service
  service-Succeeds s = taken-Succeeds _ (service_entry_row o t s) refl

  provider-Succeeds : (p : ProviderItem) → Succeeds (add_manifest_provider o t p)
  unfolding add_manifest_provider
  provider-Succeeds p = taken-Succeeds _ (provider_row (provider_entry_row o t p)) refl

  activity-Succeeds : (a : Ipc) → Succeeds (add_manifest_activity o t a)
  unfolding add_manifest_activity
  activity-Succeeds a = taken-Succeeds _ (activity_row (ipc_row o t a)) refl

  permission-Succeeds : (p : PermissionItem) → Succeeds (add_manifest_permission o t p)
  unfolding add_manifest_permission
  permission-Succeeds p =
      >>-Succeeds (on_event-Succeeds _)
        (shared-Succeeds (permission_row (permission_entry_row o t p)) refl)

  broadcast-Succeeds : (pb : Text) → Succeeds (add_protected_broadcast o t pb)
  unfolding add_protected_broadcast
  broadcast-Succeeds pb = shared-Succeeds (broadcast_row o t pb) refl

  uses-Succeeds : (up : Text) → Succeeds (add_uses_permission o t up)
  unfolding add_uses_permission
  uses-Succeeds up =
      let name : Text = t.resolver.resolve_string up in
      elim (Bool-cases (is_empty name)) [
        | inl nameless ↦ rw nameless pure-Succeeds
        | inr named ↦ rw named (shared-Succeeds (apk_permission_row t.apk_id name) refl)
      ]

  check-Succeeds : Succeeds (cancel_check o)
  check-Succeeds = cancel_check-Succeeds o never

  run_manifest-Succeeds : Succeeds (run_manifest o t)
  unfolding run_manifest add_manifest_receivers add_manifest_services add_manifest_providers
      add_manifest_activities add_manifest_permissions add_protected_broadcasts
  run_manifest-Succeeds = >>-Succeeds (for_each-Succeeds receiver-Succeeds _) (
      >>-Succeeds check-Succeeds (
        >>-Succeeds (for_each-Succeeds service-Succeeds _) (
          >>-Succeeds check-Succeeds (
            >>-Succeeds (for_each-Succeeds provider-Succeeds _) (
              >>-Succeeds check-Succeeds (
                >>-Succeeds
                  (>>-Succeeds (for_each-Succeeds activity-Succeeds _)
                    (for_each-Succeeds activity-Succeeds _))
                  (>>-Succeeds check-Succeeds (
                    >>-Succeeds
                      (>>-Succeeds (for_each-Succeeds permission-Succeeds _)
                        (for_each-Succeeds uses-Succeeds _))
                      (for_each-Succeeds broadcast-Succeeds _)))))))))

  -- A task that is never cancelled succeeds where the database takes every row but those of
  -- permissions and of protected broadcasts, of which it may refuse some as there already.
  pub run_manifest_succeeds : (w : World) → (w' : World) × (run_manifest o t w ≡ (ok tt, w'))
  run_manifest_succeeds w = run_manifest-Succeeds.succeeded w
