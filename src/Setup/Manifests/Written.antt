-- ===== src/Setup/Manifests/Written.antt =====
-- What `AddManifestTask::run` leaves in the database: the rows of the manifest, in their order.
use dtu.Prelude.{
  ◌+◌, ◌≡◌, refl, sym, ap, ◌∙◌, inl, inr, List, [], ◌∷◌, ◌++◌, map, append-nil, append_assoc,
  if◌then◌else◌, Bool-cases, is_empty, Text,
}
use dtu.Setup.Rows.{
  Row, receiver_row, activity_row, service_row, provider_row, permission_row, apk_permission_row,
  protected_broadcast_row, SetupEvent, adding_apk_permission, adding_apk_provider,
  adding_apk_activity, adding_apk_service, adding_apk_receiver,
}
use dtu.Manifest.Items.{Ipc, ProviderItem, PermissionItem}
use dtu.Setup.Exec.{ok, World, Outside}
use dtu.Setup.Written.{
  world, world_eq, Writes, none_out, then_out, out_each, events_each, >>-Writes, pure-Writes,
  on_event-Writes, for_each-Writes, cancel_check-Writes, insert-Writes, taken_in,
  insert_or_ignore-Writes,
}
use dtu.Setup.Manifests.{
  AddManifestTask, class_of, ipc_row, provider_entry_row, permission_entry_row,
  service_on_bind_returns_nonnull, add_manifest_receiver, add_manifest_receivers,
  add_manifest_provider, add_manifest_providers, add_manifest_activity, add_manifest_activities,
  add_manifest_service, add_manifest_services, add_manifest_permission, add_uses_permission,
  add_manifest_permissions, add_protected_broadcast, add_protected_broadcasts, run_manifest,
}

-- The rows of a list that the database takes, in order.
unfoldable pub kept : Outside → List Row → List Row → List Row
kept o rows [] = []
kept o rows (new ∷ more) = taken_in o new rows ++ kept o (rows ++ taken_in o new rows) more

kept-append :
    (o : Outside) (rows new more : List Row)
    → kept o rows (new ++ more) ≡ kept o rows new ++ kept o (rows ++ kept o rows new) more
unfolding kept
kept-append o rows [] more = rw (append-nil) refl
kept-append o rows (r ∷ new) more =
    rw (kept-append o (rows ++ taken_in o r rows) new more) (simp (append_assoc) (refl))

abbrev pub concat_map {ℓ κ} : {A : Type ℓ} {B : Type κ} → (A → List B) → List A → List B
concat_map f [] = []
concat_map f (x ∷ xs) = f x ++ concat_map f xs

out_each_all :
    {A : Type 0} (row : A → Row) (xs : List A) (rows : List Row)
    → out_each (λ x before. row x ∷ []) xs rows ≡ map row xs
out_each_all row [] rows = refl
out_each_all row (x ∷ xs) rows =
    ap (λ (rs : List Row). row x ∷ rs) (out_each_all row xs (rows ++ row x ∷ []))

out_each-kept :
    {A : Type 0} (o : Outside) (out : A → List Row → List Row) (new : A → List Row)
    → ((x : A) (rows : List Row) → out x rows ≡ kept o rows (new x))
    → (xs : List A) (rows : List Row) → out_each out xs rows ≡ kept o rows (concat_map new xs)
unfolding kept
out_each-kept o out new each [] rows = refl
out_each-kept o out new each (x ∷ xs) rows =
    rw (out_each-kept o out new each xs (rows ++ out x rows), each x rows)
      (sym (kept-append o rows (new x) (concat_map new xs)))

events_each_one :
    {A : Type 0} (evt : A → SetupEvent) (xs : List A)
    → events_each (λ x. evt x ∷ []) xs ≡ map evt xs
events_each_one evt [] = refl
events_each_one evt (x ∷ xs) = ap (λ (es : List SetupEvent). evt x ∷ es) (events_each_one evt xs)

events_each_none : {A : Type 0} (xs : List A) → events_each (λ (x : A). []) xs ≡ []
events_each_none [] = refl
events_each_none (x ∷ xs) = events_each_none xs

module _ (o : Outside) (t : AddManifestTask) where
  receiver-Writes :
      (r : Ipc)
      → Writes
          (add_manifest_receiver o t r)
          (λ rows. receiver_row (ipc_row o t r) ∷ [])
          (adding_apk_receiver t.identifier (class_of o t r) ∷ [])
          0
  unfolding add_manifest_receiver
  receiver-Writes r = >>-Writes (on_event-Writes _) (insert-Writes o _)

  provider-Writes :
      (p : ProviderItem)
      → Writes
          (add_manifest_provider o t p)
          (λ rows. provider_row (provider_entry_row o t p) ∷ [])
          (adding_apk_provider t.identifier (class_of o t p.ipc) ∷ [])
          0
  unfolding add_manifest_provider
  provider-Writes p = >>-Writes (on_event-Writes _) (insert-Writes o _)

  activity-Writes :
      (a : Ipc)
      → Writes
          (add_manifest_activity o t a)
          (λ rows. activity_row (ipc_row o t a) ∷ [])
          (adding_apk_activity t.identifier (class_of o t a) ∷ [])
          0
  unfolding add_manifest_activity
  activity-Writes a = >>-Writes (on_event-Writes _) (insert-Writes o _)

  abbrev pub service_entry_row : Ipc → Row
  service_entry_row s = service_row (record {
    service = ipc_row o t s;
    returns_binder = service_on_bind_returns_nonnull o t (class_of o t s);
  })

  service-Writes :
      (s : Ipc)
      → Writes
          (add_manifest_service o t s)
          (λ rows. service_entry_row s ∷ [])
          (adding_apk_service t.identifier (class_of o t s) ∷ [])
          0
  unfolding add_manifest_service
  service-Writes s = >>-Writes (on_event-Writes _) (insert-Writes o _)

  abbrev pub permission_event : PermissionItem → SetupEvent
  permission_event p =
      adding_apk_permission t.identifier (t.resolver.resolve_string p.permission_name)

  abbrev pub permission_out : PermissionItem → List Row → List Row
  permission_out p = then_out none_out (taken_in o (permission_row (permission_entry_row o t p)))

  permission-Writes :
      (p : PermissionItem)
      → Writes (add_manifest_permission o t p) (permission_out p) (permission_event p ∷ []) 0
  unfolding add_manifest_permission
  permission-Writes p = >>-Writes (on_event-Writes _) (insert_or_ignore-Writes o _)

  -- A permission that is used has a row, unless its name is empty.
  abbrev pub uses_rows : Text → List Row
  uses_rows up =
      let name = t.resolver.resolve_string up in
      if is_empty name then [] else apk_permission_row t.apk_id name ∷ []

  uses-Writes :
      (up : Text) → Writes (add_uses_permission o t up) (λ rows. kept o rows (uses_rows up)) [] 0
  unfolding add_uses_permission kept
  uses-Writes up = elim (Bool-cases (is_empty (t.resolver.resolve_string up))) [
    | inl nameless ↦ rw nameless pure-Writes
    | inr named ↦ rw named (simp (append-nil) (insert_or_ignore-Writes o _))
  ]

  abbrev pub broadcast_row : Text → Row
  broadcast_row pb = protected_broadcast_row (t.resolver.resolve_string pb)

  broadcast-Writes :
      (pb : Text) → Writes (add_protected_broadcast o t pb) (taken_in o (broadcast_row pb)) [] 0
  unfolding add_protected_broadcast
  broadcast-Writes pb = insert_or_ignore-Writes o _

  -- The rows of the components, none of which may be refused, and the rows that other APKs may have.
  unfoldable pub component_rows : List Row
  component_rows =
      let app = t.manifest.application in
      map (λ r. receiver_row (ipc_row o t r)) app.receivers
      ++ (map service_entry_row app.services
          ++ (map (λ p. provider_row (provider_entry_row o t p)) app.providers
              ++ (map (λ a. activity_row (ipc_row o t a)) app.activities
                  ++ map (λ a. activity_row (ipc_row o t a)) app.activity_aliases)))

  unfoldable pub shared_rows : List Row
  shared_rows =
      concat_map (λ p. permission_row (permission_entry_row o t p) ∷ []) t.manifest.permissions
      ++ (concat_map uses_rows t.manifest.uses_permissions
          ++ concat_map (λ pb. broadcast_row pb ∷ []) t.manifest.protected_broadcasts)

  unfoldable pub manifest_events : List SetupEvent
  manifest_events =
      let app = t.manifest.application in
      map (λ r. adding_apk_receiver t.identifier (class_of o t r)) app.receivers
      ++ (map (λ s. adding_apk_service t.identifier (class_of o t s)) app.services
          ++ (map (λ p. adding_apk_provider t.identifier (class_of o t (ProviderItem.ipc p)))
                app.providers
              ++ (map (λ a. adding_apk_activity t.identifier (class_of o t a)) app.activities
                  ++ (map (λ a. adding_apk_activity t.identifier (class_of o t a))
                        app.activity_aliases
                      ++ map permission_event t.manifest.permissions))))

  permissions_kept :
      (ps : List PermissionItem) (rows : List Row)
      → out_each permission_out ps rows
        ≡ kept o rows (concat_map (λ p. permission_row (permission_entry_row o t p) ∷ []) ps)
  permissions_kept =
      out_each-kept o permission_out (λ p. permission_row (permission_entry_row o t p) ∷ [])
        (λ p rows. unfold kept in simp (append-nil) (refl))

  broadcasts_kept :
      (pbs : List Text) (rows : List Row)
      → out_each (λ pb. taken_in o (broadcast_row pb)) pbs rows
        ≡ kept o rows (concat_map (λ pb. broadcast_row pb ∷ []) pbs)
  broadcasts_kept =
      out_each-kept o (λ pb. taken_in o (broadcast_row pb)) (λ pb. broadcast_row pb ∷ [])
        (λ pb rows. unfold kept in simp (append-nil) (refl))

  uses_kept :
      (ups : List Text) (rows : List Row)
      → out_each (λ up rows. kept o rows (uses_rows up)) ups rows
        ≡ kept o rows (concat_map uses_rows ups)
  uses_kept = out_each-kept o (λ up rows. kept o rows (uses_rows up)) uses_rows (λ up rows. refl)

  -- Where the task succeeds, the database has every row of the manifest's components, in their order,
  -- and behind them the other rows but those that were there already; every component and permission
  -- had its event, and the cancel flag was read four times.
  pub run_manifest_written :
      (w w' : World)
      → run_manifest o t w ≡ (ok tt, w')
      → w'
        ≡ world
            (w.rows ++ (component_rows ++ kept o (w.rows ++ component_rows) shared_rows))
            (w.events ++ manifest_events)
            (w.checks + 4)
  unfolding run_manifest add_manifest_receivers add_manifest_services add_manifest_providers
      add_manifest_activities add_manifest_permissions add_protected_broadcasts component_rows
      shared_rows manifest_events
  run_manifest_written w w' h =
      let m = t.manifest in
      let app = m.application in
      let effect = >>-Writes (for_each-Writes receiver-Writes app.receivers) (
        >>-Writes (cancel_check-Writes o) (
          >>-Writes (for_each-Writes service-Writes app.services) (
            >>-Writes (cancel_check-Writes o) (
              >>-Writes (for_each-Writes provider-Writes app.providers) (
                >>-Writes (cancel_check-Writes o) (
                  >>-Writes
                    (>>-Writes (for_each-Writes activity-Writes app.activities)
                      (for_each-Writes activity-Writes app.activity_aliases))
                    (>>-Writes (cancel_check-Writes o) (
                      >>-Writes
                        (>>-Writes (for_each-Writes permission-Writes m.permissions)
                          (for_each-Writes uses-Writes m.uses_permissions))
                        (for_each-Writes broadcast-Writes m.protected_broadcasts))))))))) in
      effect.written w w' h
      ∙ world_eq
          (ap (λ (rs : List Row). w.rows ++ rs)
            (simp
              (
                out_each_all (λ (r : Ipc). receiver_row (ipc_row o t r)),
                out_each_all service_entry_row,
                out_each_all (λ (p : ProviderItem). provider_row (provider_entry_row o t p)),
                out_each_all (λ (a : Ipc). activity_row (ipc_row o t a)),
                permissions_kept,
                uses_kept,
                broadcasts_kept,
                append-nil,
                append_assoc,
                kept-append,
              )
              (refl)))
          (ap (λ (es : List SetupEvent). w.events ++ es)
            (simp
              (
                events_each_one (λ (r : Ipc). adding_apk_receiver t.identifier (class_of o t r)),
                events_each_one (λ (s : Ipc). adding_apk_service t.identifier (class_of o t s)),
                events_each_one
                    (λ (p : ProviderItem). adding_apk_provider t.identifier (class_of o t p.ipc)),
                events_each_one (λ (a : Ipc). adding_apk_activity t.identifier (class_of o t a)),
                events_each_one permission_event,
                events_each_none {A = Text},
                append-nil,
                append_assoc,
              )
              (refl)))
          refl
