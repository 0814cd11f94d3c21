-- ===== src/Pull/Files/Grouping.antt =====
-- What the file thread has collected when the channel is closed.
use dtu.Prelude.{
  ◌≡◌, refl, sym, ap, ◌∙◌, inl, inr, Bool, true, false, not, ◌&&◌, Option, none, some, List, [],
  ◌∷◌, ◌++◌, map, append-nil, append_assoc, map-append, if◌then◌else◌, Bool-cases, retain,
  retain-append, Text, same, same_iff, same_refl,
}
use dtu.Prelude.{sort_by, sort_by-sort_by-snoc}
use dtu.DevicePath.{DevicePath}
use dtu.Pull.FileTypes.{is_apk}
use dtu.Pull.Files.{
  NormalizedDeviceFile, rank, FileMap, get_normalized_name, add_to_map, on_normed_file_received,
  receive_all,
}

abbrev pub lookup : Text → FileMap → Option (List NormalizedDeviceFile)
lookup name [] = none
lookup name ((key, v) ∷ file_map) = if same key name then some v else lookup name file_map

-- The files to decompile under a name, in the order of their arrival.
abbrev pub group_of : Text → List NormalizedDeviceFile → List NormalizedDeviceFile
group_of name files =
    retain (λ f. not (is_apk f.file_type) && same (get_normalized_name f) name) files

-- A name has an entry if it has a file.
abbrev pub as_entry : List NormalizedDeviceFile → Option (List NormalizedDeviceFile)
as_entry [] = none
as_entry (f ∷ fs) = some (sort_by rank (f ∷ fs))

abbrev pub apk_paths : List NormalizedDeviceFile → List DevicePath
apk_paths files = map (λ f. f.device_path) (retain (λ f. is_apk f.file_type) files)

abbrev added :
    NormalizedDeviceFile → Option (List NormalizedDeviceFile) → Option (List NormalizedDeviceFile)
added f none = some (f ∷ [])
added f (some v) = some (sort_by rank (v ++ f ∷ []))

lookup-add_to_map_self :
    (name : Text) (f : NormalizedDeviceFile) (m : FileMap)
    → lookup name (add_to_map name f m) ≡ added f (lookup name m)
unfolding add_to_map
lookup-add_to_map_self name f [] = rw (same_refl name) refl
lookup-add_to_map_self name f ((key, v) ∷ m) = elim (Bool-cases (same key name)) [
  | inl e ↦ rw (e, e) refl
  | inr e ↦ rw (e, e) (lookup-add_to_map_self name f m)
]

lookup-add_to_map_other :
    (name other : Text) (f : NormalizedDeviceFile) (m : FileMap)
    → same name other ≡ false
    → lookup other (add_to_map name f m) ≡ lookup other m
unfolding add_to_map
lookup-add_to_map_other name other f [] d = rw d refl
lookup-add_to_map_other name other f ((key, v) ∷ m) d = elim (Bool-cases (same key name)) [
  | inl e ↦ rw (e, ap (λ (k : Text). same k other) ((same_iff key name).0 e) ∙ d) refl
  | inr e ↦ rw e (
      ap (λ (r : Option (List NormalizedDeviceFile)). if same key other then some v else r)
        (lookup-add_to_map_other name other f m d))
]

as_entry-snoc :
    (fs : List NormalizedDeviceFile) (f : NormalizedDeviceFile)
    → as_entry (fs ++ f ∷ []) ≡ added f (as_entry fs)
unfolding sort_by
as_entry-snoc [] f = refl
as_entry-snoc (g ∷ fs) f = ap some (sym (sort_by-sort_by-snoc rank (g ∷ fs) f))

retain-snoc_true {ℓ} :
    {A : Type ℓ} (p : A → Bool) (xs : List A) (x : A)
    → p x ≡ true
    → retain p (xs ++ x ∷ []) ≡ retain p xs ++ x ∷ []
retain-snoc_true p xs x h = retain-append p xs (x ∷ []) ∙ rw h refl

retain-snoc_false {ℓ} :
    {A : Type ℓ} (p : A → Bool) (xs : List A) (x : A)
    → p x ≡ false
    → retain p (xs ++ x ∷ []) ≡ retain p xs
retain-snoc_false p xs x h = retain-append p xs (x ∷ []) ∙ rw h (append-nil (retain p xs))

record Holds (files : List NormalizedDeviceFile) (s : List DevicePath × FileMap) : Type 0 where
  entries : (name : Text) → lookup name s.1 ≡ as_entry (group_of name files)
  apks : s.0 ≡ apk_paths files

received_apk :
    (files : List NormalizedDeviceFile) (f : NormalizedDeviceFile) (s : List DevicePath × FileMap)
    → is_apk f.file_type ≡ true
    → Holds files s
    → Holds (files ++ f ∷ []) (s.0 ++ f.device_path ∷ [], s.1)
received_apk files f s e h = record {
  entries = λ name.
      h.entries name
      ∙ ap as_entry (
          sym (
            retain-snoc_false (λ g. not (is_apk g.file_type) && same (get_normalized_name g) name)
              files f (rw e refl)));
  apks =
      ap (λ (ps : List DevicePath). ps ++ f.device_path ∷ []) h.apks
      ∙ sym (
          ap (map (λ (g : NormalizedDeviceFile). g.device_path))
            (retain-snoc_true (λ g. is_apk g.file_type) files f e)
          ∙ map-append (λ (g : NormalizedDeviceFile). g.device_path)
              (retain (λ g. is_apk g.file_type) files) (f ∷ []));
}

received_entry :
    (files : List NormalizedDeviceFile) (f : NormalizedDeviceFile) (m : FileMap) (name : Text)
    → is_apk f.file_type ≡ false
    → lookup name m ≡ as_entry (group_of name files)
    → lookup name (add_to_map (get_normalized_name f) f m)
      ≡ as_entry (group_of name (files ++ f ∷ []))
received_entry files f m name e h = elim (Bool-cases (same (get_normalized_name f) name)) [
  | inl same_name ↦
      ap (λ (k : Text). lookup k (add_to_map (get_normalized_name f) f m))
        (sym ((same_iff (get_normalized_name f) name).0 same_name))
      ∙ lookup-add_to_map_self (get_normalized_name f) f m
      ∙ ap (λ (k : Text). added f (lookup k m))
          ((same_iff (get_normalized_name f) name).0 same_name)
      ∙ ap (added f) h
      ∙ sym (as_entry-snoc (group_of name files) f)
      ∙ ap as_entry (
          sym (
            retain-snoc_true (λ g. not (is_apk g.file_type) && same (get_normalized_name g) name)
              files f (rw (e, same_name) refl)))
  | inr other ↦
      lookup-add_to_map_other (get_normalized_name f) name f m other
      ∙ h
      ∙ ap as_entry (
          sym (
            retain-snoc_false (λ g. not (is_apk g.file_type) && same (get_normalized_name g) name)
              files f (rw (e, other) refl)))
]

received-Holds :
    (files : List NormalizedDeviceFile) (f : NormalizedDeviceFile) (s : List DevicePath × FileMap)
    → Holds files s
    → Holds (files ++ f ∷ []) (on_normed_file_received f s)
unfolding on_normed_file_received
received-Holds files f s h = elim (Bool-cases (is_apk f.file_type)) [
  | inl e ↦ rw e (received_apk files f s e h)
  | inr e ↦ rw e (record {
    entries = λ name. received_entry files f s.1 name e (h.entries name);
    apks =
        h.apks
        ∙ ap (map (λ (g : NormalizedDeviceFile). g.device_path))
            (sym (retain-snoc_false (λ g. is_apk g.file_type) files f e));
  })
]

receive_all-Holds :
    (seen files : List NormalizedDeviceFile) (s : List DevicePath × FileMap)
    → Holds seen s
    → Holds (seen ++ files) (receive_all files s)
unfolding receive_all
receive_all-Holds seen [] s h = rw (append-nil seen) h
receive_all-Holds seen (f ∷ files) s h = rw (← append_assoc seen (f ∷ []) files) (
    receive_all-Holds (seen ++ f ∷ []) files (on_normed_file_received f s)
      (received-Holds seen f s h))

-- Whatever the order in which the files arrive, the map has under each name the files of that name that
-- are no APKs, sorted by their types and otherwise as they came, and no entry for a name without files;
-- the APKs are collected beside it in the order of their arrival.
pub receive_all_groups :
    (files : List NormalizedDeviceFile)
    → ((name : Text) → lookup name (receive_all files ([], [])).1 ≡ as_entry (group_of name files))
      × ((receive_all files ([], [])).0 ≡ apk_paths files)
receive_all_groups files =
    let h = receive_all-Holds [] files ([], []) (record { entries = λ name. refl; apks = refl }) in
    (h.entries, h.apks)
