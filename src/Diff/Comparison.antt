-- ===== src/Diff/Comparison.antt =====
-- What the rows say: each flag against the values that it compares.
use dtu.Prelude.{
  ◌≡◌, ◌≢◌, ◌↔◌, Bool, true, not, Option, none, some, List, [], ◌∷◌, ◌++◌, arith, all, Text,
  same_iff,
}
use dtu.UnknownBool.{ub_true, ub_false, from_bool}
use dtu.Diff.Rows.{Permission, Provider, SystemServiceMethod}
use dtu.Diff.SystemServices.{find_last, hash_matches}
use dtu.Diff.Components.{
  DiffTask, ApkIpc, exported_matches, perms_match, same_option, get_and_cmp, is_some,
}
use dtu.Diff.Task.{provider_entry, permission_entry}

same_option_iff : (a b : Option Text) → (same_option a b ≡ true) ↔ (a ≡ b)
same_option_iff (some a) (some b) = ground (arith, same_iff a b)
same_option_iff _ _ = ground arith

exported_matches_iff : (a b : Bool) → (exported_matches a b ≡ true) ↔ (a ≡ b)
exported_matches_iff a b = ground arith

perms_match-same_option :
    {T : Type 0} ⦃i : ApkIpc T⦄ (device diff : T)
    → perms_match device diff
      ≡ same_option (i.get_generic_permission device) (i.get_generic_permission diff)
unfolding perms_match
perms_match-same_option ⦃i⦄ device diff = ground arith

-- A component that both databases have matches in its exported flag exactly if the flags are equal, and
-- in its permission exactly if both require the same one or neither requires any.
pub ipc_flags_iff :
    {T : Type 0} ⦃i : ApkIpc T⦄ (device diff : T)
    → ((exported_matches (i.is_exported device) (i.is_exported diff) ≡ true)
        ↔ (i.is_exported device ≡ i.is_exported diff))
      × ((perms_match device diff ≡ true)
          ↔ (i.get_generic_permission device ≡ i.get_generic_permission diff))
ipc_flags_iff ⦃i⦄ device diff = (
  exported_matches_iff (i.is_exported device) (i.is_exported diff),
  rw (perms_match-same_option device diff)
      (same_option_iff (i.get_generic_permission device) (i.get_generic_permission diff)),
)

get_and_cmp_lem :
    (dev diff : Option Text)
    → (((get_and_cmp dev diff).0 ≡ true) ↔ (dev ≡ diff)) × ((get_and_cmp dev diff).1 ≡ diff)
unfolding get_and_cmp
get_and_cmp_lem (some a) (some b) = ground (arith, same_iff b a)
get_and_cmp_lem none (some b) = ground arith
get_and_cmp_lem (some a) none = ground arith
get_and_cmp_lem none none = ground arith

-- The row of a provider that both databases have records the other's three permissions, and flags each
-- of them, and the exported flag, exactly if it is the same on the device.
pub provider_entry_iff :
    {S : Type 0} (t : DiffTask S) (device diff : Provider)
    → ((provider_entry t device (some diff)).diff_permission ≡ diff.permission)
      × ((provider_entry t device (some diff)).diff_read_permission ≡ diff.read_permission)
      × ((provider_entry t device (some diff)).diff_write_permission ≡ diff.write_permission)
      × (((provider_entry t device (some diff)).permission_matches_diff ≡ true)
          ↔ (device.permission ≡ diff.permission))
      × (((provider_entry t device (some diff)).read_permission_matches_diff ≡ true)
          ↔ (device.read_permission ≡ diff.read_permission))
      × (((provider_entry t device (some diff)).write_permission_matches_diff ≡ true)
          ↔ (device.write_permission ≡ diff.write_permission))
      × (((provider_entry t device (some diff)).exported_matches_diff ≡ true)
          ↔ (device.exported ≡ diff.exported))
unfolding provider_entry
provider_entry_iff t device diff =
    let (p, dp) = get_and_cmp_lem device.permission diff.permission in
    let (r, dr) = get_and_cmp_lem device.read_permission diff.read_permission in
    let (w, dw) = get_and_cmp_lem device.write_permission diff.write_permission in
    (dp, dr, dw, p, r, w, exported_matches_iff device.exported diff.exported)

-- The row of a permission records whether the other database has it, and its level there; the levels
-- match exactly if it is there with the level of the device.
pub permission_entry_iff :
    {S : Type 0} (t : DiffTask S) (device : Permission) (diff : Option Permission)
    → ((permission_entry t device diff).exists_in_diff ≡ is_some diff)
      × (((permission_entry t device diff).protection_level_matches_diff ≡ true)
          ↔ ((permission_entry t device diff).diff_protection_level ≡ some device.protection_level))
unfolding permission_entry
permission_entry_iff t device none = ground arith
permission_entry_iff t device (some diff) =
    ground (arith, same_iff device.protection_level diff.protection_level)

-- A hash map that was filled in order gives the last value under a key, if any has it.
pub find_last_lem :
    {A : Type 0} (p : A → Bool) (xs ys : List A) (x : A)
    → p x ≡ true
    → all (λ y. not (p y)) ys ≡ true
    → (find_last p (xs ++ x ∷ ys) ≡ some x) × (find_last p ys ≡ none)
unfolding find_last
find_last_lem p [] [] x h k = ground arith
find_last_lem p [] (y ∷ ys) x h k = ground (arith, find_last_lem p [] ys x h)
find_last_lem p (z ∷ xs) ys x h k = ground (arith, find_last_lem p xs ys x h k)

-- The hash of a device's method is held against the signature of the other database's method: where
-- both are known they match exactly if these two texts are equal, whatever the other method's hash.
pub hash_matches_iff :
    (device diff : SystemServiceMethod) (hash signature : Text)
    → device.smalisa_hash ≡ some hash
    → diff.signature ≡ some signature
    → ((hash_matches device diff ≡ ub_true) ↔ (hash ≡ signature))
      × ((hash_matches device diff ≡ ub_false) ↔ (hash ≢ signature))
unfolding hash_matches from_bool
hash_matches_iff device diff hash signature hd hs = ground (arith, hd, hs, same_iff hash signature)

-- A method is reported as changed against itself, with the same hash, unless its signature has the
-- text of the hash.
pub hash_matches_itself :
    (m : SystemServiceMethod) (hash signature : Text)
    → m.smalisa_hash ≡ some hash
    → m.signature ≡ some signature
    → hash ≢ signature
    → hash_matches m m ≡ ub_false
hash_matches_itself m hash signature hh hs ne = (hash_matches_iff m m hash signature hh hs).1.1 ne
