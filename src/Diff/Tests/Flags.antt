-- ===== src/Diff/Tests/Flags.antt =====
-- The flags of the rows at concrete components and methods.
use dtu.Prelude.{ℕ, ◌≢◌, Option, none, some, arith, Text, codes}
use dtu.Diff.Rows.{SystemServiceMethod}
use dtu.Diff.Components.{receiver_ipc}

abbrev no_permission : Option Text
no_permission = none

abbrev method_at : ℕ → Text → SystemServiceMethod
method_at i h = record {
  id = i;
  system_service_id = 1;
  transaction_id = 1;
  name = codes "m";
  signature = some (codes "I");
  return_type = some (codes "V");
  smalisa_hash = some h;
}

f-not-i : codes "f" ≢ codes "I"
f-not-i h = ground (arith, h)
