-- ===== src/Manifest/Tests.antt =====
-- The theorems at small resource files and manifests.
use dtu.Prelude.{
  String, ◌≡◌, refl, true, Option, none, some, List, [], ◌∷◌, Text, codes, same, split_once,
}
use dtu.Manifest.Xml.{Attribute, Event, start, text, close}
use dtu.Manifest.References.{
  ValueReference, parsed, parse, Files, XmlResolver, is_reference, Resolution, resolved, target_of,
  for_value_reference, value_text,
}
use dtu.Manifest.References.Chains.{Chain}
use dtu.Manifest.Arrays.{array_resolved, resolve_array}
use dtu.Manifest.Arrays.Items.{resolve_array_first}
use dtu.Manifest.Resolvers.{
  get_bool_resource, resolve_value, apktool_string, apktool_bool, apktool_resolver,
}
use dtu.Manifest.Resolvers.Values.{resolve_value_total, apktool-Chain, apktool_cycle}
use dtu.Manifest.Items.{ProviderItem, split_char, authorities}
use dtu.Manifest.Items.Authorities.{apktool-IsResolver, authorities_lem}

abbrev named : String → List (Option Attribute)
named key = some (record { name = codes "name"; value = codes key }) ∷ []

abbrev bools : List Event
bools =
    start (codes "resources") []
    ∷ start (codes "bool") (named "a")
    ∷ text (some (codes "@bool/b"))
    ∷ close
    ∷ start (codes "bool") (named "b")
    ∷ text (some (codes "true"))
    ∷ close
    ∷ start (codes "bool") (named "c")
    ∷ text (some (codes "@bool/c"))
    ∷ close
    ∷ close
    ∷ []

abbrev files : Files
files = (codes "out/res/values/bools.xml", bools) ∷ []

abbrev bool_entry : String → XmlResolver
bool_entry key = record { xml = bools; tag = codes "bool"; key = codes key }

resolve_value_total_example :
    (v : Option Text) × (seen : List Text) × (resolve_value
        (codes "out")
        files
        some
        (codes "@bool/c")
      ≡ resolved v seen)
resolve_value_total_example = resolve_value_total (codes "out") files some (codes "@bool/c")

apktool-Chain_example :
    (apktool_string (codes "out") files (codes "@bool/a") ≡ codes "true")
    × (apktool_bool (codes "out") files (codes "@bool/a") ≡ some true)
unfolding target_of parse split_once for_value_reference dtu.Manifest.References.open_file same
    dtu.ProjectPath.join dtu.Manifest.References.Chains.next value_text
    dtu.Manifest.Xml.goto_value_entry get_bool_resource
apktool-Chain_example =
    apktool-Chain (codes "out") files (codes "@bool/a") (bool_entry "a") 1 1 (codes "true")
      (some true) refl refl (bool_entry "b", refl, (refl, refl))
      (bool_entry "b", refl, (refl, refl))

apktool_cycle_example :
    (apktool_string (codes "out") files (codes "@bool/c") ≡ codes "@bool/c")
    × (apktool_bool (codes "out") files (codes "@bool/c") ≡ none)
unfolding parse split_once for_value_reference dtu.Manifest.References.open_file same
    dtu.ProjectPath.join value_text dtu.Manifest.Xml.goto_value_entry
apktool_cycle_example =
    apktool_cycle (codes "out") files (codes "@bool/c") (codes "@bool/c")
      (record { kind = codes "bool"; name = codes "c" }) (bool_entry "c") refl refl refl refl refl
      refl

abbrev compact : XmlResolver
compact = record {
  xml =
      start (codes "array") (named "a")
      ∷ start (codes "item") []
      ∷ text (some (codes "one"))
      ∷ close
      ∷ start (codes "item") []
      ∷ text (some (codes "two"))
      ∷ close
      ∷ close
      ∷ [];
  tag = codes "array";
  key = codes "a";
}

abbrev indented : XmlResolver
indented = record {
  xml =
      start (codes "array") (named "a")
      ∷ text (some (codes "  "))
      ∷ start (codes "item") []
      ∷ text (some (codes "one"))
      ∷ close
      ∷ close
      ∷ [];
  tag = codes "array";
  key = codes "a";
}

resolve_array_first_example :
    (resolve_array (codes "out") files some compact ≡ array_resolved (some (codes "one" ∷ [])))
    × (resolve_array (codes "out") files some indented ≡ array_resolved (some []))
unfolding dtu.Manifest.Xml.goto_value_entry same
resolve_array_first_example =
    resolve_array_first (codes "out") files some compact indented [] b'o' (codes "ne") (codes "one")
      (some (codes "  ")) (start (codes "item") [] ∷ text (some (codes "two")) ∷ close ∷ close ∷ [])
      (start (codes "item") [] ∷ text (some (codes "one")) ∷ close ∷ close ∷ []) refl refl refl refl
      refl

abbrev provider : ProviderItem
provider = record {
  ipc = record {
    ipc_name = codes ".P";
    ipc_enabled = none;
    ipc_exported = none;
    ipc_permission = none;
    intent_filters = [];
  };
  provider_authorities = codes "@bool/a;x.y;@bool/b";
  provider_read_permission = none;
  provider_write_permission = none;
  provider_grant_uri_permissions = none;
}

authorities_lem_example :
    authorities (apktool_resolver (codes "out") files) provider ≡ codes "true;x.y;true"
unfolding split_char apktool_string resolve_value parse split_once for_value_reference
    dtu.Manifest.References.open_file same dtu.ProjectPath.join dtu.Manifest.References.resolve
    value_text dtu.Manifest.Xml.goto_value_entry dtu.Manifest.References.has_seen
    dtu.Manifest.References.Fuel.file_texts
authorities_lem_example =
    authorities_lem (apktool_resolver (codes "out") files) (apktool-IsResolver (codes "out") files)
      provider
