-- ===== src/Manifest/Resolvers.antt =====
-- `ManifestResolver` of dtu/src/manifest.rs: the interface, and its three implementations.
pub mod Values
use dtu.Prelude.{
  suc, Bool, true, false, Option, none, some, List, [], if◌then◌else◌, length, Text, codes, same,
  starts_with,
}
use dtu.ProjectPath.{join}
use dtu.Manifest.Xml.{public_name, Event}
use dtu.Manifest.References.{
  Parsed, panicked, parsed, parse, Files, XmlResolver, is_reference, Resolution, exhausted, crashed,
  resolved, resolver_for, resolve, open_file,
}
use dtu.Manifest.References.Fuel.{file_texts}
use dtu.Manifest.Arrays.{
  ArrayResolution, array_resolved, array_exhausted, array_crashed, resolve_array,
}

pub record ManifestResolver : Type 0 where
  pub resolve_string : Text → Text
  pub resolve_bool : Text → Option Bool
  pub resolve_string_array : Text → ArrayResolution Text
  pub resolve_string_id : Text → Option Text

unfoldable pub get_bool_resource : Text → Option Bool
get_bool_resource raw =
    if same raw (codes "true")
    then some true
    else if same raw (codes "false")
    then some false
    else none

-- `NoopManifestResolver`.
abbrev pub noop_resolver : ManifestResolver
noop_resolver = record {
  resolve_string = λ value. value;
  resolve_bool = get_bool_resource;
  resolve_string_array = λ reference. array_resolved none;
  resolve_string_id = λ id. none;
}

-- The implementation for `Option<T>`.
abbrev pub option_resolver : Option ManifestResolver → ManifestResolver
option_resolver none = noop_resolver
option_resolver (some v) = v

abbrev pub bool_or : Option Bool → Option Bool → Option Bool
bool_or none raw = raw
bool_or (some v) raw = some v

-- What a resolution returns, where it returns.
abbrev pub returned : {A : Type 0} → Resolution A → Option A
returned exhausted = none
returned crashed = none
returned (resolved v seen) = v

module _ (base_dir : Text) (files : Files) where
  module _ {A : Type 0} (transform : Text → Option A) where
    abbrev pub resolve_from : Option XmlResolver → Resolution A
    resolve_from none = resolved none []
    resolve_from (some x) = resolve base_dir files transform (suc (length (file_texts files))) x []

    abbrev pub resolve_parsed : Parsed → Resolution A
    resolve_parsed panicked = crashed
    resolve_parsed (parsed vr) = resolve_from (resolver_for base_dir files vr)

    -- `ApktoolManifestResolver::resolve`.
    unfoldable pub resolve_value : Text → Resolution A
    resolve_value value =
        if is_reference value then resolve_parsed (parse value) else resolved none []

    abbrev pub resolve_array_from : Option XmlResolver → ArrayResolution A
    resolve_array_from none = array_resolved none
    resolve_array_from (some x) = resolve_array base_dir files transform x

    abbrev pub resolve_array_parsed : Parsed → ArrayResolution A
    resolve_array_parsed panicked = array_crashed
    resolve_array_parsed (parsed vr) = resolve_array_from (resolver_for base_dir files vr)

    -- `ApktoolManifestResolver::resolve_array`.
    unfoldable pub resolve_array_value : Text → ArrayResolution A
    resolve_array_value reference =
        if is_reference reference
        then resolve_array_parsed (parse reference)
        else array_resolved none

  abbrev public_name_in : Text → Option (List Event) → Option Text
  public_name_in id none = none
  public_name_in id (some xml) = public_name id xml

  unfoldable pub get_public_xml_name : Text → Option Text
  get_public_xml_name id =
      if starts_with id (codes "0x")
      then public_name_in id (open_file files (join base_dir (codes "values/public.xml")))
      else none

  abbrev pub string_or : Text → Option Text → Text
  string_or value none = value
  string_or value (some v) = v

  unfoldable pub apktool_bool : Text → Option Bool
  apktool_bool value =
      bool_or (returned (resolve_value get_bool_resource value)) (get_bool_resource value)

  unfoldable pub apktool_string : Text → Text
  apktool_string value = string_or value (returned (resolve_value some value))

  abbrev pub map_string : Option Text → Option Text
  map_string none = none
  map_string (some name) = some (apktool_string name)

  unfoldable pub apktool_string_id : Text → Option Text
  apktool_string_id id = map_string (get_public_xml_name id)

  abbrev pub apktool_resolver : ManifestResolver
  apktool_resolver = record {
    resolve_string = apktool_string;
    resolve_bool = apktool_bool;
    resolve_string_array = resolve_array_value some;
    resolve_string_id = apktool_string_id;
  }
