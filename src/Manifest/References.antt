-- ===== src/Manifest/References.antt =====
-- The references `@kind/name` of resource files, and how a value is resolved through them:
-- `ValueReference` and `XmlResolver` of dtu/src/manifest.rs. The files below the base directory are an
-- association list from paths to events.
pub mod Fuel
pub mod Chains
use dtu.Prelude.{
  ℕ, zero, suc, Bool, false, not, ◌||◌, Option, none, some, List, [], ◌∷◌, ◌++◌, ltb, if◌then◌else◌,
  Text, codes, same, starts_with_char, split_once,
}
use dtu.ProjectPath.{join}
use dtu.Manifest.Xml.{Event, goto_value_entry, text_of}

pub record ValueReference : Type 0 where
  pub kind : Text
  pub name : Text

-- `&from[1..]` panics on the empty text, and where the first character takes more than one byte.
pub data Parsed : Type 0 where
  panicked : Parsed
  parsed : Option ValueReference → Parsed

abbrev pub to_reference : Option (Text × Text) → Option ValueReference
to_reference none = none
to_reference (some (kind, name)) = some (record { kind = kind; name = name })

unfoldable pub parse : Text → Parsed
parse [] = panicked
parse (c ∷ from) = if ltb c 128 then parsed (to_reference (split_once b'/' from)) else panicked

abbrev pub tag_for : ValueReference → Text
tag_for vr = vr.kind

abbrev pub Files : Type 0
Files = List (Text × List Event)

unfoldable pub open_file : Files → Text → Option (List Event)
open_file [] path = none
open_file ((p, xml) ∷ files) path = if same p path then some xml else open_file files path

-- The reader of one file, and the entry that is looked for.
pub record XmlResolver : Type 0 where
  pub xml : List Event
  pub tag : Text
  pub key : Text

abbrev pub resolver_of : ValueReference → Option (List Event) → Option XmlResolver
resolver_of vr none = none
resolver_of vr (some xml) = some (record { xml = xml; tag = tag_for vr; key = vr.name })

-- `HashSet::contains`.
unfoldable pub has_seen : List Text → Text → Bool
has_seen [] reference = false
has_seen (t ∷ seen) reference = same t reference || has_seen seen reference

abbrev pub is_reference : Text → Bool
is_reference txt = starts_with_char txt b'@'

-- What a resolution gives, with the references seen by then.
pub data Resolution (A : Type 0) : Type 0 where
  exhausted crashed : Resolution A
  resolved : Option A → List Text → Resolution A

-- The text behind the entry's start tag.
abbrev pub entry_text : Option (List Event) → Option Text
entry_text none = none
entry_text (some xml) = text_of xml

unfoldable pub value_text : XmlResolver → Option Text
value_text x = entry_text (goto_value_entry x.tag x.key x.xml)

module _ (base_dir : Text) (files : Files) where
  abbrev pub get_xml_path_for : ValueReference → Text
  get_xml_path_for vr = join base_dir (codes "res/values/" ++ (vr.kind ++ codes "s.xml"))

  unfoldable pub for_value_reference : ValueReference → Option XmlResolver
  for_value_reference vr = resolver_of vr (open_file files (get_xml_path_for vr))

  abbrev pub resolver_for : Option ValueReference → Option XmlResolver
  resolver_for none = none
  resolver_for (some vr) = for_value_reference vr

  -- What a text of the form of a reference leads to.
  unfoldable pub target_of : Parsed → Option XmlResolver
  target_of panicked = none
  target_of (parsed vr) = resolver_for vr

  module _ {A : Type 0} (transform : Text → Option A) where
    abbrev pub follow :
        Text → List Text → (XmlResolver → Resolution A) → Option XmlResolver → Resolution A
    follow txt seen go none = resolved (transform txt) seen
    follow txt seen go (some next) = go next

    abbrev pub follow_parsed :
        Text → List Text → (XmlResolver → Resolution A) → Parsed → Resolution A
    follow_parsed txt seen go panicked = crashed
    follow_parsed txt seen go (parsed vr) = follow txt seen go (resolver_for vr)

    -- `resolve` behind the entry: a text that is no reference, one that was seen, and one that leads
    -- nowhere are transformed as they stand.
    abbrev pub resolve_text :
        (XmlResolver → List Text → Resolution A) → List Text → Option Text → Resolution A
    resolve_text go seen none = resolved none seen
    resolve_text go seen (some txt) =
        if not (is_reference txt) || has_seen seen txt
        then resolved (transform txt) seen
        else follow_parsed txt (txt ∷ seen) (λ next. go next (txt ∷ seen)) (parse txt)

    -- `XmlResolver::resolve`, on fuel: each call recurs through a reference not seen before.
    unfoldable pub resolve : ℕ → XmlResolver → List Text → Resolution A
    resolve zero x seen = exhausted
    resolve (suc fuel) x seen =
        resolve_text (λ next seen'. resolve fuel next seen') seen (value_text x)
