-- ===== src/Manifest/Xml.antt =====
-- The events of an XML reader, and the searches of dtu/src/manifest.rs over them. The reader itself
-- is a library's: a file is the list of the events that it gives, and the end of the list is `Eof`.
use dtu.Prelude.{
  Bool, false, ◌&&◌, Option, none, some, List, [], ◌∷◌, if◌then◌else◌, Text, codes, same,
}

-- An attribute: its local name and its value.
pub record Attribute : Type 0 where
  pub name : Text
  pub value : Text

-- A malformed attribute is `none`, and so is a text that cannot be unescaped. `failed` is an error
-- of the reader, and `other` every event that no branch names.
pub data Event : Type 0 where
  start : Text → List (Option Attribute) → Event
  text : Option Text → Event
  close other failed : Event

abbrev pub get_attribute_value : List (Option Attribute) → Text → Option Text
get_attribute_value [] name = none
get_attribute_value (none ∷ atts) name = get_attribute_value atts name
get_attribute_value (some att ∷ atts) name =
    if same att.name name then some att.value else get_attribute_value atts name

abbrev pub has_attribute_value : List (Option Attribute) → Text → Text → Bool
has_attribute_value [] name expected = false
has_attribute_value (none ∷ atts) name expected = has_attribute_value atts name expected
has_attribute_value (some att ∷ atts) name expected =
    if same att.name name then same att.value expected else has_attribute_value atts name expected

-- The loop over the attributes of a start tag: the first `name` decides.
abbrev pub check_names : List (Option Attribute) → Text → Bool
check_names [] key = false
check_names (none ∷ atts) key = check_names atts key
check_names (some att ∷ atts) key =
    if same att.name (codes "name") then same att.value key else check_names atts key

-- What is left to read behind the entry's start tag; `none` where the loop ends without it.
unfoldable pub goto_value_entry : Text → Text → List Event → Option (List Event)
goto_value_entry tag key [] = none
goto_value_entry tag key (failed ∷ xml) = none
goto_value_entry tag key (start name atts ∷ xml) =
    let rest = goto_value_entry tag key xml in
    if same name tag && check_names atts key then some xml else rest
goto_value_entry tag key (text t ∷ xml) = goto_value_entry tag key xml
goto_value_entry tag key (close ∷ xml) = goto_value_entry tag key xml
goto_value_entry tag key (other ∷ xml) = goto_value_entry tag key xml

-- The loop of `get_public_xml_name` over the events of the file.
unfoldable pub public_name : Text → List Event → Option Text
public_name id [] = none
public_name id (failed ∷ xml) = none
public_name id (start name atts ∷ xml) =
    let rest = public_name id xml in
    if same name (codes "public") && has_attribute_value atts (codes "id") id
    then get_attribute_value atts (codes "name")
    else rest
public_name id (text t ∷ xml) = public_name id xml
public_name id (close ∷ xml) = public_name id xml
public_name id (other ∷ xml) = public_name id xml

-- The text that an event holds, if it can be unescaped.
abbrev pub text_of : List Event → Option Text
text_of (text t ∷ xml) = t
text_of _ = none
