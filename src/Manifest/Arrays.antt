-- ===== src/Manifest/Arrays.antt =====
-- `XmlResolver::resolve_array` of dtu/src/manifest.rs: the items behind an array's start tag.
pub mod Items
use dtu.Prelude.{
  suc, Option, none, some, List, [], ◌∷◌, ◌++◌, if◌then◌else◌, length, Text, codes, same,
}
use dtu.Manifest.Xml.{Event, start, text, close, other, failed, goto_value_entry}
use dtu.Manifest.References.{
  Parsed, panicked, parsed, parse, Files, XmlResolver, has_seen, is_reference, Resolution,
  exhausted, crashed, resolved, resolver_for, resolve,
}
use dtu.Manifest.References.Fuel.{file_texts}

pub data ArrayResolution (A : Type 0) : Type 0 where
  array_exhausted array_crashed : ArrayResolution A
  array_resolved : Option (List A) → ArrayResolution A

module _ (base_dir : Text) (files : Files) {A : Type 0} (transform : Text → Option A) where
  abbrev pub item_resolver : List Text → Option XmlResolver → Resolution A
  item_resolver seen none = resolved none seen
  item_resolver seen (some x) =
      resolve base_dir files transform (suc (length (file_texts files))) x seen

  abbrev pub item_parsed : List Text → Parsed → Resolution A
  item_parsed seen panicked = crashed
  item_parsed seen (parsed vr) = item_resolver seen (resolver_for base_dir files vr)

  -- The part of the loop's body behind the test for `@`, which plain items reach too.
  unfoldable pub item_reference : List Text → Text → Resolution A
  item_reference seen txt =
      if has_seen seen txt then resolved none seen else item_parsed (txt ∷ seen) (parse txt)

  abbrev pub push : Option A → List A → List A
  push none result = result
  push (some v) result = result ++ v ∷ []

  abbrev pub push_resolved :
      (List Text → List A → ArrayResolution A) → List A → Resolution A → ArrayResolution A
  push_resolved loop result exhausted = array_exhausted
  push_resolved loop result crashed = array_crashed
  push_resolved loop result (resolved v seen) = loop seen (push v result)

  abbrev pub plain_item :
      (List Text → List A → ArrayResolution A)
      → List Text
      → List A
      → Text
      → Option A
      → ArrayResolution A
  plain_item loop seen result txt none = loop seen result
  plain_item loop seen result txt (some v) =
      push_resolved loop (result ++ v ∷ []) (item_reference seen txt)

  -- The loop's body behind the tag of an item: what is no text is skipped.
  abbrev pub array_item :
      (List Text → List A → ArrayResolution A) → List Text → List A → Event → ArrayResolution A
  array_item loop seen result (text (some txt)) =
      if is_reference txt
      then push_resolved loop result (item_reference seen txt)
      else plain_item loop seen result txt (transform txt)
  array_item loop seen result (text none) = loop seen result
  array_item loop seen result (start name atts) = loop seen result
  array_item loop seen result close = loop seen result
  array_item loop seen result other = loop seen result
  array_item loop seen result failed = loop seen result

  -- The loop: it ends at the first event that is no `<item>`.
  unfoldable pub array_items : List Event → List Text → List A → ArrayResolution A
  array_items (start name atts ∷ event ∷ xml) seen result =
      if same name (codes "item")
      then array_item (λ seen' result'. array_items xml seen' result') seen result event
      else array_resolved (some result)
  array_items _ seen result = array_resolved (some result)

  abbrev pub array_from : Option (List Event) → ArrayResolution A
  array_from none = array_resolved none
  array_from (some xml) = array_items xml [] []

  unfoldable pub resolve_array : XmlResolver → ArrayResolution A
  resolve_array x = array_from (goto_value_entry x.tag x.key x.xml)
