-- ===== src/Results/Xml.antt =====
-- What the program uses of `xml.etree.ElementTree`: a parsed document, and the few paths of the
-- `find` and `findall` calls.
use transport_lookout.Prelude.{
  false, String, Bool, ◌&&◌, Option, none, some, List, [], ◌∷◌, ◌++◌, ◌==◌, string_eq, select, find,
}

pub record Attribute : Type 0 where
  pub name : String
  pub value : String

mutual
  pub data Element : Type 0 where
    element : String → List Attribute → Elements → Element

  pub data Elements : Type 0 where
    nil : Elements
    cons : Element → Elements → Elements

abbrev elements : Elements → List Element
elements nil = []
elements (cons e es) = e ∷ elements es

abbrev pub tag : Element → String
tag (element t attrs es) = t

abbrev attributes : Element → List Attribute
attributes (element t attrs es) = attrs

abbrev pub children : Element → List Element
children (element t attrs es) = elements es

abbrev value_of : Option Attribute → Option String
value_of none = none
value_of (some a) = some a.value

-- `e.attrib.get(name)`
abbrev pub attribute : String → Element → Option String
attribute name e = value_of (find (λ a. a.name == name) (attributes e))

abbrev same_text : Option String → String → Bool
same_text none text = false
same_text (some value) text = value == text

-- The steps `tag` and `tag[@name='value']` of a path.
abbrev pub has_tag : String → Element → Bool
has_tag name e = tag e == name

abbrev pub has_value : String → String → String → Element → Bool
has_value name key text e = tag e == name && same_text (attribute key e) text

abbrev pub children_of : List Element → List Element
children_of [] = []
children_of (e ∷ es) = children e ++ children_of es

-- `e.findall("outer/inner")`, by the test for the last step
abbrev pub find_under : String → (Element → Bool) → Element → List Element
find_under outer inner e = select inner (children_of (select (has_tag outer) (children e)))
