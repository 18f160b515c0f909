-- ===== src/Xml.antt =====
-- lib/xml.cc and .h: the trees of XML that the program keeps. The nodes are those of libxml, whose functions
-- are an argument.
use powerguru.Prelude.{
  ℕ, zero, suc, ◌≡◌, Bool, true, false, List, [], ◌∷◌, Option, none, some, Text, length, take, ◌==◌,
  if◌then◌else◌,
}
use powerguru.Std.Str.{find}
use powerguru.Std.Convert.{Result, done, null_pointer, ◌>>=◌}
use powerguru.Msgs.State.{put}

-- A node of libxml: an element with its name, its attributes and its children, a text, or another node,
-- such as a comment, with its content. An attribute without children has no text.
mutual
  pub data LibNode : Type 0 where
    element : Text → List (Text × Option Text) → LibNodes → LibNode
    text : Text → LibNode
    other : Option Text → LibNode

  pub data LibNodes : Type 0 where
    last : LibNodes
    sibling : LibNode → LibNodes → LibNodes

-- The name, the attributes and the children of a root element.
abbrev pub Root : Type 0
Root = Text × List (Text × Option Text) × LibNodes

-- What the code calls: `xmlParseMemory` and `xmlParseFile`, each with the root of the document, and
-- `xmlNodeGetContent`, which for a text is the text.
pub record LibXml : Type 0 where
  pub parse_memory : Text → Option Root
  pub parse_file : Text → Option Root
  pub node_content : LibNode → Option Text
  pub node_content-text : (t : Text) → node_content (text t) ≡ some t

-- `class XMLNode`: its name, its value, its attributes and its children.
mutual
  pub data Node : Type 0 where
    node : Text → Text → List (Text × Text) → Nodes → Node

  pub data Nodes : Type 0 where
    no_nodes : Nodes
    child : Node → Nodes → Nodes

abbrev pub name_get : Node → Text
name_get (node name value attributes children) = name

abbrev pub value_get : Node → Text
value_get (node name value attributes children) = value

abbrev pub children_of : Node → Nodes
children_of (node name value attributes children) = children

-- `childGet` and the test of its index: no child is the null pointer.
unfoldable pub child_get : Nodes → ℕ → Option Node
child_get no_nodes i = none
child_get (child n rest) zero = some n
child_get (child n rest) (suc i) = child_get rest i

-- `value.substr (0, value.find ('\n'))`.
unfoldable pub first_line : Text → Text
unfolding find
first_line s = elim (find (10 ∷ []) s 0) [ none ↦ s | some i ↦ take i s ]

-- The loop over the attributes: `attr->children->content`.
unfoldable pub extract_attributes :
    List (Text × Option Text) → List (Text × Text) → Result (List (Text × Text))
unfolding put
extract_attributes [] attributes = done attributes
extract_attributes ((name, none) ∷ rest) attributes = null_pointer
extract_attributes ((name, some value) ∷ rest) attributes =
    extract_attributes rest (put attributes name value)

-- `node->content`.
abbrev pub content : LibNode → Option Text
content (element name attributes children) = none
content (text t) = some t
content (other t) = t

module _ (lib : LibXml) where
  -- The value: the first line of the first child's content, and then of what `xmlNodeGetContent` gives.
  unfoldable pub extract_value : LibNodes → Text
  unfolding first_line
  extract_value last = []
  extract_value (sibling n rest) =
      let own : Text = elim (content n) [ none ↦ [] | some s ↦ first_line s ] in
      elim (lib.node_content n) [ none ↦ own | some s ↦ first_line s ]

  -- The loop over the children, which passes over all but the elements, and `extractNode` of an element.
  unfoldable pub extract_children : LibNodes → Result Nodes
  unfolding extract_attributes extract_value
  extract_children last = done no_nodes
  extract_children (sibling (element name attributes children) rest) =
      extract_attributes attributes [] >>= λ a. extract_children children >>= λ c.
      extract_children rest >>= λ r. done (child (node name (extract_value children) a c) r)
  extract_children (sibling (text t) rest) = extract_children rest
  extract_children (sibling (other t) rest) = extract_children rest

  unfoldable pub extract_element : Text → List (Text × Option Text) → LibNodes → Result Node
  unfolding extract_attributes extract_value extract_children
  extract_element name attributes children = extract_attributes attributes [] >>= λ a.
      extract_children children >>= λ c. done (node name (extract_value children) a c)

  -- The pointer `_nodes`, which nothing sets before a document is read, and the result of a reader.
  unfoldable pub set_nodes : Option Root → Option Node → Result (Option Node × Bool)
  unfolding extract_element
  set_nodes none nodes = done (nodes, false)
  set_nodes (some (name, attributes, children)) nodes =
      extract_element name attributes children >>= λ n. done (some n, true)

  unfoldable pub parse_mem : Text → Option Node → Result (Option Node × Bool)
  unfolding set_nodes
  parse_mem xml_in nodes =
      if length xml_in == 0 then done (nodes, false) else set_nodes (lib.parse_memory xml_in) nodes

  unfoldable pub parse_file : Text → Option Node → Result (Option Node × Bool)
  unfolding set_nodes
  parse_file filespec nodes = set_nodes (lib.parse_file filespec) nodes

-- `xml[x]`.
unfoldable pub xml_get : Option Node → ℕ → Result (Option Node)
unfolding child_get
xml_get none x = null_pointer
xml_get (some n) x = done (child_get (children_of n) x)
