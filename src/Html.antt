-- ===== src/Html.antt =====
-- The trees that golang.org/x/net/html hands out, as far as the program reads them: the type of a
-- node, its data, its attributes and its children. `identity` stands for the node's address.
use alib_fetcher.Base.{ℕ, List, Text}

pub data NodeType : Type 0 where
  text_node element_node document_node other_node : NodeType

mutual
  pub data Node : Type 0 where
    node : ℕ → NodeType → Text → List (Text × Text) → Nodes → Node

  pub data Nodes : Type 0 where
    nil : Nodes
    cons : Node → Nodes → Nodes
