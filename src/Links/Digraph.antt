-- ===== src/Links/Digraph.antt =====
-- What crates/turbovault-graph uses of `petgraph::DiGraph<PathBuf, Link>` and of `std::path`, as
-- interfaces with the documented behaviour. Nodes and edges are named by their indices.
use Prim.Native.Char.{Char}
use turbovault.Common.{
  ℕ, ◌-◌, ◌<◌, String, ◌≡◌, Bool, true, false, Option, none, some, List, [], ◌∷◌, eqb,
  if◌then◌else◌, ltb,
}

pub data LinkType : Type 0 where
  wiki_link embed block_ref heading_ref anchor markdown_link external_link : LinkType

-- Link; its source file, its text and its position are carried along only
pub record Link (Carried : Type 0) : Type 0 where
  pub type_ : LinkType
  pub target : List Char
  pub is_valid : Bool
  pub carried : Carried

-- VaultFile, as far as the graph reads it; `aliases` are those of the front matter
pub record VaultFile (Carried : Type 0) : Type 0 where
  pub path : String
  pub aliases : Option (List (List Char))
  pub links : List (Link Carried)

-- An edge: its source, its target and its weight.
pub record Edge (Carried : Type 0) : Type 0 where
  pub source : ℕ
  pub target : ℕ
  pub link : Link Carried

-- `std::path::Path` and the tables of Unicode
pub record PathOps : Type 0 where
  pub file_stem : String → Option (List Char)
  -- `path.iter().filter_map(|c| c.to_str())`
  pub iter : String → List (List Char)
  -- `path.components().count()`
  pub component_count : String → ℕ
  pub to_lowercase : List Char → List Char
  pub to_ascii_lowercase : List Char → List Char
  pub is_whitespace : Char → Bool

pub record Digraph (Carried : Type 0) : Type 1 where
  pub G : Type 0
  pub empty : G
  pub node_count : G → ℕ
  -- `graph[i]`, which panics if there is no such node
  pub node : ℕ → G → Option String
  pub add_node : String → G → ℕ × G
  pub remove_node : ℕ → G → G
  pub edge_count : G → ℕ
  pub edge : ℕ → G → Option (Edge Carried)
  pub add_edge : ℕ → ℕ → Link Carried → G → G
  pub remove_edge : ℕ → G → G
  -- the ids of the edges that leave, and of those that enter, a node, in no stated order
  pub edges : ℕ → G → List ℕ
  pub edges_incoming : ℕ → G → List ℕ

abbrev pub has : ℕ → List ℕ → Bool
has i [] = false
has i (j ∷ js) = if eqb i j then true else has i js

abbrev pub leaves : {C : Type 0} → ℕ → Option (Edge C) → Bool
leaves n none = false
leaves n (some e) = eqb e.source n

abbrev pub enters : {C : Type 0} → ℕ → Option (Edge C) → Bool
enters n none = false
enters n (some e) = eqb e.target n

-- Nodes and edges are numbered from zero without a gap. A removal moves the last one into the place
-- that became free.
pub record DigraphLaws {C : Type 0} (d : Digraph C) : Type 0 where
  pub node_lt : (i : ℕ) (p : String) (g : d.G) → d.node i g ≡ some p → i < d.node_count g
  pub node_some : (i : ℕ) (g : d.G) → i < d.node_count g → (p : String) × (d.node i g ≡ some p)
  pub node_empty : (i : ℕ) → d.node i d.empty ≡ none
  pub fst_add_node : (p : String) (g : d.G) → (d.add_node p g).0 ≡ d.node_count g
  pub node_add_node :
      (p : String) (j : ℕ) (g : d.G)
      → d.node j (d.add_node p g).1 ≡ (if eqb j (d.node_count g) then some p else d.node j g)
  pub node_remove_node :
      (i j : ℕ) (g : d.G)
      → i < d.node_count g
      → d.node j (d.remove_node i g) ≡ (
          if eqb j (d.node_count g - 1)
          then none
          else if eqb j i
          then d.node (d.node_count g - 1) g
          else d.node j g)
  pub node_add_edge :
      (a b j : ℕ) (l : Link C) (g : d.G) → d.node j (d.add_edge a b l g) ≡ d.node j g
  pub node_remove_edge : (i j : ℕ) (g : d.G) → d.node j (d.remove_edge i g) ≡ d.node j g
  pub edge_count_empty : d.edge_count d.empty ≡ 0
  pub edge_lt : (i : ℕ) (e : Edge C) (g : d.G) → d.edge i g ≡ some e → i < d.edge_count g
  pub edge_add_node : (p : String) (i : ℕ) (g : d.G) → d.edge i (d.add_node p g).1 ≡ d.edge i g
  -- The edges of a removed node go with it; the others stay, under other ids, and follow the node
  -- that moved.
  pub edge_remove_node :
      (n i : ℕ) (e : Edge C) (g : d.G)
      → n < d.node_count g
      → d.edge i (d.remove_node n g) ≡ some e
      → (j : ℕ) × (f : Edge C) × (d.edge j g ≡ some f)
        × (eqb f.source n ≡ false)
        × (eqb f.target n ≡ false)
        × (e.source ≡ (if eqb f.source (d.node_count g - 1) then n else f.source))
        × (e.target ≡ (if eqb f.target (d.node_count g - 1) then n else f.target))
  pub edge_count_remove_edge :
      (i : ℕ) (g : d.G)
      → d.edge_count (d.remove_edge i g)
        ≡ (if ltb i (d.edge_count g) then d.edge_count g - 1 else d.edge_count g)
  pub edge_remove_edge :
      (i j : ℕ) (g : d.G)
      → d.edge j (d.remove_edge i g) ≡ (
          if ltb i (d.edge_count g)
          then (if eqb j (d.edge_count g - 1)
              then none
              else if eqb j i
              then d.edge (d.edge_count g - 1) g
              else d.edge j g)
          else d.edge j g)
  pub edge_add_edge :
      (a b j : ℕ) (l : Link C) (g : d.G)
      → d.edge j (d.add_edge a b l g) ≡ (
          if eqb j (d.edge_count g)
          then some (record { source = a; target = b; link = l })
          else d.edge j g)
  pub has_edges : (n i : ℕ) (g : d.G) → has i (d.edges n g) ≡ leaves n (d.edge i g)
  pub has_edges_incoming :
      (n i : ℕ) (g : d.G) → has i (d.edges_incoming n g) ≡ enters n (d.edge i g)
