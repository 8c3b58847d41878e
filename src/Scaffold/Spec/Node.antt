-- ===== src/Scaffold/Spec/Node.antt =====
-- The nodes of SPEC in frontend-react/src/scaffold/ia.ts, with the fields that most of them leave out.
use billgen.Prelude.{String, List, [], ◌∷◌, Option, none}
use billgen.Scaffold.Ia.{BackendStatus, Layer, IaNode, IaTree, node, IaForest, leafless, grow}

abbrev pub entry : String → Option String → BackendStatus → Layer → IaNode
entry key path status layer = record {
  key = key;
  label = "";
  path = path;
  status = status;
  layer = layer;
  endpoints = [];
  missing = [];
  note = none;
  surface = none;
  nav = none;
  merged_into = none;
  primary = none;
}

abbrev pub leaf : IaNode → IaTree
leaf n = node n leafless

abbrev pub listed : List IaTree → IaForest
listed [] = leafless
listed (t ∷ ts) = grow t (listed ts)

abbrev pub branch : IaNode → List IaTree → IaTree
branch n ts = node n (listed ts)
