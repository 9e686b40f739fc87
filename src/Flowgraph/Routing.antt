-- ===== src/Flowgraph/Routing.antt =====
-- Which block feeds which.
use aegir_sdr.Common.{
  ℕ, Bool, true, false, Option-cases, inl, inr, some, List, [], ◌∷◌, ◌++◌, ◌≡◌, refl, ◌∙◌, ap, ◌==◌,
  ◌&&◌, if◌then◌else◌,
}
use aegir_sdr.Flowgraph.{
  Sink, sink_0, sink_0_0, sink_0_0_0, sink_0_0_0_0, sink_0_0_0_0_0, Block, sub_source,
  vector_to_streams, waterfall, Call, connect, TopBlock, Desktop, init, window_calls, icon_calls,
  geometry_calls, is_truthy, source_call, connections, all_sink_calls, sink_calls, style_line,
  get_elem?, line_label,
}
use aegir_sdr.Flowgraph.Rate.{is_sink, graph_calls, init-eq}

abbrev pub is_block : Block → Block → Bool
is_block sub_source sub_source = true
is_block vector_to_streams vector_to_streams = true
is_block (waterfall s) (waterfall t) = is_sink s t
is_block _ _ = false

-- The outputs and inputs that are connected.
abbrev pub wires : List Call → List ((Block × ℕ) × (Block × ℕ))
wires [] = []
wires (connect from i to j ∷ cs) = ((from, i), (to, j)) ∷ wires cs
wires (_ ∷ cs) = wires cs

-- What is connected to an input.
abbrev pub sources_of : Block → ℕ → List ((Block × ℕ) × (Block × ℕ)) → List (Block × ℕ)
sources_of b n [] = []
sources_of b n ((from, (to, j)) ∷ ws) =
    let rest = sources_of b n ws in if is_block b to && j == n then from ∷ rest else rest

-- What an output is connected to.
abbrev pub targets_of : Block → ℕ → List ((Block × ℕ) × (Block × ℕ)) → List (Block × ℕ)
targets_of b n [] = []
targets_of b n (((from, i), to) ∷ ws) =
    let rest = targets_of b n ws in if is_block b from && i == n then to ∷ rest else rest

-- The stream that a sink is for.
abbrev pub stream : Sink → ℕ
stream sink_0 = 0
stream sink_0_0 = 1
stream sink_0_0_0 = 2
stream sink_0_0_0_0 = 3
stream sink_0_0_0_0_0 = 4

wires-append : (cs ds : List Call) → wires (cs ++ ds) ≡ wires cs ++ wires ds
wires-append [] ds = refl
wires-append (connect from i to j ∷ cs) ds = ap (◌∷◌ ((from, i), (to, j))) (wires-append cs ds)
wires-append (_ ∷ cs) ds = wires-append cs ds

wires-icon_calls : (d : Desktop) → wires (icon_calls d) ≡ []
unfolding icon_calls
wires-icon_calls d = elim (Option-cases d.icon_error) [
  | inl eq ↦ rw (eq, icon_calls) refl
  | inr (e, eq) ↦ rw (eq, icon_calls) refl
]

wires-geometry_calls : (d : Desktop) → wires (geometry_calls d) ≡ []
unfolding geometry_calls is_truthy
wires-geometry_calls d = elim (Option-cases d.geometry_error) [
  | inr (e, eq) ↦ rw (eq, geometry_calls) refl
  | inl eq ↦ elim (Option-cases d.geometry) [
    | inl at ↦ rw (eq, at, geometry_calls) refl
    | inr ([], at) ↦ rw (eq, at, geometry_calls) refl
    | inr (c ∷ g, at) ↦ rw (eq, at, geometry_calls) refl
  ]
]

wires-window_calls : (d : Desktop) → wires (window_calls d) ≡ []
unfolding window_calls
wires-window_calls d =
    wires-append (icon_calls d) _ ∙ rw (wires-icon_calls d, wires-geometry_calls d) refl

wires-init : (d : Desktop) → wires (window_calls d ++ graph_calls) ≡ wires graph_calls
wires-init d = wires-append (window_calls d) graph_calls ∙ rw (wires-window_calls d) refl

sources_of-sink :
    (s : Sink) → sources_of (waterfall s) 0 (wires graph_calls) ≡ (vector_to_streams, stream s) ∷ []
unfolding source_call connections all_sink_calls sink_calls style_line get_elem? line_label
sources_of-sink sink_0 = refl
sources_of-sink sink_0_0 = refl
sources_of-sink sink_0_0_0 = refl
sources_of-sink sink_0_0_0_0 = refl
sources_of-sink sink_0_0_0_0_0 = refl

targets_of-stream :
    (s : Sink) → targets_of vector_to_streams (stream s) (wires graph_calls) ≡ (waterfall s, 0) ∷ []
unfolding source_call connections all_sink_calls sink_calls style_line get_elem? line_label
targets_of-stream sink_0 = refl
targets_of-stream sink_0_0 = refl
targets_of-stream sink_0_0_0 = refl
targets_of-stream sink_0_0_0_0 = refl
targets_of-stream sink_0_0_0_0_0 = refl

sources_of-streams : sources_of vector_to_streams 0 (wires graph_calls) ≡ (sub_source, 0) ∷ []
unfolding source_call connections all_sink_calls sink_calls style_line get_elem? line_label
sources_of-streams = refl

-- Each sink is fed by its own one of the five streams and by nothing else, that stream goes to no
-- other block, and the streams are those of the vectors that the subscription delivers.
pub init-wires :
    (d : Desktop) (s : Sink)
    → (r : TopBlock × List Call) × (init d ≡ some r)
      × (sources_of (waterfall s) 0 (wires r.1) ≡ (vector_to_streams, stream s) ∷ [])
      × (targets_of vector_to_streams (stream s) (wires r.1) ≡ (waterfall s, 0) ∷ [])
      × (sources_of vector_to_streams 0 (wires r.1) ≡ (sub_source, 0) ∷ [])
init-wires d s = (
  _,
  init-eq d,
  rw (wires-init d) (sources_of-sink s),
  rw (wires-init d) (targets_of-stream s),
  rw (wires-init d) sources_of-streams,
)
