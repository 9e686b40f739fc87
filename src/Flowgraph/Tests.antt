-- ===== src/Flowgraph/Tests.antt =====
-- The theorems on the flow graph, on a desktop that has no icon theme, and for a run in which the
-- rate is set twice before the window is closed.
use aegir_sdr.Common.{some, none, List, [], ◌∷◌, ◌≡◌, codes}
use aegir_sdr.Flowgraph.{
  sink_0_0, sink_0_0_0, vector_to_streams, waterfall, sub_source, Call, TopBlock, Desktop, Event,
  rate_set, closed, init, main, get_samp_rate,
}
use aegir_sdr.Flowgraph.Rate.{bandwidth, bandwidth-main}
use aegir_sdr.Flowgraph.Routing.{wires, sources_of, targets_of, init-wires}
use aegir_sdr.Flowgraph.Stop.{idle, ended, advance_all, main-advance_all}

abbrev bare : Desktop
bare = record {
  icon_error = some (codes "no theme");
  geometry_error = none;
  geometry = some (codes "g");
}

abbrev events : List Event
events = rate_set 1000000 ∷ rate_set 2400000 ∷ closed ∷ []

bandwidth-main_example :
    (r : TopBlock × List Call) × (main bare events ≡ some r)
    × (bandwidth sink_0_0 none r.1 ≡ some (get_samp_rate r.0))
bandwidth-main_example = bandwidth-main bare events sink_0_0

init-wires_example :
    (r : TopBlock × List Call) × (init bare ≡ some r)
    × (sources_of (waterfall sink_0_0_0) 0 (wires r.1) ≡ (vector_to_streams, 2) ∷ [])
    × (targets_of vector_to_streams 2 (wires r.1) ≡ (waterfall sink_0_0_0, 0) ∷ [])
    × (sources_of vector_to_streams 0 (wires r.1) ≡ (sub_source, 0) ∷ [])
init-wires_example = init-wires bare sink_0_0_0

main-advance_all_example :
    (r : TopBlock × List Call) × (main bare events ≡ some r)
    × (advance_all (some idle) r.1 ≡ some ended)
main-advance_all_example = main-advance_all bare events
