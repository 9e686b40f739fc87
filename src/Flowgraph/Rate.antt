-- ===== src/Flowgraph/Rate.antt =====
-- The bandwidth that each sink shows follows the rate of the flow graph.
use aegir_sdr.Common.{
  ℕ, Bool, true, false, Option, Option-cases, inl, inr, none, some, List, [], ◌∷◌, ◌++◌, ◌≡◌, refl,
  sym, ap, ◌∙◌, if◌then◌else◌,
}
use aegir_sdr.Flowgraph.{
  Sink, sink_0, sink_0_0, sink_0_0_0, sink_0_0_0_0, sink_0_0_0_0_0, Call, new_sink,
  set_frequency_range, TopBlock, Desktop, Event, rate_set, closed, interrupted, init, main,
  on_event, on_events, get_samp_rate, set_samp_rate, new_vector_to_streams, new_application, start,
  show, set_signal_handlers, start_timer, exec_application, close_event, sig_handler, window_calls,
  icon_calls, geometry_calls, source_call, connections, sinks, all_sink_calls, sink_calls,
  style_line, get_elem?, line_label, is_truthy,
}

abbrev pub is_sink : Sink → Sink → Bool
is_sink sink_0 sink_0 = true
is_sink sink_0_0 sink_0_0 = true
is_sink sink_0_0_0 sink_0_0_0 = true
is_sink sink_0_0_0_0 sink_0_0_0_0 = true
is_sink sink_0_0_0_0_0 sink_0_0_0_0_0 = true
is_sink _ _ = false

-- The bandwidth of a sink behind one call, and behind a list of them.
abbrev pub seen : Sink → Option ℕ → Call → Option ℕ
seen s old (new_sink t size fc bw name inputs) = if is_sink s t then some bw else old
seen s old (set_frequency_range t fc bw) = if is_sink s t then some bw else old
seen s old _ = old

abbrev pub bandwidth : Sink → Option ℕ → List Call → Option ℕ
bandwidth s old [] = old
bandwidth s old (c ∷ cs) = bandwidth s (seen s old c) cs

bandwidth-append :
    (s : Sink) (old : Option ℕ) (cs ds : List Call)
    → bandwidth s old (cs ++ ds) ≡ bandwidth s (bandwidth s old cs) ds
bandwidth-append s old [] ds = refl
bandwidth-append s old (c ∷ cs) ds = bandwidth-append s (seen s old c) cs ds

bandwidth-set_samp_rate :
    (s : Sink) (n : ℕ) (tb : TopBlock) (old : Option ℕ)
    → bandwidth s old (set_samp_rate n tb).1 ≡ some n
unfolding set_samp_rate
bandwidth-set_samp_rate sink_0 n tb old = refl
bandwidth-set_samp_rate sink_0_0 n tb old = refl
bandwidth-set_samp_rate sink_0_0_0 n tb old = refl
bandwidth-set_samp_rate sink_0_0_0_0 n tb old = refl
bandwidth-set_samp_rate sink_0_0_0_0_0 n tb old = refl

rate-set_samp_rate : (n : ℕ) (tb : TopBlock) → get_samp_rate (set_samp_rate n tb).0 ≡ n
unfolding set_samp_rate get_samp_rate
rate-set_samp_rate n tb = refl

bandwidth-on_event :
    (s : Sink) (e : Event) (tb : TopBlock)
    → bandwidth s (some (get_samp_rate tb)) (on_event e tb).1
      ≡ some (get_samp_rate (on_event e tb).0)
unfolding on_event close_event sig_handler
bandwidth-on_event s (rate_set n) tb =
    bandwidth-set_samp_rate s n tb (some (get_samp_rate tb))
    ∙ ap some (sym (rate-set_samp_rate n tb))
bandwidth-on_event s closed tb = refl
bandwidth-on_event s interrupted tb = refl

bandwidth-on_events :
    (s : Sink) (es : List Event) (tb : TopBlock)
    → bandwidth s (some (get_samp_rate tb)) (on_events es tb).1
      ≡ some (get_samp_rate (on_events es tb).0)
unfolding on_events
bandwidth-on_events s [] tb = refl
bandwidth-on_events s (e ∷ es) tb =
    bandwidth-append s (some (get_samp_rate tb)) (on_event e tb).1
      ((on_events es (on_event e tb).0).1)
    ∙ rw (bandwidth-on_event s e tb) (bandwidth-on_events s es (on_event e tb).0)

bandwidth-icon_calls :
    (s : Sink) (d : Desktop) (old : Option ℕ) → bandwidth s old (icon_calls d) ≡ old
unfolding icon_calls
bandwidth-icon_calls s d old = elim (Option-cases d.icon_error) [
  | inl eq ↦ rw (eq, icon_calls) refl
  | inr (e, eq) ↦ rw (eq, icon_calls) refl
]

bandwidth-geometry_calls :
    (s : Sink) (d : Desktop) (old : Option ℕ) → bandwidth s old (geometry_calls d) ≡ old
unfolding geometry_calls is_truthy
bandwidth-geometry_calls s d old = elim (Option-cases d.geometry_error) [
  | inr (e, eq) ↦ rw (eq, geometry_calls) refl
  | inl eq ↦ elim (Option-cases d.geometry) [
    | inl at ↦ rw (eq, at, geometry_calls) refl
    | inr ([], at) ↦ rw (eq, at, geometry_calls) refl
    | inr (c ∷ g, at) ↦ rw (eq, at, geometry_calls) refl
  ]
]

bandwidth-window_calls :
    (s : Sink) (d : Desktop) (old : Option ℕ) → bandwidth s old (window_calls d) ≡ old
unfolding window_calls
bandwidth-window_calls s d old =
    bandwidth-append s old (icon_calls d) _
    ∙ rw (bandwidth-icon_calls s d old) (bandwidth-geometry_calls s d old)

abbrev pub graph_calls : List Call
graph_calls =
    source_call
    ∷ (elim (all_sink_calls 2000000 sinks) [ none ↦ [] | some calls ↦ calls ]
        ++ (new_vector_to_streams 1 5 ∷ connections))

-- The state and the calls of `init`.
pub init-eq :
    (d : Desktop) → init d ≡ some (record { samp_rate = 2000000 }, window_calls d ++ graph_calls)
unfolding init all_sink_calls sink_calls style_line get_elem? line_label
init-eq d = refl

bandwidth-graph_calls : (s : Sink) (old : Option ℕ) → bandwidth s old graph_calls ≡ some 2000000
unfolding source_call connections all_sink_calls sink_calls style_line get_elem? line_label
bandwidth-graph_calls sink_0 old = refl
bandwidth-graph_calls sink_0_0 old = refl
bandwidth-graph_calls sink_0_0_0 old = refl
bandwidth-graph_calls sink_0_0_0_0 old = refl
bandwidth-graph_calls sink_0_0_0_0_0 old = refl

-- What `main` answers: the state, and the calls.
pub main-eq :
    (d : Desktop) (es : List Event)
    → main d es
      ≡ some (
        (on_events es (record { samp_rate = 2000000 })).0,
        (new_application ∷ (window_calls d ++ graph_calls))
            ++ ((start ∷ show ∷ set_signal_handlers ∷ start_timer 500 ∷ exec_application ∷ [])
                ++ (on_events es (record { samp_rate = 2000000 })).1),
      )
unfolding main
main-eq d es = rw (init-eq d, main) refl

-- Whatever the desktop answers and whichever events come, the program runs, and at its end the
-- bandwidth last given to each of the five sinks is the rate of the flow graph.
pub bandwidth-main :
    (d : Desktop) (es : List Event) (s : Sink)
    → (r : TopBlock × List Call) × (main d es ≡ some r)
      × (bandwidth s none (r.1) ≡ some (get_samp_rate (r.0)))
unfolding get_samp_rate
bandwidth-main d es s = (
  _,
  main-eq d es,
  (bandwidth-append s none (new_application ∷ (window_calls d ++ graph_calls)) _
      ∙ rw
          (
            bandwidth-append s none (window_calls d) graph_calls,
            bandwidth-graph_calls s (bandwidth s none (window_calls d)),
          )
          (bandwidth-on_events s es (record { samp_rate = 2000000 }))),
)
