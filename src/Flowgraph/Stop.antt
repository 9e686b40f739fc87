-- ===== src/Flowgraph/Stop.antt =====
-- The flow graph is stopped before the program goes on.
use aegir_sdr.Common.{
  Bool, true, false, Option-cases, inl, inr, any, if◌then◌else◌, Option, none, some, List, [], ◌∷◌,
  ◌++◌, ◌≡◌, refl, ◌∙◌, ap,
}
use aegir_sdr.Flowgraph.{
  Call, stop, wait, quit, accept, start, TopBlock, Desktop, Event, rate_set, closed, interrupted,
  on_event, on_events, main, close_event, sig_handler, set_samp_rate, icon_calls, geometry_calls,
  is_truthy, window_calls, source_call, connections, all_sink_calls, sink_calls, style_line,
  get_elem?, line_label, new_application,
}
use aegir_sdr.Flowgraph.Rate.{main-eq, graph_calls}

-- What is known of the flow graph: it waits to be started, it runs, its threads end, it has ended.
pub data Phase : Type 0 where
  idle : Phase
  running : Phase
  stopping : Phase
  ended : Phase

-- One call; `none` where it is made in the wrong phase: a start of a running graph, a wait without a
-- stop, or an end of the program or of the window before the threads have ended.
abbrev pub advance : Phase → Call → Option Phase
advance idle start = some running
advance running start = none
advance stopping start = none
advance ended start = none
advance idle stop = none
advance running stop = some stopping
advance stopping stop = some stopping
advance ended stop = some stopping
advance stopping wait = some ended
advance idle wait = none
advance running wait = none
advance ended wait = none
advance ended accept = some ended
advance idle accept = none
advance running accept = none
advance stopping accept = none
advance ended quit = some ended
advance idle quit = none
advance running quit = none
advance stopping quit = none
advance p _ = some p

abbrev pub advance_all : Option Phase → List Call → Option Phase
advance_all none cs = none
advance_all (some p) [] = some p
advance_all (some p) (c ∷ cs) = advance_all (advance p c) cs

abbrev pub is_end : Event → Bool
is_end (rate_set n) = false
is_end closed = true
is_end interrupted = true

-- The phase behind a list of events.
abbrev pub phase_of : Phase → List Event → Phase
phase_of p [] = p
phase_of p (rate_set n ∷ es) = phase_of p es
phase_of p (closed ∷ es) = phase_of ended es
phase_of p (interrupted ∷ es) = phase_of ended es

phase_of-ended : (es : List Event) → phase_of ended es ≡ ended
phase_of-ended [] = refl
phase_of-ended (rate_set n ∷ es) = phase_of-ended es
phase_of-ended (closed ∷ es) = phase_of-ended es
phase_of-ended (interrupted ∷ es) = phase_of-ended es

phase_of-running :
    (es : List Event) → phase_of running es ≡ (if any is_end es then ended else running)
phase_of-running [] = refl
phase_of-running (rate_set n ∷ es) = phase_of-running es
phase_of-running (closed ∷ es) = phase_of-ended es
phase_of-running (interrupted ∷ es) = phase_of-ended es

advance_all-append :
    (p : Option Phase) (cs ds : List Call)
    → advance_all p (cs ++ ds) ≡ advance_all (advance_all p cs) ds
advance_all-append none cs ds = refl
advance_all-append (some p) [] ds = refl
advance_all-append (some p) (c ∷ cs) ds = advance_all-append (advance p c) cs ds

-- Behind the start the flow graph runs or has ended.
data Started : Phase → Type 0 where
  is_running : Started running
  is_ended : Started ended

advance_all-on_events :
    (p : Phase)
    → Started p
    → (es : List Event) (tb : TopBlock)
    → advance_all (some p) ((on_events es tb).1) ≡ some (phase_of p es)
unfolding on_events on_event set_samp_rate close_event sig_handler
advance_all-on_events p q [] tb = refl
advance_all-on_events p is_running (rate_set n ∷ es) tb =
    advance_all-on_events running is_running es _
advance_all-on_events p is_running (closed ∷ es) tb = advance_all-on_events ended is_ended es tb
advance_all-on_events p is_running (interrupted ∷ es) tb =
    advance_all-on_events ended is_ended es tb
advance_all-on_events p is_ended (rate_set n ∷ es) tb = advance_all-on_events ended is_ended es _
advance_all-on_events p is_ended (closed ∷ es) tb = advance_all-on_events ended is_ended es tb
advance_all-on_events p is_ended (interrupted ∷ es) tb = advance_all-on_events ended is_ended es tb

advance_all-icon_calls : (d : Desktop) → advance_all (some idle) (icon_calls d) ≡ some idle
unfolding icon_calls
advance_all-icon_calls d = elim (Option-cases d.icon_error) [
  | inl eq ↦ rw (eq, icon_calls) refl
  | inr (e, eq) ↦ rw (eq, icon_calls) refl
]

advance_all-geometry_calls : (d : Desktop) → advance_all (some idle) (geometry_calls d) ≡ some idle
unfolding geometry_calls is_truthy
advance_all-geometry_calls d = elim (Option-cases d.geometry_error) [
  | inr (e, eq) ↦ rw (eq, geometry_calls) refl
  | inl eq ↦ elim (Option-cases d.geometry) [
    | inl at ↦ rw (eq, at, geometry_calls) refl
    | inr ([], at) ↦ rw (eq, at, geometry_calls) refl
    | inr (c ∷ g, at) ↦ rw (eq, at, geometry_calls) refl
  ]
]

advance_all-window_calls : (d : Desktop) → advance_all (some idle) (window_calls d) ≡ some idle
unfolding window_calls
advance_all-window_calls d =
    advance_all-append (some idle) (icon_calls d) _
    ∙ rw (advance_all-icon_calls d) (advance_all-geometry_calls d)

advance_all-graph_calls : advance_all (some idle) graph_calls ≡ some idle
unfolding source_call connections all_sink_calls sink_calls style_line get_elem? line_label
advance_all-graph_calls = refl

-- In every run of the program the flow graph is started once, is stopped before it is waited for, and
-- has ended whenever the window accepts its close or the application quits; at the end it
-- has ended if an event of these two kinds came, and runs otherwise.
pub main-advance_all :
    (d : Desktop) (es : List Event)
    → (r : TopBlock × List Call) × (main d es ≡ some r)
      × (advance_all (some idle) r.1 ≡ some (if any is_end es then ended else running))
main-advance_all d es = (
  _,
  main-eq d es,
  advance_all-append (some idle) (new_application ∷ (window_calls d ++ graph_calls)) _
      ∙ rw
          (
            advance_all-append (some idle) (window_calls d) graph_calls,
            advance_all-window_calls d,
            advance_all-graph_calls,
          )
          (advance_all-on_events running is_running es (record { samp_rate = 2000000 })
            ∙ ap some (phase_of-running es)),
)
