-- ===== src/Flowgraph.antt =====
-- gnuradio/gnuradiozmq.py: the flow graph that shows the five streams of the receiver, as the calls
-- it makes to Qt and GNU Radio, in their order. Rates are whole numbers of hertz, times are
-- milliseconds. What the two libraries do with a call is theirs.
pub mod Rate
pub mod Routing
pub mod Stop
mod Tests
use aegir_sdr.Common.{
  ℕ, zero, suc, Bool, true, false, Option, none, some, List, [], ◌∷◌, ◌++◌, Text, codes, eq_text,
  ◌==◌, ◌&&◌, if◌then◌else◌,
}

pub data ℤ : Type 0 where
  pos : ℕ → ℤ
  negsuc : ℕ → ℤ

-- The five `qtgui_waterfall_sink_x_0...`; the number is that of the `_0` behind the first.
pub data Sink : Type 0 where
  sink_0 : Sink
  sink_0_0 : Sink
  sink_0_0_0 : Sink
  sink_0_0_0_0 : Sink
  sink_0_0_0_0_0 : Sink

pub data Block : Type 0 where
  sub_source : Block
  vector_to_streams : Block
  waterfall : Sink → Block

-- The label of a line: `"Data {0}".format(i)` or a text of `labels`.
pub data Label : Type 0 where
  data_label : ℕ → Label
  given : Text → Label

pub data Call : Type 0 where
  set_window_title : Text → Call
  check_set_qss : Call
  set_window_icon : Text → Call
  print_error : Text → Call
  set_layout : Call
  set_frame_style_none : Call
  add_scroll_area : Call
  set_widget_resizable : Bool → Call
  set_scroll_widget : Call
  add_grid_layout : Call
  open_settings : Text → Text → Call
  restore_geometry : Text → Call
  new_sub_source : ℕ → Text → ℕ → Bool → ℤ → Text → Bool → Call
  new_sink : Sink → ℕ → ℕ → ℕ → Text → ℕ → Call
  set_update_time : Sink → ℕ → Call
  enable_grid : Sink → Bool → Call
  enable_axis_labels : Sink → Bool → Call
  disable_legend : Sink → Call
  set_line_label : Sink → ℕ → Label → Call
  set_color_map : Sink → ℕ → ℕ → Call
  set_line_alpha : Sink → ℕ → ℕ → Call
  set_intensity_range : Sink → ℤ → ℤ → Call
  wrap_instance : Sink → Call
  add_widget : Sink → Call
  new_vector_to_streams : ℕ → ℕ → Call
  connect : Block → ℕ → Block → ℕ → Call
  set_frequency_range : Sink → ℕ → ℕ → Call
  save_geometry : Text → Call
  stop : Call
  wait : Call
  accept : Call
  new_application : Call
  start : Call
  show : Call
  set_signal_handlers : Call
  start_timer : ℕ → Call
  exec_application : Call
  quit : Call

-- What Qt answers while the window is built: whether the icon is set or what is raised instead, and
-- the stored geometry, if there is one, or what is raised.
pub record Desktop : Type 0 where
  pub icon_error : Option Text
  pub geometry_error : Option Text
  pub geometry : Option Text

pub record TopBlock : Type 0 where
  pub samp_rate : ℕ

-- `setWindowIcon` in its `try`
unfoldable pub icon_calls : Desktop → List Call
icon_calls d = elim d.icon_error [
  | none ↦ set_window_icon (codes "gnuradio-grc") ∷ []
  | some e ↦ print_error (codes "Qt GUI: Could not set Icon: " ++ e) ∷ []
]

unfoldable pub is_truthy : Text → Bool
is_truthy [] = false
is_truthy (c ∷ s) = true

-- `settings.value` and `restoreGeometry` in their `try`
unfoldable pub geometry_calls : Desktop → List Call
unfolding is_truthy
geometry_calls d = elim d.geometry_error [
  | some e ↦ print_error (codes "Qt GUI: Could not restore geometry: " ++ e) ∷ []
  | none ↦ elim d.geometry [
    | none ↦ []
    | some g ↦ if is_truthy g then restore_geometry g ∷ [] else []
  ]
]

unfoldable pub window_calls : Desktop → List Call
window_calls d =
    (set_window_title (codes "Not titled yet") ∷ check_set_qss ∷ [])
    ++ (icon_calls d
        ++ ((set_layout
              ∷ set_frame_style_none
              ∷ add_scroll_area
              ∷ set_widget_resizable true
              ∷ set_scroll_widget
              ∷ add_grid_layout
              ∷ open_settings (codes "GNU Radio") (codes "gnuradiozmq")
              ∷ [])
            ++ geometry_calls d))

-- `xs[i]`; `none` is the `IndexError`.
unfoldable pub get_elem? {ℓ} : {A : Type ℓ} → List A → ℕ → Option A
get_elem? [] n = none
get_elem? (x ∷ xs) zero = some x
get_elem? (x ∷ xs) (suc n) = get_elem? xs n

abbrev pub labels : List Text
labels = [] ∷ [] ∷ [] ∷ [] ∷ [] ∷ [] ∷ [] ∷ [] ∷ [] ∷ [] ∷ []

abbrev pub colors : List ℕ
colors = 0 ∷ 0 ∷ 0 ∷ 0 ∷ 0 ∷ 0 ∷ 0 ∷ 0 ∷ 0 ∷ 0 ∷ []

-- Each is 1.0.
abbrev pub alphas : List ℕ
alphas = 1 ∷ 1 ∷ 1 ∷ 1 ∷ 1 ∷ 1 ∷ 1 ∷ 1 ∷ 1 ∷ 1 ∷ []

unfoldable pub line_label : ℕ → Text → Label
line_label i [] = data_label i
line_label i (c ∷ s) = given (c ∷ s)

-- The body of `for i in range(1)`
unfoldable pub style_line : Sink → ℕ → Option (List Call)
style_line s i = elim (get_elem? labels i) [
  | none ↦ none
  | some l ↦ elim (get_elem? colors i) [
    | none ↦ none
    | some c ↦ elim (get_elem? alphas i) [
      | none ↦ none
      | some a ↦
          some
            (set_line_label s i (line_label i l) ∷ set_color_map s i c ∷ set_line_alpha s i a ∷ [])
    ]
  ]
]

-- One sink: its construction, its settings, and its window.
unfoldable pub sink_calls : ℕ → Sink → Option (List Call)
sink_calls rate s = elim (style_line s 0) [
  | none ↦ none
  | some lines ↦ some (
      (new_sink s 4096 0 rate [] 1
        ∷ set_update_time s 50
        ∷ enable_grid s false
        ∷ enable_axis_labels s false
        ∷ disable_legend s
        ∷ [])
      ++ (lines
          ++ (set_intensity_range s (negsuc 99) (pos 10) ∷ wrap_instance s ∷ add_widget s ∷ [])))
]

unfoldable pub all_sink_calls : ℕ → List Sink → Option (List Call)
all_sink_calls rate [] = some []
all_sink_calls rate (s ∷ ss) = elim (sink_calls rate s) [
  | none ↦ none
  | some calls ↦ elim (all_sink_calls rate ss) [ none ↦ none | some more ↦ some (calls ++ more) ]
]

-- The sinks in the order of their construction.
abbrev pub sinks : List Sink
sinks = sink_0_0_0_0_0 ∷ sink_0_0_0_0 ∷ sink_0_0_0 ∷ sink_0_0 ∷ sink_0 ∷ []

unfoldable pub connections : List Call
connections =
    connect vector_to_streams 0 (waterfall sink_0) 0
    ∷ connect vector_to_streams 1 (waterfall sink_0_0) 0
    ∷ connect vector_to_streams 2 (waterfall sink_0_0_0) 0
    ∷ connect vector_to_streams 3 (waterfall sink_0_0_0_0) 0
    ∷ connect vector_to_streams 4 (waterfall sink_0_0_0_0_0) 0
    ∷ connect sub_source 0 vector_to_streams 0
    ∷ []

unfoldable pub source_call : Call
source_call = new_sub_source 5 (codes "tcp://127.0.0.1:5555") 100 false (negsuc 0) [] false

-- `__init__`
unfoldable pub init : Desktop → Option (TopBlock × List Call)
init d = elim (all_sink_calls 2000000 sinks) [
  | none ↦ none
  | some calls ↦ some (
    record { samp_rate = 2000000 },
    window_calls d ++ (source_call ∷ (calls ++ (new_vector_to_streams 1 5 ∷ connections))),
  )
]

unfoldable pub close_event : List Call
close_event =
    open_settings (codes "GNU Radio") (codes "gnuradiozmq")
    ∷ save_geometry (codes "geometry")
    ∷ stop
    ∷ wait
    ∷ accept
    ∷ []

unfoldable pub get_samp_rate : TopBlock → ℕ
get_samp_rate tb = tb.samp_rate

unfoldable pub set_samp_rate : ℕ → TopBlock → TopBlock × List Call
set_samp_rate rate tb = (
  record { samp_rate = rate },
  set_frequency_range sink_0 0 rate
      ∷ set_frequency_range sink_0_0 0 rate
      ∷ set_frequency_range sink_0_0_0 0 rate
      ∷ set_frequency_range sink_0_0_0_0 0 rate
      ∷ set_frequency_range sink_0_0_0_0_0 0 rate
      ∷ [],
)

-- `sig_handler` of `main`
unfoldable pub sig_handler : List Call
sig_handler = stop ∷ wait ∷ quit ∷ []

-- What reaches the program while `qapp.exec_()` runs.
pub data Event : Type 0 where
  rate_set : ℕ → Event
  closed : Event
  interrupted : Event

unfoldable pub on_event : Event → TopBlock → TopBlock × List Call
on_event (rate_set n) tb = set_samp_rate n tb
on_event closed tb = (tb, close_event)
on_event interrupted tb = (tb, sig_handler)

unfoldable pub on_events : List Event → TopBlock → TopBlock × List Call
on_events [] tb = (tb, [])
on_events (e ∷ es) tb =
    let (tb1, calls) = on_event e tb in let (tb2, more) = on_events es tb1 in (tb2, calls ++ more)

-- `main`, with the events that come
unfoldable pub main : Desktop → List Event → Option (TopBlock × List Call)
main d es = elim (init d) [
  | none ↦ none
  | some (tb, calls) ↦
      let (tb1, more) = on_events es tb in
      some (
        tb1,
        (new_application ∷ calls)
            ++ ((start ∷ show ∷ set_signal_handlers ∷ start_timer 500 ∷ exec_application ∷ [])
                ++ more),
      )
]
