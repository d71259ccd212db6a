-- ===== src/Examples/Maps.antt =====
-- The map and the trace on concrete inputs.
use client_py.Prelude.{
  ◌≤◌, ◌≡◌, refl, sym, ap, length, Bool, false, some, List, [], pos, Result, ok, err, String, arith,
}
use client_py.Value.{text}
use client_py.Command.Base.{Command}
use client_py.EventBus.State.{EventBus}
use client_py.EventBus.State
use client_py.Message.World.{World}
use client_py.Util.Text.{strip}
use client_py.Map.Data.{
  Drawing, MapState, add_trace_points, clear_trace_points, generate_svg, on_change, with_drawing,
}
use client_py.Map.Handlers.{on_map_trace, add_if_any}
use client_py.Map.Wiring.{init, get_svg_map}
use client_py.Map.Current.{IsQuiet}
use client_py.Map.Image.{Step, Run, get_svg_map_current}
use client_py.Json.MapTrace.{get_map_trace_from}
use client_py.Json.Paging.{pages, Covers, pages_stop}

abbrev bus : EventBus
bus = State.init (λ _. [])

-- A drawing that keeps the last trace, and whose image is its text; a piece is never new.
abbrev sketch : Drawing String
sketch = record {
  add_trace_points = λ v d. elim v [ text t ↦ ok t | _ ↦ ok d ];
  clear_trace_points = λ d. "";
  update_map_piece = λ index piece d. ok (false, d);
  map_piece_crc32_indicates_update = λ index value d. ok (false, d);
  set_map_info = λ info d. ok d;
  generate_svg = λ subsets positions rotation d. ok (some d);
}

abbrev same_drawing : Result (Bool × String) → String
same_drawing (ok (b, d)) = d
same_drawing (err e) = ""

sketch-IsQuiet : IsQuiet sketch
sketch-IsQuiet index piece d d' h subsets positions rotation =
    ap (λ r. ok (some (same_drawing r))) (sym h)

abbrev traced : MapState String
traced = (on_map_trace sketch (pos 0) (text "x") (get_svg_map sketch (init "" bus)).1).1

first_drawing : (get_svg_map sketch (init "" bus)).0 ≡ ok (some "")
unfolding init get_svg_map generate_svg
first_drawing = refl

traced_run : Run sketch "" bus traced
traced_run =
    Run.next (Run.next Run.here (Step.image_asked (some "") (init "" bus) first_drawing))
      (Step.trace_event (pos 0) (text "x") (get_svg_map sketch (init "" bus)).1)

get_svg_map_current_example : (get_svg_map sketch traced).0 ≡ generate_svg sketch traced.map_data
unfolding on_map_trace init get_svg_map add_if_any strip add_trace_points with_drawing on_change
    clear_trace_points generate_svg
get_svg_map_current_example =
    get_svg_map_current sketch "" bus traced traced_run sketch-IsQuiet refl

abbrev world : World
world = record { bus = bus; parse_failure_counts = []; log = [] }

pages_stop_example :
    (cs : List Command) × (w' : World) × (pages 3 450
        (λ _. text "points")
        (get_map_trace_from (pos 0))
        world
      ≡ some (cs, w'))
    × (length cs ≤ 3)
    × Covers 0 450 cs
pages_stop_example = pages_stop 450 2 (λ _. text "points") world (omega arith)
