-- ===== src/Json/MapTrace.antt =====
-- `GetMapTrace`: the trace of the robot, in pages of 200 points.
use client_py.Prelude.{
  ℕ, Option, none, some, List, [], ◌∷◌, ℤ, pos, ◌+ℤ◌, ltb_ℤ, Result, ok, Exec, if◌then◌else◌,
}
use client_py.Prelude.Results.{◌>>=◌}
use client_py.Value.{Value, Fields, end, field, int, dict, item, has, to_int}
use client_py.Events.{Event, map_trace}
use client_py.Command.Base.{Command}
use client_py.Message.World.{World, HandlingResult, Handler}
use client_py.Message.Body.{Message, message_body_data_dict}
use client_py.Json.Conclude.{conclude_with, and_request}

abbrev pub trace_point_count : ℕ
trace_point_count = 200

-- `GetMapTrace(trace_start)`
abbrev pub get_map_trace_from : ℤ → Command
get_map_trace_from start = record {
  name = "getMapTrace";
  args =
      dict (field "pointCount" (int (pos trace_point_count)) (field "traceStart" (int start) end));
}

-- `_handle_body_data_dict`
unfoldable pub read_map_trace : Value → Result (Option (List Event × Fields))
read_map_trace value = do
  total ← item value "totalCount" >>= to_int
  start ← item value "traceStart" >>= to_int
  present ← has value "traceValue"
  if present
      then (item value "traceValue" >>= λ points. ok (
          some (
            map_trace start total points ∷ [],
            field "start" (int start) (field "total" (int total) end),
          )))
      else ok none

abbrev pub handle_map_trace : Handler Value
handle_map_trace value = conclude_with (read_map_trace value)

abbrev pub get_map_trace : Message
get_map_trace = message_body_data_dict "getMapTrace" handle_map_trace

-- The next page, if there is one.
unfoldable pub next_start : ℤ → ℤ → Option ℤ
next_start start total =
    let following = start +ℤ pos trace_point_count in
    if ltb_ℤ following total then some following else none

-- The commands that `_handle_response` requests
unfoldable pub next_page : Fields → Result (List Command)
next_page fs = do
  start ← item (dict fs) "start" >>= to_int
  total ← item (dict fs) "total" >>= to_int
  elim (next_start start total) [
    | none ↦ ok []
    | some following ↦ ok (get_map_trace_from following ∷ [])
  ]

-- `_handle_response`, on that of the base class
abbrev pub handle_trace_response : Exec World HandlingResult → Exec World HandlingResult
handle_trace_response = and_request next_page
