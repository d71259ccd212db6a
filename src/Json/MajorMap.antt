-- ===== src/Json/MajorMap.antt =====
-- The checksums of the pieces of the map: `OnMajorMap`, and `GetMajorMap` of
-- commands/json/map/major_map.py.
use client_py.Prelude.{
  String, true, false, Option, none, some, List, [], ◌∷◌, map, ℤ, value_error, attribute_error,
  Result, ok, err, Exec, str_eq, if◌then◌else◌,
}
use client_py.Prelude.Results.{◌>>=◌}
use client_py.Value.{Value, Items, nil, cons, Fields, end, field, int, text, list, dict, item}
use client_py.Value.Text.{parse_int}
use client_py.Util.Text.{split}
use client_py.Events.{Event, major_map, items}
use client_py.Message.World.{World, HandlingState, HandlingResult, notify}
use client_py.Message.Body.{Message, message_body_data_dict}
use client_py.Json.Conclude.{conclude_with}

abbrev numbers : Items → List ℤ
numbers nil = []
numbers (cons (int n) vs) = n ∷ numbers vs
numbers (cons v vs) = numbers vs

abbrev numbers_of : Value → List ℤ
numbers_of (list vs) = numbers vs
numbers_of _ = []

-- `[int(value) for value in data["value"].split(",") if value]`
unfoldable pub major_values : List String → Result (List ℤ)
major_values [] = ok []
major_values (s ∷ parts) = major_values parts >>= λ values.
    if str_eq s ""
    then ok values
    else elim (parse_int s) [ none ↦ err value_error | some n ↦ ok (n ∷ values) ]

abbrev split_values : Value → Result (List ℤ)
split_values (text s) = major_values (split "," s)
split_values _ = err attribute_error

-- `OnMajorMap._handle_body_data_dict`; the result carries the arguments of the event.
unfoldable pub read_major_map : Value → Result (Option (List Event × Fields))
read_major_map value = do
  values ← item value "value" >>= split_values
  map_id ← item value "mid"
  ok (
      some (
        major_map map_id values false ∷ [],
        field "map_id" map_id (field "values" (list (items (map int values))) end),
      ))

abbrev pub on_major_map : Message
on_major_map = message_body_data_dict "onMajorMap" (λ value. conclude_with (read_major_map value))

-- `MajorMapEvent(requested=True, **result.args)`
abbrev requested_event : Fields → Result Event
requested_event fs = do
  map_id ← item (dict fs) "map_id"
  values ← item (dict fs) "values"
  ok (major_map map_id (numbers_of values) true)

-- `GetMajorMap._handle_response`, by the result of the base class
unfoldable pub tell_requested : HandlingResult → Exec World HandlingResult
tell_requested r w = elim r.state [
  | HandlingState.success ↦ elim r.args [
    | none ↦ (ok r, w)
    | some fs ↦ elim (requested_event fs) [ err e ↦ (err e, w) | ok e ↦ (ok r, notify e w) ]
  ]
  | _ ↦ (ok r, w)
]

unfoldable pub handle_major_response : Exec World HandlingResult → Exec World HandlingResult
handle_major_response super w =
    let (answer, w') = super w in elim answer [ err e ↦ (err e, w') | ok r ↦ tell_requested r w' ]
