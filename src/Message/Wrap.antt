-- ===== src/Message/Wrap.antt =====
-- `_handle_error_or_analyse`, the decorator of the methods that call a handler.
use client_py.Prelude.{String, Option, none, some, ok, err}
use client_py.Message.World.{
  World, HandlingState, HandlingResult, Handler, Level, debug, could_not_handle, no_response,
  result, analysed, write, log_parse_failure,
}

-- The `else` clause of the wrapper.
unfoldable pub settle : String → Option HandlingResult → World → HandlingResult × World
settle name none w = (result HandlingState.error, write Level.error no_response name w)
settle name (some r) w = elim r.state [
  | HandlingState.analyse ↦ (analysed r, write debug could_not_handle name w)
  | HandlingState.error ↦ (r, log_parse_failure name w)
  | _ ↦ (r, w)
]

-- `wrapper`: it returns a result whatever the method does.
unfoldable pub wrapper : {T : Type 0} → String → Handler T → T → World → HandlingResult × World
wrapper name func value w =
    let (answer, w') = func value w in
    elim answer [
      | err e ↦ (result HandlingState.error, log_parse_failure name w')
      | ok response ↦ settle name response w'
    ]

-- The decorated method, as the methods that call it see it.
abbrev pub wrapped : {T : Type 0} → String → Handler T → Handler T
wrapped name func value w = let (r, w') = wrapper name func value w in (ok (some r), w')
