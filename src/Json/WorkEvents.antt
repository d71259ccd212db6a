-- ===== src/Json/WorkEvents.antt =====
-- `onWorkState`: which events a known pair of states gives.
use client_py.Prelude.{
  ◌≡◌, refl, sym, ◌∙◌, subst, Option, none, some, List, [], ◌∷◌, ◌++◌, ok, pos, if◌then◌else◌,
  ok-injective,
}
use client_py.Prelude.Results.{Holds, Holds-bind}
use client_py.Value.{Value, dict, end, get, get_or, is_int}
use client_py.Models.{State, StationState}
use client_py.Events.{Event, station}
use client_py.Json.Station.{work_state, work_state_events, work_events, robot_event, hashable}

-- One event of the station, after at most one of the robot, which a paused message fixes.
abbrev pub WorkReport : Value → Option (List Event) → Type 0
WorkReport paused none = Unit
WorkReport paused (some es) =
    (robot : Option State) × (at : StationState) × (es
      ≡ robot_event (if is_int paused (pos 1) then some State.paused else robot) ++ station at ∷ [])

work_events-WorkReport :
    (paused : Value) (found : Option (Option State × StationState))
    → WorkReport paused (work_events (is_int paused (pos 1)) found)
work_events-WorkReport paused none = tt
work_events-WorkReport paused (some (robot, at)) = (robot, at, refl)

work_state-WorkReport :
    (value paused : Value)
    → get value "paused" ≡ ok paused
    → Holds (WorkReport paused) (work_state value)
unfolding work_state
work_state-WorkReport value paused h =
    let P = WorkReport paused in
    Holds-bind P (get_or value "robotState" (dict end)) _ (λ robot _.
      Holds-bind P (get robot "state") _ (λ robot_state _.
        Holds-bind P (get_or value "stationState" (dict end)) _ (λ at _.
          Holds-bind P (get at "state") _ (λ station_state _.
            Holds-bind P (hashable robot_state) _ (λ robot_key _.
              Holds-bind P (hashable station_state) _ (λ station_key _.
                Holds-bind P (get value "paused") _ (λ again known.
                  subst
                    (λ p.
                      WorkReport paused
                        (work_events (is_int p (pos 1)) (work_state_events robot_key station_key)))
                    (ok-injective (sym h ∙ known))
                    (work_events-WorkReport paused (work_state_events robot_key station_key)))))))))

-- A message `onWorkState` that is understood is told as one event of the station, after at most one
-- of the robot; while the message says paused, that is the event that the robot is paused.
pub work_state_reports :
    (value paused : Value) (es : List Event)
    → get value "paused" ≡ ok paused
    → work_state value ≡ ok (some es)
    → (robot : Option State) × (at : StationState) × (es
        ≡ robot_event (if is_int paused (pos 1) then some State.paused else robot)
          ++ station at ∷ [])
work_state_reports value paused es h understood =
    subst (Holds (WorkReport paused)) understood (work_state-WorkReport value paused h)
