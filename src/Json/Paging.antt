-- ===== src/Json/Paging.antt =====
-- How the pages of the trace follow each other, with a device that answers every request.
use client_py.Prelude.{
  ℕ, zero, suc, ◌+◌, ◌*◌, ◌≤◌, ◌<◌, ◌≡◌, refl, ap, ◌∙◌, Bool, true, false, Bool-cases, inl, inr,
  Option, none, some, List, [], ◌∷◌, ℤ, pos, ltb, leb, ◌&&◌, ◌||◌, any, length, ◌+ℤ◌, pos_part,
  Result, ok, err, arith, if◌then◌else◌,
}
use client_py.Value.{Value, Fields, end, field, int, dict, item, has, find, to_int}
use client_py.Command.Base.{Command}
use client_py.Message.World.{World, HandlingState, HandlingResult}
use client_py.Json.Conclude.{requesting, conclude_with, request}
use client_py.Json.MapTrace.{
  handle_map_trace, read_map_trace, next_page, next_start, get_map_trace_from,
}

-- The data of the answer to a request from a start
abbrev pub trace_data : ℕ → (ℕ → Value) → ℕ → Value
trace_data total points start = dict (
    field "totalCount" (int (pos total))
      (field "traceStart" (int (pos start)) (field "traceValue" (points start) end)))

abbrev next_commands : Result (Option HandlingResult) → List Command
next_commands (ok (some r)) = elim (request next_page r) [
  | ok r' ↦ r'.requested_commands
  | err e ↦ []
]
next_commands _ = []

-- What the answer to a command is handled to: the bus is told, and commands are requested.
abbrev pub answered : ℕ → (ℕ → Value) → ℕ → World → List Command × World
answered total points start w =
    let r = handle_map_trace (trace_data total points start) w in (next_commands r.0, r.1)

-- `traceStart` of a command
unfoldable pub start_of : Command → ℕ
start_of c = elim (item c.args "traceStart") [
  | ok v ↦ elim v [ int n ↦ pos_part n | _ ↦ 0 ]
  | err e ↦ 0
]

-- The commands that are executed, each requested by the one before; none if the fuel runs out.
unfoldable pub pages : ℕ → ℕ → (ℕ → Value) → Command → World → Option (List Command × World)
pages zero total points c w = none
pages (suc n) total points c w =
    let (requested, w') = answered total points (start_of c) w in
    elim requested [
      | [] ↦ some (c ∷ [], w')
      | d ∷ ds ↦ elim (pages n total points d w') [
        | none ↦ none
        | some (cs, w'') ↦ some (c ∷ cs, w'')
      ]
    ]

-- Whether the point with the index is on the page of one of the commands.
abbrev pub on_page : ℕ → Command → Bool
on_page i c = leb (start_of c) i && ltb i (start_of c + 200)

abbrev page_from : ℕ → Command
page_from k = get_map_trace_from (pos k)

start_of_page : (k : ℕ) → start_of (page_from k) ≡ k
unfolding start_of item find
start_of_page k = refl

add_page : (k : ℕ) → (pos k +ℤ pos 200) ≡ pos (k + 200)
add_page k = ground arith

next_start_lem :
    (k total : ℕ)
    → next_start (pos k) (pos total) ≡ (if ltb (k + 200) total then some (pos (k + 200)) else none)
unfolding next_start
next_start_lem k total = rw (add_page k) (ground arith)

-- What is requested, by the next start.
abbrev requested_by : Fields → Option ℤ → List Command
requested_by fs o =
    let r : HandlingResult = record {
      state = HandlingState.success;
      args = some fs;
      requested_commands = [];
    } in
    let commands : Result (List Command) = elim o [
      | none ↦ ok []
      | some following ↦ ok (get_map_trace_from following ∷ [])
    ] in
    elim (requesting r (some fs) commands) [ ok r' ↦ r'.requested_commands | err e ↦ [] ]

requested_if :
    (fs : Fields) (b : Bool) (k : ℕ)
    → requested_by fs (if b then some (pos k) else none) ≡ (if b then page_from k ∷ [] else [])
requested_if fs true k = refl
requested_if fs false k = refl

next_commands_lem :
    (total k : ℕ) (points : ℕ → Value) (w : World)
    → (answered total points k w).0 ≡ (if ltb (k + 200) total then page_from (k + 200) ∷ [] else [])
unfolding read_map_trace item find has to_int conclude_with request next_page
next_commands_lem total k points w =
    let fs = field "start" (int (pos k)) (field "total" (int (pos total)) end) in
    ap (requested_by fs) (next_start_lem k total) ∙ requested_if fs (ltb (k + 200) total) (k + 200)

-- A command in front of the pages that follow it.
abbrev in_front : Command → Option (List Command × World) → Option (List Command × World)
in_front c none = none
in_front c (some (cs, w)) = some (c ∷ cs, w)

abbrev paged : ℕ → ℕ → (ℕ → Value) → Command → World → List Command → Option (List Command × World)
paged n total points c w [] = some (c ∷ [], w)
paged n total points c w (d ∷ ds) = in_front c (pages n total points d w)

paged_if :
    (n total : ℕ) (points : ℕ → Value) (c d : Command) (w : World) (b : Bool)
    → paged n total points c w (if b then d ∷ [] else [])
      ≡ (if b then in_front c (pages n total points d w) else some (c ∷ [], w))
paged_if n total points c d w true = refl
paged_if n total points c d w false = refl

pages_step :
    (n total k : ℕ) (points : ℕ → Value) (w : World)
    → pages (suc n) total points (page_from k) w ≡ (
        if ltb (k + 200) total
        then in_front
            (page_from k)
            (pages n total points (page_from (k + 200)) (answered total points k w).1)
        else some (page_from k ∷ [], (answered total points k w).1))
unfolding pages start_of item find
pages_step n total k points w =
    let w' = (answered total points k w).1 in
    ap (paged n total points (page_from k) w') (next_commands_lem total k points w)
    ∙ paged_if n total points (page_from k) (page_from (k + 200)) w' (ltb (k + 200) total)

-- Every point from an index on is on the page of a command.
abbrev pub Covers : ℕ → ℕ → List Command → Type 0
Covers k total cs = (i : ℕ) → k ≤ i → i < total → any (on_page i) cs ≡ true

abbrev Ends : ℕ → ℕ → (ℕ → Value) → ℕ → World → Type 0
Ends n total points k w =
    (cs : List Command) × (w' : World) × (pages n total points (page_from k) w ≡ some (cs, w'))
    × (length cs ≤ n)
    × Covers k total cs

first_page :
    (i k : ℕ) (cs : List Command) → k ≤ i → i < k + 200 → any (on_page i) (page_from k ∷ cs) ≡ true
unfolding start_of item find
first_page i k cs h l = ground arith

later_page :
    (i k : ℕ) (cs : List Command)
    → any (on_page i) cs ≡ true
    → any (on_page i) (page_from k ∷ cs) ≡ true
later_page i k cs h =
    rw (h)
      (elim (on_page i (page_from k)) as (λ b. (b || true) ≡ true) [ true ↦ refl | false ↦ refl ])

last_page :
    (n total k : ℕ) (points : ℕ → Value) (w : World)
    → ltb (k + 200) total ≡ false
    → Ends (suc n) total points k w
last_page n total k points w last = (
  page_from k ∷ [],
  (answered total points k w).1,
  pages_step n total k points w
      ∙ ap
          (λ b.
            if b
            then in_front (page_from k)
                (pages n total points (page_from (k + 200)) (answered total points k w).1)
            else some (page_from k ∷ [], (answered total points k w).1))
          last,
  omega arith,
  λ i h l. first_page i k [] h (ground arith),
)

pages_end :
    (n total k : ℕ) (points : ℕ → Value) (w : World)
    → total ≤ k + 200 * suc n
    → Ends (suc n) total points k w
pages_end zero total k points w h = last_page zero total k points w (ground arith)
pages_end (suc n) total k points w h = elim (Bool-cases (ltb (k + 200) total)) [
  | inr last ↦ last_page (suc n) total k points w last
  | inl more ↦
      let w1 = (answered total points k w).1 in
      let (cs, w', e, short, covers) = pages_end n total (k + 200) points w1 (omega (arith, h)) in
      (
        page_from k ∷ cs,
        w',
        pages_step (suc n) total k points w
            ∙ ap
                (λ b.
                  if b
                  then in_front (page_from k) (pages (suc n) total points (page_from (k + 200)) w1)
                  else some (page_from k ∷ [], w1))
                more
            ∙ ap (in_front (page_from k)) e,
        omega (arith, short),
        λ i from below. elim (Bool-cases (ltb i (k + 200))) [
          | inl near ↦ first_page i k cs from (ground arith)
          | inr far ↦ later_page i k cs (covers i (ground arith) below)
        ],
      )
]

-- The trace is fetched to its end: with a device that answers each command with the points from the
-- start that it names, the command for the start 0 is followed by at most as many others as there are
-- further pages of 200 points, then no more are requested, and every point was on a page.
pub pages_stop :
    (total n : ℕ) (points : ℕ → Value) (w : World)
    → total ≤ 200 * suc n
    → (cs : List Command) × (w' : World) × (pages
          (suc n)
          total
          points
          (get_map_trace_from (pos 0))
          w
        ≡ some (cs, w'))
      × (length cs ≤ suc n)
      × Covers 0 total cs
pages_stop total n points w h = pages_end n total 0 points w (omega (arith, h))
