-- ===== src/EventBus/Timers.antt =====
-- What cancelling, `schedule`, `notify` and the end of a timer do to the invariant.
use client_py.Prelude.{
  ℕ, ◌<◌, ◌≡◌, ◌≢◌, refl, inl, inr, Bool-cases, true, false, Option, none, some, arith,
  if◌then◌else◌, nat_eq, nat_eq_iff, nat_keys, ◌∙◌, Option-cases,
}
use client_py.Dict
use client_py.Dict.{Dict, get-set, get-remove}
use client_py.Events.{Event, class_of}
use client_py.Events.Class.{EventClass, class_eq, class_eq_iff, class_keys}
use client_py.EventBus.State.{EventBus, Timer, data_of, put}
use client_py.EventBus.Notify.{notify, schedule, fire, cancel, cancel_handle, is_due}
use client_py.EventBus.Entries.{data_of-put, data_of-put_self}
use client_py.EventBus.Invariant.{
  IsValid, IsQuiet, SameEvents-IsValid, SameEvents-put, notify_now-IsValid, class_eq-ne,
}

abbrev stop : Option Timer → Option Timer
stop none = none
stop (some t) = some (record t { cancelled = true })

get-cancel :
    (i j : ℕ) (ts : Dict ℕ Timer)
    → Dict.get j (cancel i ts) ≡ (if nat_eq i j then stop (Dict.get j ts) else Dict.get j ts)
unfolding cancel
get-cancel i j ts = elim (Option-cases (Dict.get i ts)) [
  | inl e ↦ rw (e, cancel) (ground (arith, nat_eq_iff i j))
  | inr (u, e) ↦
      rw (e, cancel)
        (ground (arith, nat_eq_iff i j, get-set i j (record u { cancelled = true }) ts))
]

-- A timer that waits after the cancel was waiting before, and is another one.
pub cancel_waiting :
    (i j : ℕ) (t : Timer) (ts : Dict ℕ Timer)
    → Dict.get j (cancel i ts) ≡ some t
    → t.cancelled ≡ false
    → (Dict.get j ts ≡ some t) × (i ≢ j)
cancel_waiting i j t ts h w = ground (arith, get-cancel i j ts, nat_eq_iff i j)

cancel_known :
    (i j : ℕ) (t : Timer) (ts : Dict ℕ Timer)
    → Dict.get j (cancel i ts) ≡ some t
    → (u : Timer) × (Dict.get j ts ≡ some u)
cancel_known i j t ts h = elim (Option-cases (Dict.get j ts)) [
  | inl e ↦ ground (arith, get-cancel i j ts)
  | inr found ↦ found
]

-- `notify` first makes the class quiet.
pub cancel_handle-IsValid : (o : Option ℕ) (b : EventBus) → IsValid b → IsValid (cancel_handle o b)
unfolding data_of
cancel_handle-IsValid none b v = v
cancel_handle-IsValid (some i) b v = record {
  keyed = v.keyed;
  live = λ j t h w. v.live j t (cancel_waiting i j t b.timers h w).0 w;
  fresh = λ j t h. let (u, known) = cancel_known i j t b.timers h in v.fresh j u known;
}

cancel_handle-IsQuiet :
    (c : EventClass) (b : EventBus)
    → IsValid b
    → IsQuiet c (cancel_handle (data_of c b).notify_handle b)
cancel_handle-IsQuiet c b v = go (data_of c b).notify_handle refl
  where
    go : (o : Option ℕ) → (data_of c b).notify_handle ≡ o → IsQuiet c (cancel_handle o b)
    go none e i t h w same = cc (v.live i t h w, same, e)
    go (some j) e i t h w same =
        let (waits, ne) = cancel_waiting j i t b.timers h w in ground (arith, v.live i t waits w)

pub data_of-schedule :
    (k : EventClass) (e : Event) (delay : ℕ) (b : EventBus)
    → data_of k (schedule e delay b) ≡ (
        if class_eq (class_of e) k
        then record (data_of (class_of e) b) { notify_handle = some b.next_timer }
        else data_of k b)
unfolding schedule data_of
data_of-schedule k e delay b = data_of-put k (class_of e) _ b

pub get-schedule :
    (i : ℕ) (e : Event) (delay : ℕ) (b : EventBus)
    → Dict.get i (schedule e delay b).timers ≡ (
        if nat_eq b.next_timer i
        then some (record { event = e; delay = delay; cancelled = false })
        else Dict.get i b.timers)
unfolding schedule
get-schedule i e delay b = get-set b.next_timer i _ b.timers

schedule-fresh :
    (e : Event) (delay : ℕ) (b : EventBus)
    → IsValid b
    → (i : ℕ) (t : Timer) → Dict.get i (schedule e delay b).timers ≡ some t
    → i < (schedule e delay b).next_timer
unfolding schedule
schedule-fresh e delay b v i t h = elim (Bool-cases (nat_eq b.next_timer i)) [
  | inl new ↦ omega (arith, (nat_eq_iff b.next_timer i).0 new)
  | inr old ↦
      let before : i < b.next_timer =
        v.fresh i t (rw (get-set b.next_timer i _ b.timers, old) at h) in
      omega arith
]

schedule-IsValid :
    (e : Event) (delay : ℕ) (b : EventBus)
    → IsQuiet (class_of e) b
    → IsValid b
    → IsValid (schedule e delay b)
schedule-IsValid e delay b quiet v = record {
  keyed = λ c e' h. elim (Bool-cases (class_eq (class_of e) c)) [
    | inl is ↦
        v.keyed (class_of e) e' (rw (data_of-schedule c, is) at h)
        ∙ (class_eq_iff (class_of e) c).0 is
    | inr other ↦ v.keyed c e' (rw (data_of-schedule c, other) at h)
  ];
  live = λ i t h w. elim (Bool-cases (nat_eq b.next_timer i)) [
    | inl new ↦ ground (
      arith,
      get-schedule i e delay b,
      data_of-schedule (class_of t.event) e delay b,
      class_eq_iff (class_of e) (class_of t.event),
      nat_eq_iff b.next_timer i,
    )
    | inr old ↦
        let waits = rw (get-schedule i e delay b, old) at h in
        rw (data_of-schedule (class_of t.event), class_eq-ne (quiet i t waits w))
          (v.live i t waits w)
  ];
  fresh = schedule-fresh e delay b v;
}

-- Every notification keeps the invariant, whether it is delivered or put off.
pub notify-IsValid :
    (e : Event) (debounce : ℕ) (b : EventBus) → IsValid b → IsValid (notify e debounce b)
unfolding notify
notify-IsValid e debounce b v =
    let c = class_of e in
    let d = data_of c b in
    let b0 = put c d b in
    let v0 : IsValid b0 = SameEvents-IsValid (SameEvents-put c d b refl refl) v in
    let b1 = cancel_handle d.notify_handle b0 in
    let v1 : IsValid b1 = cancel_handle-IsValid d.notify_handle b0 v0 in
    let quiet : IsQuiet c b1 = rw data_of-put_self at (cancel_handle-IsQuiet c b0 v0) in
    elim (Bool-cases (is_due debounce d.last_event_time b.now)) [
      | inl due ↦ rw due (notify_now-IsValid e b1 quiet v1)
      | inr early ↦ rw early (schedule-IsValid e debounce b1 quiet v1)
    ]

-- The loop has taken the timer off.
abbrev forget : ℕ → EventBus → EventBus
forget i b = record b { timers = Dict.remove i b.timers }

get-forget :
    (i j : ℕ) (t : Timer) (b : EventBus)
    → Dict.get j (forget i b).timers ≡ some t
    → (Dict.get j b.timers ≡ some t) × (i ≢ j)
get-forget i j t b h = ground (arith, get-remove i j b.timers, nat_eq_iff i j)

forget-IsValid : (i : ℕ) (b : EventBus) → IsValid b → IsValid (forget i b)
unfolding data_of
forget-IsValid i b v = record {
  keyed = v.keyed;
  live = λ j t h w. v.live j t (get-forget i j t b h).0 w;
  fresh = λ j t h. v.fresh j t (get-forget i j t b h).0;
}

-- The timer that fires was the only one of its class.
forget-IsQuiet :
    (i : ℕ) (t : Timer) (b : EventBus)
    → IsValid b
    → Dict.get i b.timers ≡ some t
    → t.cancelled ≡ false
    → IsQuiet (class_of t.event) (forget i b)
forget-IsQuiet i t b v found w j u h w' same =
    let (waits, ne) = get-forget i j u b h in
    ground (arith, v.live i t found w, v.live j u waits w')

-- So does a timer that fires.
pub fire-IsValid : (i : ℕ) (b : EventBus) → IsValid b → IsValid (fire i b)
unfolding fire
fire-IsValid i b v = elim (Option-cases (Dict.get i b.timers)) [
  | inl gone ↦ rw (gone, fire) v
  | inr (t, found) ↦
      rw (found, fire)
        (elim (Bool-cases t.cancelled) [
          | inl off ↦ rw off v
          | inr on ↦ rw on (
              notify_now-IsValid t.event (forget i b) (forget-IsQuiet i t b v found on)
                (forget-IsValid i b v))
        ])
]
