-- ===== src/EventBus/Invariant.antt =====
-- The invariant of the bus: each last event is of its entry's class, and a timer that is not
-- cancelled is the one in the entry of its event's class.
use client_py.Prelude.{
  ℕ, ◌<◌, ◌≡◌, ◌≢◌, refl, inl, inr, Bool-cases, false, some, arith, nat_keys, ◌∙◌, List,
}
use client_py.Dict
use client_py.Dict.{Dict, get-set, get-remove}
use client_py.Events.{Event, class_of}
use client_py.Events.Class.{EventClass, class_eq, class_eq_iff, class_keys}
use client_py.Command.Base.{Command}
use client_py.EventBus.State.{EventBus, ProcessingData, Timer, data_of, put, init}
use client_py.EventBus.Notify.{notify_now, normalize, same_as_last}
use client_py.EventBus.Entries.{data_of-put}
use client_py.EventBus.Delivery.{
  data_of-notify_now, timers-notify_now, next_timer-notify_now, published, class_of-normalize,
}

pub record IsValid (b : EventBus) : Type 0 where
  pub keyed : (c : EventClass) (e : Event) → (data_of c b).last_event ≡ some e → class_of e ≡ c
  pub live :
      (i : ℕ) (t : Timer)
      → Dict.get i b.timers ≡ some t
      → t.cancelled ≡ false
      → (data_of (class_of t.event) b).notify_handle ≡ some i
  pub fresh : (i : ℕ) (t : Timer) → Dict.get i b.timers ≡ some t → i < b.next_timer

-- The events and the timers are the same.
pub record SameEvents (b b' : EventBus) : Type 0 where
  pub last : (c : EventClass) → (data_of c b').last_event ≡ (data_of c b).last_event
  pub handle : (c : EventClass) → (data_of c b').notify_handle ≡ (data_of c b).notify_handle
  pub timers : b'.timers ≡ b.timers
  pub next : b'.next_timer ≡ b.next_timer

pub SameEvents-IsValid : {b b' : EventBus} → SameEvents b b' → IsValid b → IsValid b'
SameEvents-IsValid s v = record {
  keyed = λ c e h. v.keyed c e (rw s.last at h);
  live = λ i t h w. rw s.handle (v.live i t (rw s.timers at h) w);
  fresh = λ i t h. rw s.next (v.fresh i t (rw s.timers at h));
}

pub SameEvents-put :
    (k : EventClass) (d : ProcessingData) (b : EventBus)
    → d.last_event ≡ (data_of k b).last_event
    → d.notify_handle ≡ (data_of k b).notify_handle
    → SameEvents b (put k d b)
SameEvents-put k d b p q = record {
  last = λ c. ground (arith, data_of-put c k d b, class_eq_iff k c);
  handle = λ c. ground (arith, data_of-put c k d b, class_eq_iff k c);
  timers = refl;
  next = refl;
}

pub init-IsValid : (commands_of : EventClass → List Command) → IsValid (init commands_of)
unfolding data_of Dict.get
init-IsValid commands_of = record { keyed = λ c e h. cc; live = λ i t h. cc; fresh = λ i t h. cc }

pub class_eq-ne : {a b : EventClass} → b ≢ a → class_eq a b ≡ false
class_eq-ne {a} {b} h = ground (arith, class_eq_iff a b)

-- No timer of the class is waiting.
abbrev pub IsQuiet : EventClass → EventBus → Type 0
IsQuiet c b =
    (i : ℕ) (t : Timer) → Dict.get i b.timers ≡ some t → t.cancelled ≡ false → class_of t.event ≢ c

published-keyed :
    (e e' : Event) (b : EventBus)
    → IsValid b
    → (published e b).last_event ≡ some e'
    → class_of e' ≡ class_of e
published-keyed e e' b v h =
    let last = (data_of (class_of e) b).last_event in
    elim (Bool-cases (same_as_last (normalize e last) last)) [
      | inl old ↦ v.keyed (class_of e) e' (rw old at h)
      | inr new ↦ cc (rw new at h, class_of-normalize e last)
    ]

pub notify_now-IsValid :
    (e : Event) (b : EventBus) → IsQuiet (class_of e) b → IsValid b → IsValid (notify_now e b)
notify_now-IsValid e b quiet v = record {
  keyed = λ c e' h. elim (Bool-cases (class_eq (class_of e) c)) [
    | inl is ↦
        published-keyed e e' b v (rw (data_of-notify_now, is) at h)
        ∙ (class_eq_iff (class_of e) c).0 is
    | inr other ↦ v.keyed c e' (rw (data_of-notify_now, other) at h)
  ];
  live = λ i t h w.
      let waits = rw timers-notify_now at h in
      rw (data_of-notify_now, class_eq-ne (quiet i t waits w)) (v.live i t waits w);
  fresh = λ i t h. rw next_timer-notify_now (v.fresh i t (rw timers-notify_now at h));
}
