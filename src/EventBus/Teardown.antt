-- ===== src/EventBus/Teardown.antt =====
-- `teardown` leaves no timer that fires.
use client_py.Prelude.{
  ℕ, ◌≡◌, ◌≢◌, refl, ◌∙◌, inl, inr, Bool-cases, Option-cases, true, false, Option, none, some, [],
  ◌∷◌, arith, nat_keys,
}
use client_py.Dict
use client_py.Dict.{Dict}
use client_py.Events.{class_of}
use client_py.Events.Class.{EventClass, class_eq, class_keys}
use client_py.EventBus.State.{EventBus, ProcessingData, Timer, data_of}
use client_py.EventBus.Notify.{cancel_handle, fire}
use client_py.EventBus.Refresh.{cancel_all, end_teardown}
use client_py.EventBus.Invariant.{IsValid}
use client_py.EventBus.Timers.{cancel_waiting, cancel_handle-IsValid}

cancel_handle_waiting :
    (o : Option ℕ) (b : EventBus) (i : ℕ) (t : Timer)
    → Dict.get i (cancel_handle o b).timers ≡ some t
    → t.cancelled ≡ false
    → (Dict.get i b.timers ≡ some t) × (o ≢ some i)
cancel_handle_waiting none b i t h w = (h, λ p. cc)
cancel_handle_waiting (some j) b i t h w =
    let (before, ne) = cancel_waiting j i t b.timers h w in (before, λ p. ground arith)

-- A timer that waits after the handles of a dict were cancelled is in none of its entries.
cancel_all-waiting :
    (ps : Dict EventClass ProcessingData) (b : EventBus) (i : ℕ) (t : Timer)
    → Dict.get i (cancel_all ps b).timers ≡ some t
    → t.cancelled ≡ false
    → (Dict.get i b.timers ≡ some t)
      × ((c : EventClass) (d : ProcessingData) → Dict.get c ps ≡ some d → d.notify_handle ≢ some i)
unfolding cancel_all Dict.get
cancel_all-waiting [] b i t h w = (h, λ c d found. cc)
cancel_all-waiting ((k, e) ∷ ps) b i t h w =
    let (before, others) = cancel_all-waiting ps (cancel_handle e.notify_handle b) i t h w in
    let (first, ne) = cancel_handle_waiting e.notify_handle b i t before w in
    (
      first,
      λ c d found p. elim (Bool-cases (class_eq k c)) [
        | inl is ↦ ground arith
        | inr other ↦ others c d (rw other at found) p
      ],
    )

cancel_all-IsValid :
    (ps : Dict EventClass ProcessingData) (b : EventBus) → IsValid b → IsValid (cancel_all ps b)
unfolding cancel_all
cancel_all-IsValid [] b v = v
cancel_all-IsValid ((k, e) ∷ ps) b v =
    cancel_all-IsValid ps (cancel_handle e.notify_handle b)
      (cancel_handle-IsValid e.notify_handle b v)

cancel_handle-rest :
    (o : Option ℕ) (b : EventBus)
    → ((cancel_handle o b).tasks ≡ b.tasks) × ((cancel_handle o b).processing ≡ b.processing)
cancel_handle-rest none b = (refl, refl)
cancel_handle-rest (some i) b = (refl, refl)

cancel_all-rest :
    (ps : Dict EventClass ProcessingData) (b : EventBus)
    → ((cancel_all ps b).tasks ≡ b.tasks) × ((cancel_all ps b).processing ≡ b.processing)
unfolding cancel_all
cancel_all-rest [] b = (refl, refl)
cancel_all-rest ((k, e) ∷ ps) b =
    let (t, p) = cancel_all-rest ps (cancel_handle e.notify_handle b) in
    let (t', p') = cancel_handle-rest e.notify_handle b in (t ∙ t', p ∙ p')

locked-cancel_handle :
    (c : EventClass) (o : Option ℕ) (b : EventBus)
    → (data_of c (cancel_handle o b)).locked ≡ (data_of c b).locked
unfolding data_of
locked-cancel_handle c none b = refl
locked-cancel_handle c (some i) b = refl

data_of-cancel_all :
    (c : EventClass) (ps : Dict EventClass ProcessingData) (b : EventBus)
    → (data_of c (cancel_all ps b)).locked ≡ (data_of c b).locked
unfolding data_of cancel_all
data_of-cancel_all c [] b = refl
data_of-cancel_all c ((k, e) ∷ ps) b =
    data_of-cancel_all c ps (cancel_handle e.notify_handle b)
    ∙ locked-cancel_handle c e.notify_handle b

pub end_teardown-IsValid : (b : EventBus) → IsValid b → IsValid (end_teardown b)
unfolding end_teardown
end_teardown-IsValid b v = cancel_all-IsValid b.processing b v

pub locked-end_teardown :
    (c : EventClass) (b : EventBus) → (data_of c (end_teardown b)).locked ≡ (data_of c b).locked
unfolding end_teardown
locked-end_teardown c b = data_of-cancel_all c b.processing b

-- A waiting timer of a valid bus is the handle of an entry in the dict.
waiting_entry :
    (i : ℕ) (t : Timer) (b : EventBus)
    → IsValid b
    → Dict.get i b.timers ≡ some t
    → t.cancelled ≡ false
    → (d : ProcessingData) × (Dict.get (class_of t.event) b.processing ≡ some d)
      × (d.notify_handle ≡ some i)
unfolding data_of
waiting_entry i t b v h w = elim (Option-cases (Dict.get (class_of t.event) b.processing)) [
  | inl e ↦ cc (rw (e, data_of) at (v.live i t h w))
  | inr (d, e) ↦ (d, e, rw (e, data_of) at (v.live i t h w))
]

end_teardown-cancelled :
    (b : EventBus) (i : ℕ) (t : Timer)
    → IsValid b
    → Dict.get i (end_teardown b).timers ≡ some t
    → t.cancelled ≡ true
unfolding end_teardown
end_teardown-cancelled b i t v h = elim (Bool-cases t.cancelled) [
  | inl off ↦ off
  | inr on ↦
      let (before, others) = cancel_all-waiting b.processing b i t h on in
      let (d, found, handle) = waiting_entry i t b v before on in
      absurd (others (class_of t.event) d found handle)
]

-- When `teardown` has ended, on a bus in its invariant and whatever ran while it waited for the
-- tasks, no timer does anything any more.
pub teardown_stops : (b : EventBus) (i : ℕ) → IsValid b → fire i (end_teardown b) ≡ end_teardown b
unfolding fire
teardown_stops b i v = elim (Option-cases (Dict.get i (end_teardown b).timers)) [
  | inl gone ↦ rw (gone, fire) refl
  | inr (t, found) ↦ rw (found, fire, end_teardown-cancelled b i t v found) refl
]
