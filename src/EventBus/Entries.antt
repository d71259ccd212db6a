-- ===== src/EventBus/Entries.antt =====
-- What a write to one entry of the bus changes, and what `spawn` and `request_refresh` leave alone.
use client_py.Prelude.{
  ◌≡◌, ◌≢◌, refl, sym, inl, inr, Bool-cases, Bool, not, ◌&&◌, List, [], ◌∷◌, ◌++◌, map, keep, arith,
  if◌then◌else◌, eq_self,
}
use mathlib.Core.List.{append-nil, append_assoc}
use client_py.Dict.{get-set}
use client_py.Events.Class.{EventClass, class_eq, class_eq_iff, class_keys}
use client_py.EventBus.State.{
  EventBus, ProcessingData, Task, refresh, data_of, put, spawn, has_subscribers, request_refresh,
}
use client_py.EventBus.Notify.{refresh_all}

pub data_of-put :
    (c k : EventClass) (d : ProcessingData) (b : EventBus)
    → data_of c (put k d b) ≡ (if class_eq k c then d else data_of c b)
unfolding data_of
data_of-put c k d b = ground (arith, get-set k c d b.processing)

pub data_of-put_self :
    (c : EventClass) (d : ProcessingData) (b : EventBus) → data_of c (put c d b) ≡ d
data_of-put_self c d b = rw (data_of-put c c d b, eq_self c)

pub data_of-put_ne :
    (c k : EventClass) (d : ProcessingData) (b : EventBus)
    → k ≢ c
    → data_of c (put k d b) ≡ data_of c b
data_of-put_ne c k d b h = ground (arith, data_of-put c k d b, class_eq_iff k c)

-- A task changes no entry.
pub data_of-spawn :
    (k : EventClass) (ts : List Task) (b : EventBus) → data_of k (spawn ts b) ≡ data_of k b
unfolding data_of
data_of-spawn k ts b = refl

-- Whether a class is refreshed when the device is back.
unfoldable pub is_refreshed : EventBus → EventClass → Bool
is_refreshed b c = not (class_eq c EventClass.availability) && has_subscribers c b

unfoldable pub refreshes : EventBus → List EventClass → List Task
unfolding is_refreshed
refreshes b cs = map refresh (keep (is_refreshed b) cs)

pub spawn-nil : (b : EventBus) → spawn [] b ≡ b
spawn-nil b = rw append-nil

pub spawn-spawn : (ts us : List Task) (b : EventBus) → spawn us (spawn ts b) ≡ spawn (ts ++ us) b
spawn-spawn ts us b = rw append_assoc

refreshes-spawn :
    (ts : List Task) (b : EventBus) (cs : List EventClass)
    → refreshes (spawn ts b) cs ≡ refreshes b cs
unfolding refreshes has_subscribers
refreshes-spawn ts b cs = refl

refreshes-cons :
    (b : EventBus) (c : EventClass) (cs : List EventClass)
    → refreshes b (c ∷ cs)
      ≡ (if is_refreshed b c then refresh c ∷ refreshes b cs else refreshes b cs)
unfolding refreshes
refreshes-cons b c cs = ground arith

refresh_step :
    (c : EventClass) (b : EventBus)
    → (if class_eq c EventClass.availability then b else request_refresh c b)
      ≡ spawn (if is_refreshed b c then refresh c ∷ [] else []) b
unfolding request_refresh is_refreshed
refresh_step c b = ground (arith, spawn-nil b)

-- The loop over the classes only adds tasks: a refresh for each subscribed class but availability.
pub refresh_all-eq-spawn :
    (cs : List EventClass) (b : EventBus) → refresh_all cs b ≡ spawn (refreshes b cs) b
unfolding refresh_all
refresh_all-eq-spawn [] b = unfold refreshes in sym (spawn-nil b)
refresh_all-eq-spawn (c ∷ cs) b =
    rw (refresh_step c b, refresh_all-eq-spawn cs, refreshes-spawn, spawn-spawn)
      (elim (Bool-cases (is_refreshed b c)) [
        | inl e ↦ rw (e, refreshes-cons, e)
        | inr e ↦ rw (e, refreshes-cons, e)
      ])
