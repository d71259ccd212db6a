-- ===== src/EventBus/Exclusion.antt =====
-- Refreshes of one class never overlap: the history of a run has at most one that has started and
-- not ended, exactly while the semaphore is taken.
use client_py.Prelude.{
  ℕ, ◌+◌, ◌-◌, ◌≤◌, ◌≡◌, refl, ap, ◌∙◌, sym, inl, inr, Bool-cases, Option-cases, Bool, true, false,
  List, [], ◌∷◌, is_empty, length, ltb, not, ◌||◌, ◌++◌, arith, if◌then◌else◌,
}
use client_py.Dict
use client_py.Events.Class.{EventClass, class_eq, class_eq_iff, class_keys}
use client_py.Command.Base.{Command}
use client_py.EventBus.State.{EventBus, ProcessingData, data_of, put}
use client_py.EventBus.Refresh.{start_refresh, finish_refresh, begin_refresh, begin_teardown}
use client_py.EventBus.Entries.{data_of-put}
use client_py.EventBus.Frame.{found-data_of}
use client_py.EventBus.Teardown.{locked-end_teardown}
use client_py.EventBus.Locks.{
  SameLocks, SameLocks-rest, SameLocks-tick, subscribe-SameLocks, unsubscribe-SameLocks,
  add_on_subscription_callback-SameLocks, remove_on_subscription_callback-SameLocks,
  notify-SameLocks, fire-SameLocks, start_call-SameLocks, finish_call-SameLocks,
  cancel_call-SameLocks,
}
use client_py.EventBus.Steps.{
  Label, started, finished, silent, Step, subscribed, unsubscribed, added, removed, notified, fired,
  delivered, refreshed, refresh_ended, called, call_ended, ticked, call_cancelled, stopping,
  stopped, Run, here, next, without, refresh_label,
}

-- The refreshes of a class that a history, latest label first, has started and not ended.
unfoldable pub running : EventClass → List Label → ℕ
running c [] = 0
running c (started k ∷ h) = running c h + (if class_eq k c then 1 else 0)
running c (finished k ∷ h) = running c h - (if class_eq k c then 1 else 0)
running c (silent ∷ h) = running c h

abbrev held : EventClass → EventBus → ℕ
held c b = if (data_of c b).locked then 1 else 0

SameLocks-held : {b b' : EventBus} (c : EventClass) → SameLocks b b' → held c b' ≡ held c b
SameLocks-held c s = rw s.locks

held-put :
    (c k : EventClass) (d : ProcessingData) (b : EventBus)
    → held c (put k d b) ≡ (if class_eq k c then (if d.locked then 1 else 0) else held c b)
held-put c k d b = ground (arith, data_of-put c k d b)

-- The entry of a class that a test finds equal.
held-at :
    (c k : EventClass) (b : EventBus)
    → class_eq k c ≡ true
    → held c b ≡ (if (data_of k b).locked then 1 else 0)
held-at c k b is = ap (λ j. held j b) (sym ((class_eq_iff k c).0 is))

held-take :
    (c k : EventClass) (b : EventBus)
    → (data_of k b).locked ≡ false
    → (if class_eq k c then 1 else held c b) ≡ held c b + (if class_eq k c then 1 else 0)
held-take c k b free = elim (Bool-cases (class_eq k c)) [
  | inl is ↦ rw (is, held-at c k b is, free)
  | inr other ↦ rw other (omega arith)
]

held-give :
    (c k : EventClass) (b : EventBus)
    → (data_of k b).locked ≡ true
    → (if class_eq k c then 0 else held c b) ≡ held c b - (if class_eq k c then 1 else 0)
held-give c k b taken = elim (Bool-cases (class_eq k c)) [
  | inl is ↦ rw (is, held-at c k b is, taken)
  | inr other ↦ rw other (omega arith)
]

-- What a refresh task finds: whether it takes the semaphore.
abbrev takes : ProcessingData → Bool
takes d = not (d.locked || is_empty d.refresh_commands)

-- Running a refresh task takes the semaphore exactly then.
held-begin_refresh :
    (c k : EventClass) (d : ProcessingData) (b : EventBus)
    → data_of k b ≡ d
    → held c (begin_refresh k d b)
      ≡ held c b + (if takes d then (if class_eq k c then 1 else 0) else 0)
unfolding begin_refresh
held-begin_refresh c k d b h = elim (Bool-cases d.locked) [
  | inl busy ↦ rw busy (omega arith)
  | inr free ↦ rw free (elim (Bool-cases (is_empty d.refresh_commands)) [
    | inl nothing ↦ rw nothing (omega arith)
    | inr some_commands ↦ rw some_commands (
        SameLocks-held c (SameLocks-rest (put k (record d { locked = true }) b) _ _ _ _ _ _)
        ∙ held-put c k (record d { locked = true }) b
        ∙ held-take c k b (ap (λ (x : ProcessingData). x.locked) h ∙ free))
  ])
]

ltb-length : (xs ys : List Command) → ltb (length xs) (length (xs ++ ys)) ≡ not (is_empty ys)
ltb-length [] [] = refl
ltb-length [] (y ∷ ys) = ground arith
ltb-length (x ∷ xs) ys = ground (arith, ltb-length xs ys)

-- A refresh task hands commands over exactly if it takes the semaphore.
handed-begin_refresh :
    (k : EventClass) (d : ProcessingData) (b : EventBus)
    → ltb (length b.executed) (length (begin_refresh k d b).executed) ≡ takes d
unfolding begin_refresh
handed-begin_refresh k d b = elim (Bool-cases d.locked) [
  | inl busy ↦ rw busy (ground arith)
  | inr free ↦ rw free (elim (Bool-cases (is_empty d.refresh_commands)) [
    | inl nothing ↦ rw nothing (ground arith)
    | inr some_commands ↦
        rw some_commands (ltb-length b.executed d.refresh_commands ∙ ap not some_commands)
  ])
]

held-start_refresh :
    (c k : EventClass) (h : List Label) (b : EventBus)
    → running c h ≡ held c b
    → running c (refresh_label k b (start_refresh k b) ∷ h) ≡ held c (start_refresh k b)
unfolding start_refresh refresh_label running
held-start_refresh c k h b e = elim (Option-cases (Dict.get k b.processing)) [
  | inl gone ↦ rw (gone, refresh_label, start_refresh) (ground (arith, e))
  | inr (d, found) ↦
      rw (found, refresh_label, start_refresh, handed-begin_refresh k d b)
        (rw (held-begin_refresh c k d b (found-data_of k d b found)) (elim (Bool-cases (takes d)) [
          | inl t ↦ rw t (ground arith)
          | inr t ↦ rw t (omega arith)
        ]))
]

held-finish_refresh :
    (c k : EventClass) (h : List Label) (b : EventBus)
    → (data_of k b).locked ≡ true
    → running c h ≡ held c b
    → running c (finished k ∷ h) ≡ held c (finish_refresh k b)
unfolding finish_refresh running data_of
held-finish_refresh c k h b locked e = elim (Option-cases (Dict.get k b.processing)) [
  | inl gone ↦ cc (rw (gone, data_of) at locked)
  | inr (d, found) ↦
      rw (found, finish_refresh, e)
        (sym (held-give c k b locked) ∙ sym (held-put c k (record d { locked = false }) b))
]

Step-running :
    (c : EventClass) {b b' : EventBus} {l : Label} (h : List Label)
    → Step b l b'
    → running c h ≡ held c b
    → running c (l ∷ h) ≡ held c b'
unfolding running refresh_label begin_teardown
Step-running c h (subscribed k callback b) e =
    e ∙ sym (SameLocks-held c (subscribe-SameLocks k callback b))
Step-running c h (unsubscribed k callback b b' g) e =
    e ∙ sym (SameLocks-held c (unsubscribe-SameLocks k callback b g))
Step-running c h (added k id b) e =
    e ∙ sym (SameLocks-held c (add_on_subscription_callback-SameLocks k id b))
Step-running c h (removed k id b b' g) e =
    e ∙ sym (SameLocks-held c (remove_on_subscription_callback-SameLocks k id b g))
Step-running c h (notified ev debounce b) e =
    e ∙ sym (SameLocks-held c (notify-SameLocks ev debounce b))
Step-running c h (fired i b) e = e ∙ sym (SameLocks-held c (fire-SameLocks i b))
Step-running c h (delivered ev callback before after b g) e =
    e ∙ sym (SameLocks-held c (SameLocks-rest b _ _ _ _ _ _))
Step-running c h (refreshed k before after b g) e =
    held-start_refresh c k h (without before after b)
      (e ∙ sym (SameLocks-held c (SameLocks-rest b _ _ _ _ _ _)))
Step-running c h (refresh_ended k b g) e = held-finish_refresh c k h b g e
Step-running c h (called k id before after b g) e =
    e
    ∙ sym (SameLocks-held c (SameLocks-rest b _ _ _ _ _ _))
    ∙ sym (SameLocks-held c (start_call-SameLocks k id (without before after b)))
Step-running c h (call_ended k id u b) e =
    e ∙ sym (SameLocks-held c (finish_call-SameLocks k id u b))
Step-running c h (ticked now b) e = e ∙ sym (SameLocks-held c (SameLocks-tick now b))
Step-running c h (call_cancelled id b) e = e ∙ sym (SameLocks-held c (cancel_call-SameLocks id b))
Step-running c h (stopping b) e = e ∙ sym (SameLocks-held c (SameLocks-rest b _ _ _ _ _ _))
Step-running c h (stopped b) e = e ∙ sym (ap (λ t. if t then 1 else 0) (locked-end_teardown c b))

Run-running :
    (commands_of : EventClass → List Command) (c : EventClass) (h : List Label) (b : EventBus)
    → Run commands_of h b
    → running c h ≡ held c b
Run-running commands_of c _ _ here = unfold running data_of Dict.get in refl
Run-running commands_of c _ _ (next r s) = Step-running c _ s (Run-running commands_of c _ _ r)

at_most_one : (t : Bool) → (if t then 1 else 0) ≤ 1
at_most_one true = omega arith
at_most_one false = omega arith

-- In every run, the refreshes of a class that have started and not ended are one while the
-- semaphore of the class is taken, and none otherwise: two never run at once.
pub Run-exclusive :
    (commands_of : EventClass → List Command) (h : List Label) (b : EventBus) (c : EventClass)
    → Run commands_of h b
    → (running c h ≡ (if (data_of c b).locked then 1 else 0)) × (running c h ≤ 1)
Run-exclusive commands_of h b c r =
    let e = Run-running commands_of c h b r in (e, rw e (at_most_one (data_of c b).locked))
