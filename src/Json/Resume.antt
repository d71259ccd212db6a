-- ===== src/Json/Resume.antt =====
-- `Clean._execute`: what is sent for a start or a resume.
use client_py.Prelude.{◌≡◌, refl, ap, sym, ◌∙◌, inl, inr, Bool-cases, some}
use client_py.Models.{State, CleanAction, start, pause, resume, stop, state_eq, state_eq_sound}
use client_py.Events.{state}
use client_py.Events.Class.{EventClass}
use client_py.EventBus.State.{EventBus, get_last_event}
use client_py.Json.CleanCommands.{CleanCommand, adapt, prepare, args}

adapt-resume : (s : State) (a : CleanAction) → adapt a s ≡ resume → s ≡ State.paused
unfolding adapt
adapt-resume s start h = elim (Bool-cases (state_eq s State.paused)) [
  | inl e ↦ state_eq_sound s State.paused e
  | inr e ↦ cc (rw e at h)
]
adapt-resume s resume h = elim (Bool-cases (state_eq s State.paused)) [
  | inl e ↦ state_eq_sound s State.paused e
  | inr e ↦ cc (rw e at h)
]
adapt-resume s pause h = cc
adapt-resume s stop h = cc

adapt-adapt : (s : State) (a : CleanAction) → adapt (adapt a s) s ≡ adapt a s
unfolding adapt
adapt-adapt s start = elim (Bool-cases (state_eq s State.paused)) [
  | inl e ↦ rw (e, adapt, e)
  | inr e ↦ rw (e, adapt, e)
]
adapt-adapt s resume = elim (Bool-cases (state_eq s State.paused)) [
  | inl e ↦ rw (e, adapt, e)
  | inr e ↦ rw (e, adapt, e)
]
adapt-adapt s pause = refl
adapt-adapt s stop = refl

prepare_lem :
    (b : EventBus) (c : CleanCommand) (s : State)
    → get_last_event EventClass.state b ≡ some (state s)
    → prepare b c ≡ record c { act = adapt c.act s }
unfolding prepare
prepare_lem b c s h = rw (h, prepare)

-- While the state of the robot is known, a clean command is sent as a resume only to a robot that
-- is paused, whatever was asked for.
pub resume_only_paused :
    (b : EventBus) (c : CleanCommand) (s : State)
    → get_last_event EventClass.state b ≡ some (state s)
    → (prepare b c).act ≡ resume
    → s ≡ State.paused
resume_only_paused b c s h sent =
    adapt-resume s c.act (ap (λ k. k.act) (sym (prepare_lem b c s h)) ∙ sent)

-- Executing a clean command again in the same state of the robot sends the same arguments.
pub prepare-prepare :
    (b : EventBus) (c : CleanCommand) (s : State)
    → get_last_event EventClass.state b ≡ some (state s)
    → args (prepare b (prepare b c)) ≡ args (prepare b c)
prepare-prepare b c s h =
    rw (
      prepare_lem b c s h,
      prepare_lem b (record c { act = adapt c.act s }) s h,
      adapt-adapt s c.act,
    )
