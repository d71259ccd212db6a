-- ===== src/Message/Throttle.antt =====
-- `_log_parse_failure`: the threshold on the warnings about one name.
use client_py.Prelude.{
  ℕ, zero, suc, ◌+◌, ◌≡◌, refl, ap, String, Bool, true, false, ◌&&◌, List, [], ◌∷◌, ◌++◌, length,
  length-append, keep, arith, leb, nat_eq, str_eq, text_keys, eq_self, if◌then◌else◌, inl, inr,
  Bool-cases,
}
use mathlib.Core.List.{append_assoc}
use client_py.Dict
use client_py.Dict.{get-set_self}
use client_py.Message.World.{
  World, Level, Line, Logged, debug, warning, further_entries, could_not_parse, failures,
  log_parse_failure, parse_failure_threshold,
}
use client_py.Message.Routing.{times}

-- Whether a line is a warning that a message of this name could not be parsed.
abbrev pub is_parse_warning : String → Logged → Bool
is_parse_warning name l =
    elim l.level [ Level.warning ↦ true | _ ↦ false ]
    && elim l.line [ Line.could_not_parse ↦ true | _ ↦ false ]
    && str_eq l.name name

unfoldable pub warnings : String → World → ℕ
warnings name w = length (keep (is_parse_warning name) w.log)

abbrev pub below_threshold : ℕ → ℕ
below_threshold n = if leb n parse_failure_threshold then n else parse_failure_threshold

keep-append :
    {A : Type 0} → (p : A → Bool) (xs ys : List A) → keep p (xs ++ ys) ≡ keep p xs ++ keep p ys
keep-append p [] ys = refl
keep-append p (x ∷ xs) ys = elim (Bool-cases (p x)) [
  | inl h ↦ rw (h, keep-append p xs ys)
  | inr h ↦ rw (h, keep-append p xs ys)
]

abbrev line : Level → Line → String → Logged
line l about name = record { level = l; line = about; name = name }

-- What one failure logs, from the count that it reaches.
abbrev lines : String → ℕ → List Logged
lines name n =
    if leb n parse_failure_threshold
    then line warning could_not_parse name
      ∷ (if nat_eq n parse_failure_threshold then line warning further_entries name ∷ [] else [])
    else line debug could_not_parse name ∷ []

log_parse_failure_lem :
    (name : String) (w : World)
    → ((log_parse_failure name w).log ≡ w.log ++ lines name (suc (failures name w)))
      × ((log_parse_failure name w).parse_failure_counts
          ≡ Dict.set name (suc (failures name w)) w.parse_failure_counts)
unfolding log_parse_failure
log_parse_failure_lem name w =
    let n = suc (failures name w) in
    elim (Bool-cases (leb n parse_failure_threshold)) [
      | inr h ↦ (rw (h, log_parse_failure), rw (h, log_parse_failure))
      | inl h ↦ elim (Bool-cases (nat_eq n parse_failure_threshold)) [
        | inl i ↦ (rw (h, i, log_parse_failure, append_assoc), rw (h, i, log_parse_failure))
        | inr i ↦ (rw (h, i, log_parse_failure), rw (h, i, log_parse_failure))
      ]
    ]

failures-log :
    (name : String) (w : World) → failures name (log_parse_failure name w) ≡ suc (failures name w)
unfolding failures
failures-log name w = rw (
  (log_parse_failure_lem name w).1,
  get-set_self name (suc (failures name w)) w.parse_failure_counts,
  failures,
)

warned :
    (name : String) (n : ℕ)
    → length (keep (is_parse_warning name) (lines name (suc n))) + below_threshold n
      ≡ below_threshold (suc n)
warned name n = ground (arith, eq_self name)

warnings-log :
    (name : String) (w : World)
    → warnings name (log_parse_failure name w) + below_threshold (failures name w)
      ≡ warnings name w + below_threshold (suc (failures name w))
unfolding warnings
warnings-log name w =
    let p = is_parse_warning name in
    let n = failures name w in
    rw ((log_parse_failure_lem name w).0, warnings, keep-append, length-append)
      (omega (arith, warned name n))

-- Of any number of parse failures under one name, those are warned of that bring its count to at
-- most three; the count goes on.
pub warnings-times :
    (n : ℕ) (name : String) (w : World)
    → (failures name (times n name w) ≡ n + failures name w)
      × (warnings name (times n name w) + below_threshold (failures name w)
          ≡ warnings name w + below_threshold (n + failures name w))
unfolding times
warnings-times zero name w =
    let none_more : failures name w ≡ 0 + failures name w = omega arith in
    (none_more, ap (λ k. warnings name w + below_threshold k) none_more)
warnings-times (suc n) name w =
    let f = failures name w in
    let (count, told) = warnings-times n name (log_parse_failure name w) in
    let told' = rw (failures-log name w) at told in
    let one_more : n + suc f ≡ suc n + f = omega arith in
    let same = ap (λ k. below_threshold k) one_more in
    (omega (arith, count, failures-log name w), omega (arith, told', warnings-log name w, same))
