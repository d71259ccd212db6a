-- ===== src/Util/Sort.antt =====
-- `sorted(texts)`, by the numbers of the characters, and why it depends on the members only.
use Prim.Native.Nat.{Ordering}
use Prim.Native.String.{compare}
use Prim.Native.String.compare
use text.Mathlib.TextEquality.{eq_iff, path_by_compare, codes_equal}
use text.Mathlib.TextPositions.{compare_refl}
use client_py.Prelude.{
  String, Bool, true, false, ◌||◌, List, [], ◌∷◌, ◌≡◌, refl, sym, ap, ◌∙◌, ◌⊎◌, inl, inr, All,
  str_eq, Bool-cases, subst, arith, if◌then◌else◌,
}

abbrev pub leb_text : String → String → Bool
leb_text s t = elim (compare s t) [ Ordering.gt ↦ false | _ ↦ true ]

unfoldable pub insert_text : String → List String → List String
insert_text s [] = s ∷ []
insert_text s (t ∷ texts) =
    let rest = insert_text s texts in if leb_text s t then s ∷ t ∷ texts else t ∷ rest

unfoldable pub sorted : List String → List String
sorted [] = []
sorted (s ∷ texts) = insert_text s (sorted texts)

abbrev pub mem : String → List String → Bool
mem s [] = false
mem s (t ∷ texts) = str_eq s t || mem s texts

-- No text twice.
abbrev pub IsDistinct : List String → Type 0
IsDistinct [] = Unit
IsDistinct (s ∷ texts) = (mem s texts ≡ false) × IsDistinct texts

abbrev Precedes : String → String → Type 0
Precedes s t = compare s t ≡ Ordering.lt

abbrev IsAscending : List String → Type 0
IsAscending [] = Unit
IsAscending (s ∷ texts) = All (Precedes s) texts × IsAscending texts

Precedes-trans : (s t u : String) → Precedes s t → Precedes t u → Precedes s u
Precedes-trans String.[] String.[] u h k = ground (arith, compare.nil-nil)
Precedes-trans String.[] (String.◌∷◌ d t) String.[] h k = ground (arith, compare.cons-nil d t)
Precedes-trans String.[] (String.◌∷◌ d t) (String.◌∷◌ e u) h k = compare.nil-cons e u
Precedes-trans (String.◌∷◌ c s) String.[] u h k = ground (arith, compare.cons-nil c s)
Precedes-trans (String.◌∷◌ c s) (String.◌∷◌ d t) String.[] h k =
    ground (arith, compare.cons-nil d t)
Precedes-trans (String.◌∷◌ c s) (String.◌∷◌ d t) (String.◌∷◌ e u) h k = ground (
  arith,
  compare.cons-cons c d s t,
  compare.cons-cons d e t u,
  compare.cons-cons c e s u,
  Precedes-trans s t u,
  codes_equal c d,
  codes_equal d e,
)

Precedes-of_gt : (s t : String) → compare s t ≡ Ordering.gt → Precedes t s
Precedes-of_gt String.[] String.[] h = ground (arith, compare.nil-nil)
Precedes-of_gt String.[] (String.◌∷◌ d t) h = ground (arith, compare.nil-cons d t)
Precedes-of_gt (String.◌∷◌ c s) String.[] h = compare.nil-cons c s
Precedes-of_gt (String.◌∷◌ c s) (String.◌∷◌ d t) h =
    ground (arith, compare.cons-cons c d s t, compare.cons-cons d c t s, Precedes-of_gt s t)

Precedes-irrefl : (s : String) → Precedes s s → true ≡ false
Precedes-irrefl s h = ground (arith, compare_refl s)

Order-cases : (s t : String) → Precedes s t ⊎ ((s ≡ t) ⊎ Precedes t s)
Order-cases s t =
    elim (compare s t) as (λ o. compare s t ≡ o → Precedes s t ⊎ ((s ≡ t) ⊎ Precedes t s)) [
      | Ordering.lt ↦ λ e. inl e
      | Ordering.eq ↦ λ e. inr (inl (path_by_compare s t e))
      | Ordering.gt ↦ λ e. inr (inr (Precedes-of_gt s t e))
    ]
      refl

All-mem :
    (P : String → Type 0) (s : String) (texts : List String)
    → All P texts
    → mem s texts ≡ true
    → P s
All-mem P s [] ps m = ground arith
All-mem P s (t ∷ texts) (p, ps) m = elim (Bool-cases (str_eq s t)) [
  | inl e ↦ subst P (sym ((eq_iff s t).0 e)) p
  | inr e ↦ All-mem P s texts ps (rw (e) at m)
]

All-Precedes :
    (s t : String) (texts : List String)
    → Precedes s t
    → All (Precedes t) texts
    → All (Precedes s) texts
All-Precedes s t [] h ps = tt
All-Precedes s t (u ∷ texts) h (p, ps) = (Precedes-trans s t u h p, All-Precedes s t texts h ps)

-- The first of an ascending list is not in its rest.
first_absent : (s : String) (texts : List String) → All (Precedes s) texts → mem s texts ≡ false
first_absent s texts ps = elim (Bool-cases (mem s texts)) [
  | inl e ↦ ground (arith, Precedes-irrefl s (All-mem (Precedes s) s texts ps e))
  | inr e ↦ e
]

mem-insert_text :
    (s t : String) (texts : List String) → mem s (insert_text t texts) ≡ (str_eq s t || mem s texts)
unfolding insert_text
mem-insert_text s t [] = refl
mem-insert_text s t (u ∷ texts) = ground (arith, mem-insert_text s t texts)

pub mem-sorted : (s : String) (texts : List String) → mem s (sorted texts) ≡ mem s texts
unfolding sorted
mem-sorted s [] = refl
mem-sorted s (t ∷ texts) = ground (arith, mem-insert_text s t (sorted texts), mem-sorted s texts)

All-insert_text :
    (P : String → Type 0) (s : String) (texts : List String)
    → P s
    → All P texts
    → All P (insert_text s texts)
unfolding insert_text
All-insert_text P s [] p ps = (p, tt)
All-insert_text P s (t ∷ texts) p (q, qs) =
    elim (leb_text s t) as (λ b. All P (if b then s ∷ t ∷ texts else t ∷ insert_text s texts)) [
      | true ↦ (p, (q, qs))
      | false ↦ (q, All-insert_text P s texts p qs)
    ]

insert_text-IsAscending :
    (s : String) (texts : List String)
    → IsAscending texts
    → mem s texts ≡ false
    → IsAscending (insert_text s texts)
unfolding insert_text
insert_text-IsAscending s [] asc m = (tt, tt)
insert_text-IsAscending s (t ∷ texts) (ps, asc) m =
    elim (compare s t)
        as (λ o.
          compare s t ≡ o
          → IsAscending (
              if (elim o [ Ordering.gt ↦ false | _ ↦ true ])
              then s ∷ t ∷ texts
              else t ∷ insert_text s texts)) [
                | Ordering.lt ↦ λ e. ((e, All-Precedes s t texts e ps), (ps, asc))
                | Ordering.eq ↦
                    λ e. absurd (ground (arith, (eq_iff s t).1 (path_by_compare s t e), m))
                | Ordering.gt ↦ λ e. (
                  All-insert_text (Precedes t) s texts (Precedes-of_gt s t e) ps,
                  insert_text-IsAscending s texts asc (ground (arith, m)),
                )
              ]
      refl

sorted-IsAscending : (texts : List String) → IsDistinct texts → IsAscending (sorted texts)
unfolding sorted
sorted-IsAscending [] d = tt
sorted-IsAscending (s ∷ texts) (m, d) =
    insert_text-IsAscending s (sorted texts) (sorted-IsAscending texts d) (mem-sorted s texts ∙ m)

-- The heads of two ascending lists with the same members are equal.
heads_eq :
    (s t : String) (xs ys : List String)
    → IsAscending (s ∷ xs)
    → IsAscending (t ∷ ys)
    → ((u : String) → mem u (s ∷ xs) ≡ mem u (t ∷ ys))
    → s ≡ t
heads_eq s t xs ys (ps, _) (qs, _) same = elim (Order-cases s t) [
  | inl h ↦ absurd (
      ground (
        arith,
        Precedes-irrefl s,
        first_absent s (t ∷ ys) (h, All-Precedes s t ys h qs),
        same s,
        (eq_iff s s).1 refl,
      ))
  | inr (inl e) ↦ e
  | inr (inr h) ↦ absurd (
      ground
        (arith, first_absent t (s ∷ xs) (h, All-Precedes t s xs h ps), same t, (eq_iff t t).1 refl))
]

-- Ascending lists with the same members are equal.
IsAscending-eq :
    (xs ys : List String)
    → IsAscending xs
    → IsAscending ys
    → ((s : String) → mem s xs ≡ mem s ys)
    → xs ≡ ys
IsAscending-eq [] [] p q same = refl
IsAscending-eq [] (t ∷ ys) p q same = absurd (ground (arith, same t, (eq_iff t t).1 refl))
IsAscending-eq (s ∷ xs) [] p q same = absurd (ground (arith, same s, (eq_iff s s).1 refl))
IsAscending-eq (s ∷ xs) (t ∷ ys) (ps, p) (qs, q) same =
    let e = heads_eq s t xs ys (ps, p) (qs, q) same in
    let tails = IsAscending-eq xs ys p q λ u.
      ground
        (arith, same u, eq_iff u s, eq_iff u t, e, first_absent s xs ps, first_absent t ys qs) in
    ap (λ x. x ∷ xs) e ∙ ap (λ zs. t ∷ zs) tails

-- `sorted` of distinct texts depends on their members only.
pub sorted-eq :
    (xs ys : List String)
    → IsDistinct xs
    → IsDistinct ys
    → ((s : String) → mem s xs ≡ mem s ys)
    → sorted xs ≡ sorted ys
sorted-eq xs ys d e same =
    IsAscending-eq (sorted xs) (sorted ys) (sorted-IsAscending xs d) (sorted-IsAscending ys e)
      λ s. mem-sorted s xs ∙ same s ∙ sym (mem-sorted s ys)
