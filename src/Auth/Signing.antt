-- ===== src/Auth/Signing.antt =====
-- Why the signature of a request does not depend on the order of its parameters.
use client_py.Prelude.{
  String, Bool, true, false, ◌||◌, Option, none, some, List, [], ◌∷◌, ◌++◌, map, ◌≡◌, refl, sym, ap,
  ◌∙◌, arith, str_eq, eq_iff, text_keys, Bool-cases, inl, inr,
}
use client_py.Dict.{Dict, keys, merge, contains, get-set, get-set_self, get-set_ne}
use client_py.Dict
use client_py.Util.Text.{join}
use client_py.Util.Sort.{mem, IsDistinct, sorted, sorted-eq}
use client_py.Auth.Network.{Param, str, Params, Libraries}
use client_py.Auth.Api.{text_at, param_text, sign, sign_on_text}

mem-keys : (k : String) (d : Params) → mem k (keys d) ≡ contains k d
unfolding keys Dict.get
mem-keys k [] = refl
mem-keys k ((j, v) ∷ d) = ground (arith, mem-keys k d, eq_iff k j, eq_iff j k)

mem-set :
    (k j : String) (v : Param) (d : Params)
    → mem j (keys (Dict.set k v d)) ≡ (str_eq j k || mem j (keys d))
unfolding keys Dict.set
mem-set k j v [] = refl
mem-set k j v ((i, w) ∷ d) = ground (arith, mem-set k j v d, eq_iff i k, eq_iff j i, eq_iff j k)

set-IsDistinct :
    (k : String) (v : Param) (d : Params) → IsDistinct (keys d) → IsDistinct (keys (Dict.set k v d))
unfolding keys Dict.set
set-IsDistinct k v [] h = (refl, tt)
set-IsDistinct k v ((i, w) ∷ d) (m, h) = elim (Bool-cases (str_eq i k)) [
  | inl e ↦ rw (e) (m, h)
  | inr e ↦ rw (e) (ground (arith, mem-set k i v d, e, m), set-IsDistinct k v d h)
]

merge-IsDistinct : (d e : Params) → IsDistinct (keys d) → IsDistinct (keys (merge d e))
unfolding merge
merge-IsDistinct d [] h = h
merge-IsDistinct d ((k, v) ∷ e) h = merge-IsDistinct (Dict.set k v d) e (set-IsDistinct k v d h)

abbrev or_else : Option Param → Option Param → Option Param
or_else (some v) o = some v
or_else none o = o

get-merge :
    (k : String) (d e : Params)
    → IsDistinct (keys e)
    → Dict.get k (merge d e) ≡ or_else (Dict.get k e) (Dict.get k d)
unfolding merge keys Dict.get
get-merge k d [] h = refl
get-merge k d ((j, v) ∷ e) (m, h) =
    ground (arith, get-merge k (Dict.set j v d) e h, get-set j k v d, mem-keys j e, eq_iff j k)

-- Python's `==` of two dicts, which forgets the order.
abbrev pub SameDict : Params → Params → Type 0
SameDict p q = (k : String) → Dict.get k p ≡ Dict.get k q

set-SameDict :
    (j : String) (v : Param) (p q : Params)
    → SameDict p q
    → SameDict (Dict.set j v p) (Dict.set j v q)
set-SameDict j v p q same k = ground (arith, get-set j k v p, get-set j k v q, same k)

module _ (p q extra : Params) (distinct_p : IsDistinct (keys p)) (distinct_q : IsDistinct (keys q))
    (distinct_extra : IsDistinct (keys extra)) (same : SameDict p q) where
  merge-SameDict : SameDict (merge extra p) (merge extra q)
  merge-SameDict k =
      get-merge k extra p distinct_p
      ∙ ap (λ o. or_else o (Dict.get k extra)) (same k)
      ∙ sym (get-merge k extra q distinct_q)

  sorted-keys : sorted (keys (merge extra p)) ≡ sorted (keys (merge extra q))
  sorted-keys =
      sorted-eq (keys (merge extra p)) (keys (merge extra q))
        (merge-IsDistinct extra p distinct_extra) (merge-IsDistinct extra q distinct_extra)
        λ k.
          mem-keys k (merge extra p)
          ∙ ap (λ o. elim o as (λ _. Bool) [ none ↦ false | some _ ↦ true ]) (merge-SameDict k)
          ∙ sym (mem-keys k (merge extra q))

  text_at_eq : (k : String) → text_at (merge extra p) k ≡ text_at (merge extra q) k
  unfolding text_at
  text_at_eq k =
      ap (λ o. elim o as (λ _. String) [ none ↦ "" | some v ↦ param_text v ]) (merge-SameDict k)

  parts_eq :
      (texts : List String)
      → map (λ k. join (k ∷ "=" ∷ text_at (merge extra p) k ∷ [])) texts
        ≡ map (λ k. join (k ∷ "=" ∷ text_at (merge extra q) k ∷ [])) texts
  parts_eq [] = refl
  parts_eq (k ∷ texts) =
      let parts = map (λ j. join (j ∷ "=" ∷ text_at (merge extra p) j ∷ [])) texts in
      ap (λ t. join (k ∷ "=" ∷ t ∷ []) ∷ parts) (text_at_eq k)
      ∙ ap (λ l. join (k ∷ "=" ∷ text_at (merge extra q) k ∷ []) ∷ l) (parts_eq texts)

  sign_on_text-same :
      (key secret : String) → sign_on_text p extra key secret ≡ sign_on_text q extra key secret
  unfolding sign_on_text
  sign_on_text-same key secret =
      rw (sorted-keys)
        (ap (λ l. join (key ∷ l ++ secret ∷ [])) (parts_eq (sorted (keys (merge extra q)))))

-- Two dicts of parameters that are equal in Python are equal once they are signed, whatever the
-- order in which they were filled: the signature is the same. As in every dict, no key is there twice.
pub sign-SameDict :
    {K : Type 0} (lib : Libraries K) (p q extra : Params) (key secret : String)
    → IsDistinct (keys p)
    → IsDistinct (keys q)
    → IsDistinct (keys extra)
    → SameDict p q
    → SameDict (sign lib p extra key secret) (sign lib q extra key secret)
unfolding sign
sign-SameDict lib p q extra key secret dp dq de same k =
    let text = ap lib.md5 (sign_on_text-same p q extra dp dq de same key secret) in
    let signature = str (lib.md5 (sign_on_text q extra key secret)) in
    rw (text) (
      set-SameDict "authAppkey" (str key) (Dict.set "authSign" signature p)
        (Dict.set "authSign" signature q) (set-SameDict "authSign" signature p q same) k)
