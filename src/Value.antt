-- ===== src/Value.antt =====
-- The values that `orjson.loads` returns, and what Python's operators do with them.
-- A JSON number with a fraction or an exponent, which Python reads as a float, is kept as the
-- decimal `m / 10 ^ e`. The keys of an object are distinct, in the order of the text.
pub mod Text
use client_py.Prelude.{
  ℕ, suc, ◌*◌, ◌/◌, ◌^◌, String, Bool, true, false, ◌&&◌, not, Option, none, some, ℤ, pos, negsuc,
  int_eq, str_eq, nat_eq, ◌+◌, ◌-◌, if◌then◌else◌, Error, key_error, value_error, type_error,
  attribute_error, Result, ok, err,
}
use Text.{parse_int, find_text}

mutual
  pub data Value : Type 0 where
    null : Value
    boolean : Bool → Value
    int : ℤ → Value
    float : ℤ → ℕ → Value
    text : String → Value
    list : Items → Value
    dict : Fields → Value

  pub data Fields : Type 0 where
    end : Fields
    field : String → Value → Fields → Fields

  pub data Items : Type 0 where
    nil : Items
    cons : Value → Items → Items

-- `bool(v)`
unfoldable pub truthy : Value → Bool
truthy null = false
truthy (boolean b) = b
truthy (int n) = not (int_eq n (pos 0))
truthy (float m e) = not (int_eq m (pos 0))
truthy (text s) = not (str_eq s "")
truthy (list nil) = false
truthy (list (cons v vs)) = true
truthy (dict end) = false
truthy (dict (field k v fs)) = true

abbrev pub is_dict : Value → Bool
is_dict (dict fs) = true
is_dict _ = false

abbrev pub is_list : Value → Bool
is_list (list vs) = true
is_list _ = false

abbrev pub is_none : Value → Bool
is_none null = true
is_none _ = false

unfoldable pub find : String → Fields → Option Value
find k end = none
find k (field j v fs) = if str_eq j k then some v else find k fs

-- `v.get(k, default)`; only a dict has the method.
unfoldable pub get_or : Value → String → Value → Result Value
get_or (dict fs) k default = elim (find k fs) [ none ↦ ok default | some w ↦ ok w ]
get_or _ k default = err attribute_error

-- `v.get(k)`
abbrev pub get : Value → String → Result Value
get v k = get_or v k null

-- `v[k]` at a text `k`
unfoldable pub item : Value → String → Result Value
item (dict fs) k = elim (find k fs) [ none ↦ err key_error | some w ↦ ok w ]
item _ k = err type_error

unfoldable pub mem_text : String → Items → Bool
mem_text k nil = false
mem_text k (cons (text s) vs) = if str_eq s k then true else mem_text k vs
mem_text k (cons v vs) = mem_text k vs

-- `k in v` at a text `k`: a key, a member or a part of a text
unfoldable pub has : Value → String → Result Bool
has (dict fs) k = elim (find k fs) [ none ↦ ok false | some w ↦ ok true ]
has (list vs) k = ok (mem_text k vs)
has (text s) k = ok (find_text k s)
has _ k = err type_error

-- The number that a value stands for, `m / 10 ^ e`: in Python `True == 1` and `1 == 1.0`.
abbrev pub number : Value → Option (ℤ × ℕ)
number (boolean true) = some (pos 1, 0)
number (boolean false) = some (pos 0, 0)
number (int n) = some (n, 0)
number (float m e) = some (m, e)
number _ = none

abbrev pub scale : ℤ → ℕ → ℤ
scale (pos n) k = pos (n * k)
scale (negsuc n) k = negsuc ((n + 1) * k - 1)

abbrev number_eq : ℤ × ℕ → ℤ × ℕ → Bool
number_eq (m, e) (n, f) = int_eq (scale m (10 ^ f)) (scale n (10 ^ e))

-- `v == n` at an integer `n`
unfoldable pub is_int : Value → ℤ → Bool
is_int v n = elim (number v) [ none ↦ false | some x ↦ number_eq x (n, 0) ]

-- `v == s` at a text `s`
unfoldable pub is_text : Value → String → Bool
is_text (text t) s = str_eq t s
is_text _ s = false

number_or : Option (ℤ × ℕ) → Option (ℤ × ℕ) → Bool
number_or (some x) (some y) = number_eq x y
number_or _ _ = false

abbrev pub field_count : Fields → ℕ
field_count end = 0
field_count (field k v fs) = suc (field_count fs)

-- `v == w`; two dicts are equal if they have as many keys, and equal values under each.
unfoldable mutual
  unfolding number_or

  pub value_eq : Value → Value → Bool
  value_eq null w = is_none w
  value_eq (boolean b) w = number_or (number (boolean b)) (number w)
  value_eq (int n) w = number_or (some (n, 0)) (number w)
  value_eq (float m e) w = number_or (some (m, e)) (number w)
  value_eq (text s) w = elim w [ text t ↦ str_eq s t | _ ↦ false ]
  value_eq (list vs) w = elim w [ list ws ↦ items_eq vs ws | _ ↦ false ]
  value_eq (dict fs) w = elim w [
    | dict gs ↦ nat_eq (field_count fs) (field_count gs) && fields_in fs gs
    | _ ↦ false
  ]

  pub items_eq : Items → Items → Bool
  items_eq nil ws = elim ws [ nil ↦ true | _ ↦ false ]
  items_eq (cons v vs) ws = elim ws [ nil ↦ false | cons w ws' ↦ value_eq v w && items_eq vs ws' ]

  pub fields_in : Fields → Fields → Bool
  fields_in end gs = true
  fields_in (field k v fs) gs = elim (find k gs) [
    | none ↦ false
    | some w ↦ value_eq v w && fields_in fs gs
  ]

-- `int(m / 10 ^ e)`, towards 0
unfoldable pub truncate : ℤ → ℕ → ℤ
truncate (pos n) e = pos (n / 10 ^ e)
truncate (negsuc n) e = let q = (n + 1) / 10 ^ e in if nat_eq q 0 then pos 0 else negsuc (q - 1)

or_value_error : Option ℤ → Result ℤ
or_value_error none = err value_error
or_value_error (some n) = ok n

-- `int(v)`
unfoldable pub to_int : Value → Result ℤ
unfolding truncate or_value_error
to_int (boolean b) = ok (pos (if b then 1 else 0))
to_int (int n) = ok n
to_int (float m e) = ok (truncate m e)
to_int (text s) = or_value_error (parse_int s)
to_int _ = err type_error
