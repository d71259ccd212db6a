-- ===== src/Mqtt/Topics.antt =====
-- Topics from their parts, and what `split` makes of them.
use Prim.Native.Char.{Char, code}
use Prim.Native.String.append
use Prim.Native.String.{◌++◌ as glue}
use client_py.Prelude.{
  ◌≡◌, refl, ap, ◌∙◌, String, Bool, false, ◌||◌, List, [], ◌∷◌, All, nat_eq, arith, if◌then◌else◌,
}
use client_py.Util.Text.{split, add_to_first}

unfoldable pub has_slash : String → Bool
has_slash String.[] = false
has_slash (String.◌∷◌ c s) = nat_eq (code c) (code "/") || has_slash s

-- The topic with the parts, at least one, as a publisher writes it.
unfoldable pub topic_of : String → List String → String
topic_of s [] = s
topic_of s (t ∷ parts) = glue s (String.◌∷◌ "/" (topic_of t parts))

abbrev pub NoSlash : String → Type 0
NoSlash s = has_slash s ≡ false

slash_cases :
    (c : Char) (s : String)
    → NoSlash (String.◌∷◌ c s)
    → (nat_eq (code c) (code "/") ≡ false) × NoSlash s
unfolding has_slash
slash_cases c s h = ground (arith, h)

split_cons :
    (c : Char) (s : String)
    → nat_eq (code c) (code "/") ≡ false
    → split "/" (String.◌∷◌ c s) ≡ add_to_first c (split "/" s)
unfolding split
split_cons c s h = ap (λ b. if b then "" ∷ split "/" s else add_to_first c (split "/" s)) h

split_last : (s : String) → NoSlash s → split "/" s ≡ s ∷ []
unfolding split has_slash
split_last String.[] h = refl
split_last (String.◌∷◌ c s) h =
    let (other, rest) = slash_cases c s h in
    split_cons c s other ∙ ap (add_to_first c) (split_last s rest)

split_first :
    (s rest : String) → NoSlash s → split "/" (glue s (String.◌∷◌ "/" rest)) ≡ s ∷ split "/" rest
unfolding split has_slash
split_first String.[] rest h = ap (λ t. split "/" t) (append.nil (String.◌∷◌ "/" rest))
split_first (String.◌∷◌ c s) rest h =
    let (other, clear) = slash_cases c s h in
    ap (λ t. split "/" t) (append.cons c s (String.◌∷◌ "/" rest))
    ∙ split_cons c (glue s (String.◌∷◌ "/" rest)) other
    ∙ ap (add_to_first c) (split_first s rest clear)

pub split-topic_of :
    (s : String) (parts : List String)
    → NoSlash s
    → All NoSlash parts
    → split "/" (topic_of s parts) ≡ s ∷ parts
unfolding topic_of
split-topic_of s [] h hs = split_last s h
split-topic_of s (t ∷ parts) h (k, hs) =
    split_first s (topic_of t parts) h ∙ ap (λ l. s ∷ l) (split-topic_of t parts k hs)
