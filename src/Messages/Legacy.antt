-- ===== src/Messages/Legacy.antt =====
-- The lookup of a message: what a device without a map can find, and which names find the same class.
use client_py.Prelude.{
  ◌≡◌, refl, subst, ap, ◌∙◌, inl, inr, Bool-cases, String, Bool, true, false, ◌&&◌, Option, none,
  some, List, [], ◌∷◌, ◌++◌, any, all, str_eq, text_keys,
}
use client_py.Messages.Lookup.{
  DataType, json, xml, other, MessageClass, command, is_in, json_messages, xml_messages,
  map_legacy_commands, legacy_commands, commands, is_message, as_get, remove_suffix, legacy_command,
  get_legacy_message, get_converted, get_from, get_message,
}

-- What is found is no command of the map.
abbrev Mapless : Option MessageClass → Type 0
Mapless (some (command name)) = is_in name map_legacy_commands ≡ false
Mapless _ = Unit

legacy_command-Mapless : (name : String) → Mapless (legacy_command name false)
unfolding legacy_command
legacy_command-Mapless name =
    elim (Bool-cases (is_in name (map_legacy_commands ++ legacy_commands))) [
      | inr unknown ↦ rw (legacy_command, unknown) tt
      | inl known ↦ elim (Bool-cases (is_in name map_legacy_commands)) [
        | inl mapped ↦ rw (legacy_command, known, mapped) tt
        | inr plain ↦ elim (Bool-cases (is_in name commands && is_message name)) [
          | inl found ↦ rw (legacy_command, known, plain, found) plain
          | inr missing ↦ rw (legacy_command, known, plain, missing) tt
        ]
      ]
    ]

get_converted-Mapless :
    (type : DataType) (messages : List String) (name : String)
    → Mapless (get_converted type messages false name)
unfolding get_converted get_legacy_message
get_converted-Mapless type messages name = elim (Bool-cases (is_in name messages)) [
  | inl found ↦ rw (get_converted, found) tt
  | inr unknown ↦
      rw (get_converted, unknown)
        (elim type as (λ t. Mapless (elim t [ json ↦ get_legacy_message name false | _ ↦ none ])) [
          | json ↦ legacy_command-Mapless (as_get name)
          | xml ↦ tt
          | other ↦ tt
        ])
]

get_from-Mapless :
    (type : DataType) (messages : List String) (name : String)
    → Mapless (get_from type messages false name)
unfolding get_from
get_from-Mapless type messages name = elim (Bool-cases (is_in name messages)) [
  | inl found ↦ rw (get_from, found) tt
  | inr unknown ↦
      rw (get_from, unknown) (get_converted-Mapless type messages (remove_suffix "_V2" name))
]

get_message-Mapless : (type : DataType) (name : String) → Mapless (get_message type false name)
unfolding get_message
get_message-Mapless json name = get_from-Mapless json json_messages name
get_message-Mapless xml name = get_from-Mapless xml xml_messages name
get_message-Mapless other name = tt

-- A device without a map never hands a message to one of the commands of the map, under any name.
pub no_map_no_map_command :
    (type : DataType) (name found : String)
    → get_message type false name ≡ some (command found)
    → is_in found map_legacy_commands ≡ false
no_map_no_map_command type name found h = subst Mapless h (get_message-Mapless type name)

all-any :
    (p : String → Bool) (name : String) (xs : List String)
    → all p xs ≡ true
    → any (str_eq name) xs ≡ true
    → p name ≡ true
all-any p name [] ha hi = cc
all-any p name (x ∷ xs) ha hi = elim (Bool-cases (p x)) [
  | inr bad ↦ cc (rw bad at ha)
  | inl good ↦ elim (Bool-cases (str_eq name x)) [
    | inl same ↦ ap p ((text_keys.beq_iff name x).0 same) ∙ good
    | inr differ ↦ all-any p name xs (rw good at ha) (rw differ at hi)
  ]
]

abbrev served : String → Bool
served name = is_in name commands && is_message name

all-served : all served (map_legacy_commands ++ legacy_commands) ≡ true
unfolding map_legacy_commands legacy_commands commands is_message
all-served = refl

-- Every name in the tables of legacy commands finds its command, on a device with a map.
pub legacy_is_served :
    (name : String)
    → is_in name (map_legacy_commands ++ legacy_commands) ≡ true
    → legacy_command name true ≡ some (command name)
unfolding legacy_command
legacy_is_served name known = rw (
  legacy_command,
  known,
  all-any served name (map_legacy_commands ++ legacy_commands) all-served known,
)
