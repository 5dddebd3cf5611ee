-- ===== src/Message/Saved.antt =====
-- The members of a message of src/network/message.hpp in a row, as an archive saves them, and the
-- message that is loaded from them again.
use thkvs.Base.{ℕ, ◌≡◌, refl, List, [], ◌∷◌, ◌++◌, map, Bool, Option, none, some, Text}
use thkvs.Base.Int.{ℤ}
use thkvs.Message.{
  MType, MOpType, m_text, m_op, m_opret, m_setflag, m_move, m_datamove, m_addserver, m_removeserver,
  Message,
}
use thkvs.Message.Fields.{Ar, serialize}

pub data Field : Type 0 where
  mtype : MType → Field
  optype : MOpType → Field
  int : ℕ → Field
  long_long : ℤ → Field
  bool : Bool → Field
  string : Text → Field
  list : List Text → Field

-- The type of a member, which the archive that loads it knows.
pub data FieldType : Type 0 where
  mtypes optypes ints long_longs bools strings lists : FieldType

abbrev pub type_of : Field → FieldType
type_of (Field.mtype x) = mtypes
type_of (Field.optype x) = optypes
type_of (Field.int x) = ints
type_of (Field.long_long x) = long_longs
type_of (Field.bool x) = bools
type_of (Field.string x) = strings
type_of (Field.list x) = lists

-- An archive that saves leaves the object as it is.
abbrev saving {ℓ} : {A : Type ℓ} → (A → Field) → A → List Field → Option (A × List Field)
saving field x saved = some (x, saved ++ field x ∷ [])

abbrev pub saver : Ar (List Field)
saver = record {
  mtype = saving Field.mtype;
  optype = saving Field.optype;
  int = saving Field.int;
  long_long = saving Field.long_long;
  bool = saving Field.bool;
  string = saving Field.string;
  list = saving Field.list;
}

-- An archive that loads: the old value is lost, and the next member must be of the type.
abbrev loading {ℓ} : {A : Type ℓ} → (Field → Option A) → A → List Field → Option (A × List Field)
loading value old [] = none
loading value old (field ∷ left) = elim (value field) [ none ↦ none | some x ↦ some (x, left) ]

abbrev pub loader : Ar (List Field)
loader = record {
  mtype = loading (λ field. elim field [ Field.mtype x ↦ some x | _ ↦ none ]);
  optype = loading (λ field. elim field [ Field.optype x ↦ some x | _ ↦ none ]);
  int = loading (λ field. elim field [ Field.int x ↦ some x | _ ↦ none ]);
  long_long = loading (λ field. elim field [ Field.long_long x ↦ some x | _ ↦ none ]);
  bool = loading (λ field. elim field [ Field.bool x ↦ some x | _ ↦ none ]);
  string = loading (λ field. elim field [ Field.string x ↦ some x | _ ↦ none ]);
  list = loading (λ field. elim field [ Field.list x ↦ some x | _ ↦ none ]);
}

unfoldable pub save_fields : Message → List Field
unfolding serialize
save_fields m = elim (serialize saver m []) [ none ↦ [] | some (m', saved) ↦ saved ]

-- The object that is loaded into; what it holds is not read.
unfoldable pub load_fields : Message → List Field → Option Message
unfolding serialize
load_fields old fields = elim (serialize loader old fields) [
  | none ↦ none
  | some (m, left) ↦ some m
]

-- The class that the switches of `write_message` and `handle_body` take for a type.
abbrev pub type_of_class : Message → MType
type_of_class (Message.text m) = m_text
type_of_class (Message.operation m) = m_op
type_of_class (Message.reply m) = m_opret
type_of_class (Message.enable_flag m) = m_setflag
type_of_class (Message.add_server m) = m_addserver
type_of_class (Message.remove_server m) = m_removeserver
type_of_class (Message.move m) = m_move
type_of_class (Message.data_move m) = m_datamove

-- The members of a message have the types of any message of its class, and loading them into any
-- object of the class makes it the message.
pub load_fields-save_fields :
    (m old : Message)
    → type_of_class m ≡ type_of_class old
    → (map type_of (save_fields m) ≡ map type_of (save_fields old))
      × (load_fields old (save_fields m) ≡ some m)
unfolding save_fields load_fields
load_fields-save_fields (Message.text m) (Message.text old) e = (refl, refl)
load_fields-save_fields (Message.data_move m) (Message.data_move old) e = (refl, refl)
load_fields-save_fields (Message.move m) (Message.move old) e = (refl, refl)
load_fields-save_fields (Message.remove_server m) (Message.remove_server old) e = (refl, refl)
load_fields-save_fields (Message.add_server m) (Message.add_server old) e = (refl, refl)
load_fields-save_fields (Message.enable_flag m) (Message.enable_flag old) e = (refl, refl)
load_fields-save_fields (Message.operation m) (Message.operation old) e = (refl, refl)
load_fields-save_fields (Message.reply m) (Message.reply old) e = (refl, refl)
load_fields-save_fields _ _ e = cc
