-- ===== src/ExtensionRun/Config.antt =====
-- extensionrun/config_schema.go and config_apply.go: the description of the fields of an extension, and the
-- configuration made of what a caller provides. The lists that are fetched and the formats of floats are
-- arguments; an error is named by what it is about. A map is the list of its entries, the first of a name counts.
pub mod Coerce
pub mod Build
pub mod Described
pub mod Applied
mod Tests
use nuzur_cli.Base.{
  suc, Bool, true, false, ◌||◌, List, [], ◌∷◌, Option, none, some, ◌⊎◌, inl, inr, if◌then◌else◌,
  is_nil, not, ◌++◌, map, ◌&&◌,
}
use nuzur_cli.Base.Int.{ℤ, pos, negsuc}
use nuzur_cli.Text.{Text, codes, equal, split_on, trim_space}
use nuzur_cli.Text.Decimal.{show}

-- The types of a field; `string_type` stands for the others too, which are described as strings.
pub data InputType : Type 0 where
  uuid_type integer_type float_type boolean_type string_type date_type datetime_type enum_type
        array_type :
      InputType

pub data EntityType : Type 0 where
  entity_invalid entity_standalone db_connection db_store local_agent local_agent_connection
        entity_other :
      EntityType

pub record ConfigOption : Type 0 where
  pub value : Text
  pub label : Text

-- An option of an enumeration: the identifier that a configuration holds, and what is shown for it.
pub record EnumOption : Type 0 where
  pub identifier : Text
  pub value : Text

pub record EnumConfig : Type 0 where
  pub options : List EnumOption
  pub allow_multiple : Bool

-- The part of a type's configuration for arrays, with the configurations of the elements.
pub record ArrayConfig : Type 0 where
  pub array_type : InputType
  pub uuid_entity : Option EntityType
  pub enum : Option EnumConfig

pub record InputField : Type 0 where
  pub identifier : Text
  pub display_name : Text
  pub description : Text
  pub type : InputType
  pub required : Bool
  pub uuid_entity : Option EntityType
  pub enum : Option EnumConfig
  pub array : Option ArrayConfig

-- The values of `interface{}` that a configuration holds. A list holds values that are no lists themselves, or others,
-- which no scalar is made of.
pub data Scalar (F : Type 0) : Type 0 where
  text : Text → Scalar F
  bool : Bool → Scalar F
  float : F → Scalar F
  integer : ℤ → Scalar F
  composite : Scalar F

pub data Raw (F : Type 0) : Type 0 where
  null : Raw F
  scalar : Scalar F → Raw F
  items : List (Scalar F) → Raw F
  texts : List Text → Raw F

-- What the final configuration holds.
pub data Value : Type 0 where
  one : Text → Value
  flag : Bool → Value
  many : List Text → Value

pub data Problem : Type 0 where
  unknown_field missing not_scalar not_array not_boolean : Problem
  not_number not_boolean_text : Text → Problem
  not_option : Text → Problem
  options_failed : Text → Problem

pub record LocalAgent : Type 0 where
  pub uuid : Text
  pub machine_name : Text
  -- The uuids and names of its connections.
  pub connections : List (Text × Text)

-- What the server gives: the uuids and identifiers of the entities, connections and stores, and the agents that are online,
-- each with an error instead; and the formats of floats.
pub record Sources (F : Type 0) : Type 0 where
  pub entities : Text ⊎ List (Text × Text)
  pub db_connections : Text ⊎ List (Text × Text)
  pub db_stores : Text ⊎ List (Text × Text)
  pub online_agents : Text ⊎ List LocalAgent
  pub format_float : F → Text
  pub is_float : Text → Bool

unfoldable pub type_name : InputType → Text
type_name uuid_type = codes "uuid"
type_name integer_type = codes "integer"
type_name float_type = codes "float"
type_name boolean_type = codes "boolean"
type_name string_type = codes "string"
type_name date_type = codes "date"
type_name datetime_type = codes "datetime"
type_name enum_type = codes "enum"
type_name array_type = codes "string"

abbrev pub uuid_field_entity_type : InputField → EntityType
uuid_field_entity_type f = elim f.uuid_entity [ none ↦ entity_invalid | some e ↦ e ]

-- By the name of the field, where no type is declared.
unfoldable pub effective_entity_type : EntityType → Text → EntityType
unfolding equal
effective_entity_type entity_invalid identifier =
    if equal identifier (codes "local_agent")
    then local_agent
    else if equal identifier (codes "local_agent_connection")
    then local_agent_connection
    else entity_invalid
effective_entity_type declared identifier = declared

abbrev pub enum_option : EnumOption → ConfigOption
enum_option o = record { value = o.identifier; label = o.value }

unfoldable pub enum_options : Option EnumConfig → List ConfigOption
enum_options none = []
enum_options (some cfg) = map enum_option cfg.options

-- `FormatInt`
unfoldable pub show_int : ℤ → Text
unfolding show
show_int (pos n) = show n
show_int (negsuc n) = b'-' ∷ show (suc n)

abbrev is_among : Text → List Text → Bool
is_among s [] = false
is_among s (t ∷ ts) = equal s t || is_among s ts

-- `strconv.ParseBool`
unfoldable pub parse_bool : Text → Option Bool
unfolding equal
parse_bool s =
    if is_among s
      (codes "1" ∷ codes "t" ∷ codes "T" ∷ codes "TRUE" ∷ codes "true" ∷ codes "True" ∷ [])
    then some true
    else if is_among s
        (codes "0" ∷ codes "f" ∷ codes "F" ∷ codes "FALSE" ∷ codes "false" ∷ codes "False" ∷ [])
    then some false
    else none

abbrev pub has_option : Text → List ConfigOption → Bool
has_option s [] = false
has_option s (o ∷ os) = equal o.value s || has_option s os

-- None where the value is accepted: it is an option, or there are none.
unfoldable pub validate_option : Text → List ConfigOption → Option Problem
unfolding equal
validate_option s opts = if is_nil opts || has_option s opts then none else some (not_option s)

unfoldable pub validate_all : List Text → List ConfigOption → Option Problem
unfolding validate_option
validate_all [] opts = none
validate_all (s ∷ ss) opts = elim (validate_option s opts) [
  | some p ↦ some p
  | none ↦ validate_all ss opts
]

abbrev pub checked : {A : Type 0} → A → Option Problem → Problem ⊎ A
checked a none = inr a
checked a (some p) = inl p

-- The next step of a chain that an error ends.
infixl 5 ◌>>=◌
abbrev pub ◌>>=◌ : {A B : Type 0} → Problem ⊎ A → (A → Problem ⊎ B) → Problem ⊎ B
inl p >>= f = inl p
inr a >>= f = f a

-- The elements of a text between commas that are not blank.
abbrev pub nonblank : List Text → List Text
nonblank [] = []
nonblank (part ∷ parts) =
    let rest = nonblank parts in
    let word = trim_space part in if is_nil word then rest else word ∷ rest

unfoldable pub coerce_bool : {F : Type 0} → Raw F → Problem ⊎ Value
unfolding parse_bool
coerce_bool (scalar (bool b)) = inr (flag b)
coerce_bool (scalar (text s)) = elim (parse_bool s) [
  | some b ↦ inr (flag b)
  | none ↦ inl (not_boolean_text s)
]
coerce_bool _ = inl not_boolean

abbrev pub as_problem : {A : Type 0} → Text ⊎ A → Problem ⊎ A
as_problem (inl e) = inl (options_failed e)
as_problem (inr a) = inr a

abbrev pub option_of : Text × Text → ConfigOption
option_of (uuid, identifier) = record { value = uuid; label = identifier }

abbrev pub agent_option : LocalAgent → ConfigOption
agent_option a = record { value = a.uuid; label = a.machine_name }

abbrev pub labelled : Text → List (Text × Text) → List ConfigOption
labelled machine_name [] = []
labelled machine_name ((uuid, name) ∷ cs) =
    record { value = uuid; label = machine_name ++ (codes "/" ++ name) } ∷ labelled machine_name cs

unfoldable pub connection_options : Text → List LocalAgent → List ConfigOption
unfolding equal
connection_options agent [] = []
connection_options agent (a ∷ ags) =
    let rest = connection_options agent ags in
    if not (is_nil agent) && not (equal a.uuid agent)
    then rest
    else labelled a.machine_name a.connections ++ rest
