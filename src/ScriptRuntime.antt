-- ===== src/ScriptRuntime.antt =====
-- internal/scriptruntime/protocol.go: the messages between the server and the Yarn runtime, a
-- process of its own. The substitutions of a line or an option, which are only passed on, are left
-- out.
pub mod Session
pub mod Buffer
use new_yokosuka_server.Base.{ℕ, Bool, String, Option, none, some, List}
use new_yokosuka_server.Base.Int.{ℤ}
use new_yokosuka_server.ScriptContent.{CompiledArgument}

-- `type_name` is the field `Type` of the messages.
pub record Value : Type 0 where
  pub type_name : String
  pub value : String

pub record Variable : Type 0 where
  pub name : String
  pub value : Value

pub record StartRequest : Type 0 where
  pub program : List ℕ
  pub start_node : String
  pub variables : List Variable

pub record FunctionDefinition : Type 0 where
  pub name : String
  pub return_type : String
  pub parameter_types : List String

-- The program is sent in base64.
pub record StartMessage : Type 0 where
  pub program : List ℕ
  pub start_node : String
  pub functions : List FunctionDefinition
  pub variables : List Variable

pub record Input : Type 0 where
  pub type_name : String
  pub query_id : Option ℤ
  pub option_id : Option ℤ
  pub value : Option Value

pub record RuntimeOption : Type 0 where
  pub id : ℤ
  pub line_id : String
  pub is_available : Bool

pub record Event : Type 0 where
  pub type_name : String
  pub sequence : ℤ
  pub query_id : Option ℤ
  pub name : String
  pub node : String
  pub line_id : String
  pub arguments : List CompiledArgument
  pub options : List RuntimeOption
  pub message : String

abbrev pub plain_input : String → Input
plain_input kind = record { type_name = kind; query_id = none; option_id = none; value = none }

-- The functions `Continue`, `Cancel`, `Select` and `QueryResult`.
abbrev pub continue_input : Input
continue_input = plain_input "continue"

abbrev pub cancel_input : Input
cancel_input = plain_input "cancel"

abbrev pub select_input : ℤ → Input
select_input option_id = record (plain_input "select") { option_id = some option_id }

abbrev pub query_result_input : ℤ → Value → Input
query_result_input query_id value = record (plain_input "queryResult") {
  query_id = some query_id;
  value = some value;
}
