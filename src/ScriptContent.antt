-- ===== src/ScriptContent.antt =====
-- internal/scriptcontent: the command registry of registry.go, the calls of a compiled script of
-- compiler.go, and what their analysis in call_validation.go reports.
pub mod Calls
pub mod Triggers
use new_yokosuka_server.Base.{ℕ, Bool, String, Option, List}

pub record IdentifierKindSchema : Type 0 where
  pub kind : String
  pub policy : String

pub record IdentifierDefinition : Type 0 where
  pub kind : String
  pub identifier : String

-- `type_name` is the field `Type`.
pub record CommandParameter : Type 0 where
  pub name : String
  pub type_name : String
  pub identifier_kind : String
  pub optional : Bool

pub record DependencyRule : Type 0 where
  pub access : String
  pub kind : String
  pub parameter : String

-- The fields that say how a command is run (authority, wait, cleanup, side effects) are left out.
pub record CommandSchema : Type 0 where
  pub name : String
  pub kind : String
  pub parameters : List CommandParameter
  pub return_type : String
  pub dependencies : List DependencyRule

pub record CommandRegistry : Type 0 where
  pub identifier_kinds : List IdentifierKindSchema
  pub capabilities : List IdentifierDefinition
  pub entries : List CommandSchema

pub record CompiledArgument : Type 0 where
  pub type_name : String
  pub is_static : Bool
  pub value : Option String

-- A position in a file, which is not negative.
pub record CompiledCall : Type 0 where
  pub kind : String
  pub name : String
  pub node : String
  pub file_name : String
  pub start_line : ℕ
  pub start_column : ℕ
  pub end_line : ℕ
  pub end_column : ℕ
  pub parse_error : Option String
  pub arguments : List CompiledArgument

-- NYC0001 to NYC0008, in that order.
pub data Code : Type 0 where
  unknown_call wrong_kind invalid_arguments wrong_count not_static wrong_type : Code
  blank_identifier unknown_capability : Code

-- The message, which is made of the code and the call, and the severity, always an error, are left
-- out.
pub record Diagnostic : Type 0 where
  pub code : Code
  pub file_name : String
  pub node : String
  pub line : ℕ
  pub column : ℕ
  pub end_line : ℕ
  pub end_column : ℕ

pub record Dependency : Type 0 where
  pub access : String
  pub kind : String
  pub identifier : String

pub record IdentifierUsage : Type 0 where
  pub kind : String
  pub identifier : String

pub record Analysis : Type 0 where
  pub dependencies : List Dependency
  pub identifiers : List IdentifierUsage
