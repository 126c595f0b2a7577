-- ===== src/ScriptContent/Calls/Valid.antt =====
-- What a call must satisfy to be accepted, said without the order of the tests.
use new_yokosuka_server.Base.{true, false, ◌≡◌, ◌≢◌, ◌⊎◌, String, none, some, List, [], ◌∷◌}
use new_yokosuka_server.Base.Lists.{All}
use new_yokosuka_server.Base.Text.{trim_space}
use new_yokosuka_server.ScriptContent.{
  CommandRegistry, CommandSchema, CommandParameter, CompiledCall, CompiledArgument,
}
use new_yokosuka_server.ScriptContent.Calls.{find_entry, is_closed, has_capability}

-- The argument is a literal that names something of the kind: anything of an open kind, a
-- registered capability of a closed one.
pub record Identifies (registry : CommandRegistry) (kind : String) (a : CompiledArgument)
    : Type 0 where
  pub text : String
  pub given : a.value ≡ some text
  pub static : a.is_static ≡ true
  pub named : trim_space text ≢ ""
  pub known :
      (is_closed registry kind ≡ false)
      ⊎ (has_capability kind (trim_space text) registry.capabilities ≡ true)

pub record IsValidArgument (registry : CommandRegistry) (kind : String) (p : CommandParameter)
    (a : CompiledArgument) : Type 0 where
  pub static : (kind ≢ "command") ⊎ (a.is_static ≡ true)
  pub same_type : a.type_name ≡ p.type_name
  pub identifies : (p.identifier_kind ≡ "") ⊎ Identifies registry p.identifier_kind a

abbrev pub IsOptional : CommandParameter → Type 0
IsOptional p = p.optional ≡ true

-- The arguments fill the first parameters, and those that are left are optional.
pub data Fits (registry : CommandRegistry) (kind : String)
    : List CommandParameter → List CompiledArgument → Type 0 where
  rest : {ps : List CommandParameter} → All IsOptional ps → Fits registry kind ps []
  argument :
      {p : CommandParameter} {ps : List CommandParameter} {a : CompiledArgument}
      {args : List CompiledArgument}
      → IsValidArgument registry kind p a
      → Fits registry kind ps args
      → Fits registry kind (p ∷ ps) (a ∷ args)

pub record IsValidCall (registry : CommandRegistry) (call : CompiledCall) : Type 0 where
  pub entry : CommandSchema
  pub found : find_entry call.name registry.entries ≡ some entry
  pub same_kind : entry.kind ≡ call.kind
  pub parsed : call.parse_error ≡ none
  pub fits : Fits registry call.kind entry.parameters call.arguments
