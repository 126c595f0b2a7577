-- ===== src/ScriptContent/Calls/Examples.antt =====
-- A registry with one command, and calls of it.
use new_yokosuka_server.Base.{◌≡◌, ◌↔◌, refl, String, true, false, none, some, List, [], ◌∷◌}
use new_yokosuka_server.Base.Lists.{All}
use new_yokosuka_server.Base.Text.{trim_space}
use new_yokosuka_server.ScriptContent.{
  CommandRegistry, CommandSchema, CommandParameter, CompiledCall, CompiledArgument, wrong_count,
  unknown_capability,
}
use new_yokosuka_server.ScriptContent.Calls.{
  analyze_calls, analyze_from, check_call, find_entry, minimum_from, check_argument,
  check_arguments, policy_of, has_capability, collect_identifiers, add_verdict, refused,
}
use new_yokosuka_server.ScriptContent.Calls.Valid.{IsValidCall}
use new_yokosuka_server.ScriptContent.Calls.Validity.{analyze_calls-IsValidCall}
use new_yokosuka_server.ScriptContent.Calls.Closed.{IsKnown, analyze_calls-IsKnown}

abbrev pub item_parameter : CommandParameter
item_parameter = record {
  name = "item";
  type_name = "string";
  identifier_kind = "item";
  optional = false;
}

abbrev pub count_parameter : CommandParameter
count_parameter = record {
  name = "count";
  type_name = "number";
  identifier_kind = "";
  optional = true;
}

abbrev pub give : CommandSchema
give = record {
  name = "give_item";
  kind = "command";
  parameters = item_parameter ∷ count_parameter ∷ [];
  return_type = "";
  dependencies = record { access = "read"; kind = "item"; parameter = "item" } ∷ [];
}

abbrev pub registry : CommandRegistry
registry = record {
  identifier_kinds = record { kind = "item"; policy = "closed" } ∷ [];
  capabilities = record { kind = "item"; identifier = "coin" } ∷ [];
  entries = give ∷ [];
}

abbrev pub text : String → CompiledArgument
text s = record { type_name = "string"; is_static = true; value = some s }

abbrev pub call_of : List CompiledArgument → CompiledCall
call_of arguments = record {
  kind = "command";
  name = "give_item";
  node = "Start";
  file_name = "a.yarn";
  start_line = 3;
  start_column = 0;
  end_line = 3;
  end_column = 20;
  parse_error = none;
  arguments = arguments;
}

no_arguments : check_call registry (call_of []) ≡ refused wrong_count []
unfolding check_call find_entry minimum_from
no_arguments = refl

unknown_item : check_call registry (call_of (text "gem" ∷ [])) ≡ refused unknown_capability []
unfolding check_call find_entry minimum_from check_arguments check_argument policy_of has_capability
    trim_space
unknown_item = refl

known_item :
    (analyze_calls (call_of (text " coin " ∷ []) ∷ []) registry).0.identifiers
    ≡ record { kind = "item"; identifier = "coin" } ∷ []
unfolding analyze_calls analyze_from add_verdict collect_identifiers check_call find_entry
    minimum_from check_arguments check_argument policy_of has_capability trim_space
known_item = refl

analyze_calls-IsValidCall_example :
    ((analyze_calls (call_of (text " coin " ∷ []) ∷ []) registry).1 ≡ [])
    ↔ All (IsValidCall registry) (call_of (text " coin " ∷ []) ∷ [])
analyze_calls-IsValidCall_example =
    analyze_calls-IsValidCall (call_of (text " coin " ∷ []) ∷ []) registry

analyze_calls-IsKnown_example :
    All
      (IsKnown registry)
      (analyze_calls (call_of (text " coin " ∷ []) ∷ call_of [] ∷ []) registry).0.identifiers
analyze_calls-IsKnown_example =
    analyze_calls-IsKnown (call_of (text " coin " ∷ []) ∷ call_of [] ∷ []) registry
