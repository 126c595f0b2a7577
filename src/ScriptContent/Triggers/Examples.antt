-- ===== src/ScriptContent/Triggers/Examples.antt =====
-- A script that is spoken to an actor.
use new_yokosuka_server.Base.{◌≤◌, ◌≡◌, refl, [], ◌∷◌, map}
use new_yokosuka_server.Base.Int.{pos}
use new_yokosuka_server.Base.Lists.{length}
use new_yokosuka_server.Base.Text.{trim_space, is_key}
use new_yokosuka_server.ScriptContent.Triggers.{
  TriggerSelector, Trigger, normalize_trigger_selector, is_valid_selector, has_trigger_shape,
  normalize_trigger, trigger_problems, check_triggers, validate_yarn_triggers, max_yarn_triggers,
}
use new_yokosuka_server.ScriptContent.Triggers.Accepted.{
  AllAccepted, validate_yarn_triggers_accepts,
}

abbrev typed : TriggerSelector
typed = record { kind = " talk"; area = "dobuita "; actor = "a1"; object = ""; activity = " " }

abbrev talk : TriggerSelector
talk = record { kind = "talk"; area = "dobuita"; actor = "a1"; object = ""; activity = "" }

abbrev start : Trigger
start = record { node_id = " Start"; selector = typed; priority = pos 10 }

nothing_reported : (validate_yarn_triggers (start ∷ []) ("Start" ∷ [])).1 ≡ []
unfolding normalize_trigger_selector is_valid_selector has_trigger_shape trim_space is_key
    normalize_trigger trigger_problems check_triggers validate_yarn_triggers
nothing_reported = refl

validate_yarn_triggers_accepts_example :
    (length (start ∷ []) ≤ max_yarn_triggers)
    × AllAccepted ("Start" ∷ []) [] (start ∷ [])
    × ((validate_yarn_triggers (start ∷ []) ("Start" ∷ [])).0 ≡ map normalize_trigger (start ∷ []))
validate_yarn_triggers_accepts_example =
    validate_yarn_triggers_accepts (start ∷ []) ("Start" ∷ []) nothing_reported
