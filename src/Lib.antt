-- ===== src/Lib.antt =====
-- A model of the New Yokosuka server and proofs about it.
--
-- The server keeps the characters of an online world in a PostgreSQL database, runs scripted events
-- in a Yarn runtime that is a process of its own, and lets characters buy drinks and pass doors.
-- The parts that are modelled, and where:
--
-- - Store: internal/store. `Store.Tables` has the tables of migrations/001_baseline.sql that the
--   transactions change, `Store.Transaction` the transaction (`transact` is BeginTx with the deferred
--   Rollback and the Commit) and the errors of store.go. `Store.Economy` is economy.go (`credit_yen`,
--   `spend_yen`, `grant_item`, `consume_item` are CreditYen, SpendYen, GrantItem, ConsumeItem, and
--   `record_economy_event` is recordEconomyEvent), `Store.Progression` is progression.go
--   (`award_experience`, `apply_damage`, `heal_character`, `use_healing_item`), and `Store.Vending` is
--   vending.go (`purchase_vending_drink` is PurchaseVendingDrink). `Store.Runs` is the part of
--   script_events.go that starts, renews, cancels and fails a run, on tables of its own, and
--   `Store.Effects` its effects on the tables of a character (`apply_script_effect` is
--   applyScriptEffect), its end (`Store.Effects.Finish.complete_script_event` is
--   CompleteScriptEvent) and its trace. Each operation takes the tables and returns its result and
--   the tables after it. `Store.History` runs any list of operations, and `Store.Ledger` and
--   `Store.Later` say what they keep.
-- - Dialogue: internal/dialoguestate, the snapshot of the dialogue interpreters (`default` and
--   `is_valid` are Default and Validate). `Store.Dialogues` is internal/store/dialogue.go
--   (`dialogue_state`, `save_dialogue_state`); the encoding to the JSON column is a parameter.
-- - Game: internal/game/progression.go, the level curve, which the progression uses.
-- - ScriptContent: internal/scriptcontent, the registry of commands and the analysis of a script's
--   calls (`ScriptContent.Calls.analyze_calls` is AnalyzeCalls of call_validation.go), and the
--   triggers (`ScriptContent.Triggers.normalize_trigger_selector` and `validate_yarn_triggers` are
--   NormalizeTriggerSelector and ValidateYarnTriggers of triggers.go).
-- - ScriptRuntime: internal/scriptruntime, the session with the runtime process
--   (`ScriptRuntime.Session.exchange` is Session.Exchange, `validate_input` and `validate_event` its
--   two checks, of which the second uses the analysis of calls) and the buffer of its diagnostics.
-- - ScriptEvent: internal/scriptevent. `ScriptEvent.State` is the staged state of state.go (`stage`)
--   with calendar.go, `ScriptEvent.Query` its answers to queries (`resolve_query`), and
--   `ScriptEvent.Engine` the engine of engine.go over an interface for its repository:
--   `ScriptEvent.Engine.Pump.pump` is the loop over the answers of the runtime, `start` and `advance`
--   the two calls. `ScriptEvent.Engine.Stored` fills the interface with the store. An event stages
--   effects on its own copy of the character's state, and the store applies the same effects to the
--   tables when the run ends; `ScriptEvent.Agreement` says when the two agree.
--   `ScriptEvent.Engine.Calls` reads what a script said off a log of the calls to the repository.
-- - Travel: internal/travelaccess/access.go, the doors that are open at certain hours.
-- - VendingCatalog: internal/vending/catalog.go, the products, the machines and the winning draw.
-- - LogBuffer: internal/logbuffer/buffer.go, the last lines of a log.
-- - Base holds what the parts share; `Base.Keyed` is the load of a list into a map by key that the
--   two catalogs have in common. `Floats` is float64 as a parameter.
--
-- Transactions run one after the other: the row locks that the source takes are what makes this the
-- order it sees. A lost connection and a cancelled context roll back like any error and are not
-- modelled in the store. A table with a primary key is a function of the key; a table of events is a
-- list with the newest first. Timestamps, generated identifiers and the order of listings are left
-- out. Texts of errors are constructors: `invalid` for a refused argument, `sql_error` for a refusal
-- of the database such as an overflow of a bigint or integer column, which is written out. The CHECK
-- constraints are not tests of the model: they are predicates on its tables.
--
-- In the session, what the process does (it takes the input, it prints an event, it stops) and
-- whether the context is cancelled are arguments of the operation, so a theorem holds whatever they
-- are. Elsewhere JSON is taken as decoded. Loops over lists are structural recursion, so no model
-- runs out of fuel; the loop of the event engine runs over the list of the answers of the runtime,
-- and waits when they end; the loop of the level curve has its number of rounds as an argument,
-- nine, which is all of its levels.
--
-- Not modelled: the test of the command registry when the event engine is made, the previews of
-- scripts, the life cycle of scripts, the realtime hub, the simulation of other characters, and the
-- I/O of the HTTP server.
pub mod Base
pub mod Dialogue
pub mod Floats
pub mod Game
pub mod LogBuffer
pub mod ScriptContent
pub mod ScriptRuntime
pub mod ScriptEvent
pub mod Store
pub mod Travel
pub mod VendingCatalog
