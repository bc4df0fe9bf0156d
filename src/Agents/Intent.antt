-- ===== src/Agents/Intent.antt =====
-- crates/tiny-mite-agents/src/intent.rs: the intents and the types of tasks, and the rules that
-- find them by keywords in a text in lower case.
use tiny_mite.Prelude.{
  ℕ, ◌+◌, ◌*◌, min, Bool, true, false, ◌&&◌, ◌||◌, String, List, [], ◌∷◌, ◌++◌, any, length,
  if◌then◌else◌, contains_text, u32,
}

pub data Intent : Type 0 where
  question code_generation code_review explanation summarization : Intent
  analysis creation action planning debugging unknown : Intent

pub Intent-discrete : Discrete Intent
Intent-discrete = hlevel

pub data TaskType : Type 0 where
  factual_query implementation design bug_fix test_writing code_explanation : TaskType
  code_review summarization analysis conversation system_action unknown : TaskType

-- `derive(Debug)`.
unfoldable pub intent_name : Intent → String
intent_name Intent.question = "Question"
intent_name Intent.code_generation = "CodeGeneration"
intent_name Intent.code_review = "CodeReview"
intent_name Intent.explanation = "Explanation"
intent_name Intent.summarization = "Summarization"
intent_name Intent.analysis = "Analysis"
intent_name Intent.creation = "Creation"
intent_name Intent.action = "Action"
intent_name Intent.planning = "Planning"
intent_name Intent.debugging = "Debugging"
intent_name Intent.unknown = "Unknown"

unfoldable pub task_type_name : TaskType → String
task_type_name TaskType.factual_query = "FactualQuery"
task_type_name TaskType.implementation = "Implementation"
task_type_name TaskType.design = "Design"
task_type_name TaskType.bug_fix = "BugFix"
task_type_name TaskType.test_writing = "TestWriting"
task_type_name TaskType.code_explanation = "CodeExplanation"
task_type_name TaskType.code_review = "CodeReview"
task_type_name TaskType.summarization = "Summarization"
task_type_name TaskType.analysis = "Analysis"
task_type_name TaskType.conversation = "Conversation"
task_type_name TaskType.system_action = "SystemAction"
task_type_name TaskType.unknown = "Unknown"

-- The table of `detect_intent`, in the order of the search.
unfoldable pub patterns : List (Intent × List String)
patterns =
    (
      Intent.code_generation,
      "write code" ∷ "implement" ∷ "create a function" ∷ "build a" ∷ "write a program" ∷ "code a"
          ∷ "add a function" ∷ "refactor" ∷ [],
    )
    ∷ (Intent.code_review, "review" ∷ "code review" ∷ "audit" ∷ "check my code" ∷ "inspect" ∷ [])
    ∷ (
      Intent.debugging,
      "debug" ∷ "bug" ∷ "fix" ∷ "error" ∷ "broken" ∷ "not working" ∷ "crash" ∷ [],
    )
    ∷ (
      Intent.explanation,
      "explain" ∷ "what does" ∷ "how does" ∷ "why" ∷ "describe" ∷ "tell me about" ∷ [],
    )
    ∷ (Intent.summarization, "summarize" ∷ "summary" ∷ "tldr" ∷ "brief" ∷ "condense" ∷ [])
    ∷ (Intent.analysis, "analyze" ∷ "analysis" ∷ "metrics" ∷ "profile" ∷ "benchmark" ∷ "data" ∷ [])
    ∷ (Intent.creation, "write a poem" ∷ "write a story" ∷ "create a" ∷ "generate" ∷ "compose" ∷ [])
    ∷ (
      Intent.action,
      "run" ∷ "execute" ∷ "deploy" ∷ "install" ∷ "setup" ∷ "configure" ∷ "build" ∷ "compile" ∷ [],
    )
    ∷ (Intent.planning, "plan" ∷ "architecture" ∷ "design" ∷ "outline" ∷ "steps" ∷ "strategy" ∷ [])
    ∷ (
      Intent.question,
      "what" ∷ "when" ∷ "where" ∷ "who" ∷ "how" ∷ "which" ∷ "can you" ∷ "could you" ∷ [],
    )
    ∷ []

unfoldable pub contains_any : List String → String → Bool
contains_any keywords text = any (λ k. contains_text k text) keywords

-- The loop over the table.
unfoldable pub first_match : List (Intent × List String) → String → Intent
first_match [] text = Intent.unknown
first_match ((intent, keywords) ∷ rest) text =
    let later = first_match rest text in if contains_any keywords text then intent else later

unfoldable pub detect_intent : String → Intent
detect_intent text = first_match patterns text

unfoldable pub detect_task_type : String → Intent → TaskType
detect_task_type text Intent.code_generation = TaskType.implementation
detect_task_type text Intent.code_review = TaskType.code_review
detect_task_type text Intent.debugging = TaskType.bug_fix
detect_task_type text Intent.explanation = TaskType.code_explanation
detect_task_type text Intent.summarization = TaskType.summarization
detect_task_type text Intent.analysis = TaskType.analysis
detect_task_type text Intent.creation = TaskType.implementation
detect_task_type text Intent.action = TaskType.system_action
detect_task_type text Intent.planning = TaskType.design
detect_task_type text Intent.question =
    if contains_text "how" text && (contains_text "code" text || contains_text "write" text)
    then TaskType.implementation
    else TaskType.factual_query
detect_task_type text Intent.unknown = TaskType.unknown

unfoldable pub needs_retrieval : String → Bool
needs_retrieval text =
    contains_text "find" text
    || contains_text "search" text
    || contains_text "look up" text
    || contains_text "document" text
    || contains_text "reference" text
    || contains_text "project" text
    || contains_text "codebase" text

unfoldable pub detect_required_tools : String → List String
detect_required_tools text =
    (if contains_text "compile" text || contains_text "build" text || contains_text "run" text
      then "terminal" ∷ []
      else [])
    ++ (if contains_text "test" text || contains_text "unit test" text
        then "test-runner" ∷ []
        else [])
    ++ (if contains_text "file" text || contains_text "write to" text || contains_text "read" text
        then "filesystem" ∷ []
        else [])
    ++ (if contains_text "git" text || contains_text "commit" text || contains_text "branch" text
        then "git" ∷ []
        else [])

unfoldable pub needs_planning : Intent → Bool
needs_planning Intent.planning = true
needs_planning Intent.code_generation = true
needs_planning Intent.action = true
needs_planning Intent.debugging = true
needs_planning _ = false

unfoldable pub needs_reasoning : Intent → Bool
needs_reasoning Intent.debugging = true
needs_reasoning Intent.code_review = true
needs_reasoning Intent.analysis = true
needs_reasoning Intent.explanation = true
needs_reasoning _ = false

unfoldable pub estimate_risk : Intent → List String → ℕ
estimate_risk intent tools =
    min
      (u32 (
        (elim intent [
          | Intent.action ↦ 60
          | Intent.code_generation ↦ 30
          | Intent.debugging ↦ 20
          | _ ↦ 5
        ])
        + u32 (u32 (length tools) * 10)))
      100
