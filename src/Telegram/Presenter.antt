-- ===== src/Telegram/Presenter.antt =====
-- The texts of the bot: backend/app/adapters/telegram/presenter.py. `repr` writes a dict or a list
-- and `two_decimals` a score, as Python does.
use ai_employee_os.Common.{
  ℕ, suc, String, ◌<>◌, ◌||◌, Option, none, some, List, [], ◌∷◌, ◌++◌, map, if◌then◌else◌, ◌==◌,
  string_eq,
}
use ai_employee_os.Common.Text.{occurs_in, lower_begins, lower_is}
use ai_employee_os.Common.Json.{
  Json, Fields, get_field, is_truthy, fields_of, items_of, value_or_null, text_of, str,
}

-- `separator.join(lines)`
unfoldable pub join : String → List String → String
join separator [] = ""
join separator (line ∷ []) = line
join separator (line ∷ more ∷ lines) = line <> separator <> join separator (more ∷ lines)

abbrev newline : String
newline = "\n"

abbrev blank_line : String
blank_line = "\n\n"

unfoldable pub format_progress_header : String
format_progress_header = "🧠 NOVA анализирует задачу"

unfoldable pub format_revision_prompt : String
format_revision_prompt = join newline (
    "Что нужно изменить?" ∷ "" ∷ "Напишите, что исправить:" ∷ "• стиль" ∷ "• объём текста"
    ∷ "• структуру" ∷ "• содержание" ∷ [])

unfoldable pub format_error_message : Option String → String
format_error_message none = "Не удалось завершить задачу."
format_error_message (some reason) =
    if reason == ""
    then "Не удалось завершить задачу."
    else "Не удалось завершить задачу." <> blank_line <> "Причина: " <> reason

-- `lines.append(label + value)`, if there is a value
abbrev labelled : String → Option String → List String
labelled label none = []
labelled label (some value) = if value == "" then [] else (label <> value) ∷ []

unfoldable pub format_runtime_error_message : Option String → Option String → Option String → String
format_runtime_error_message trace_id execution_id reason = join newline (
    "Произошла ошибка при выполнении задачи. Я уже сохранил детали."
    ∷ (labelled "trace_id: " trace_id
        ++ labelled "execution_id: " execution_id
        ++ labelled "Причина: " reason))

unfoldable pub artifact_icon : String → String → String
artifact_icon mime_type name =
    if occurs_in "pptx" name || occurs_in "presentation" mime_type
    then "📊"
    else if occurs_in "pdf" name || lower_is "application/pdf" mime_type
    then "📕"
    else if occurs_in "png" name || lower_begins "image/" mime_type
    then "🖼"
    else "📄"

module _ (repr : Json → String) where
  -- `fields.get(key) or default`, in a text
  abbrev text_or : String → String → Fields → String
  text_or default key fields = elim (get_field key fields) [
    | none ↦ default
    | some value ↦ if is_truthy (some value) then text_of repr value else default
  ]

  abbrev progress_line_of : Json → String
  progress_line_of line =
      let fields = fields_of (some line) in
      text_or "⌛" "status_icon" fields <> " " <> text_or "" "title" fields

  unfoldable pub format_telegram_progress : Option Json → String
  format_telegram_progress progress =
      let lines = map progress_line_of (items_of (get_field "lines" (fields_of progress))) in
      elim lines [
        | [] ↦ format_progress_header
        | l ∷ ls ↦ format_progress_header <> blank_line <> join newline (l ∷ ls)
      ]

  abbrev step_text : Json → String
  step_text step =
      let fields = fields_of (some step) in
      text_or (text_of repr (value_or_null (get_field "capability" fields))) "description" fields

  -- `f"{index}. {text}"`, from an index on
  abbrev numbered : ℕ → List Json → List String
  numbered index [] = []
  numbered index (step ∷ steps) = (str index <> ". " <> step_text step) ∷ numbered (suc index) steps

  unfoldable pub format_approval_message : Option Json → String
  format_approval_message task_plan =
      let steps = items_of (get_field "steps" (fields_of task_plan)) in
      elim steps [
        | [] ↦ "Я подготовил план выполнения." <> blank_line <> "Начать выполнение?"
        | s ∷ more ↦
            "Я подготовил план:"
            <> blank_line
            <> join newline (numbered 1 (s ∷ more))
            <> blank_line
            <> "Начать выполнение?"
      ]

  -- The message of the last log entry of level error that has one
  abbrev last_error : List Json → Option String
  last_error [] = none
  last_error (entry ∷ entries) =
      let later = last_error entries in
      let fields = fields_of (some entry) in
      let message = get_field "message" fields in
      elim later [
        | some found ↦ some found
        | none ↦
            if text_or "" "level" fields == "error"
            then if is_truthy message then some (text_or "" "message" fields) else none
            else none
      ]

  unfoldable pub extract_failure_reason : Fields → Option String
  extract_failure_reason state =
      let logs = items_of (get_field "logs" (fields_of (get_field "task_execution" state))) in
      let execution_state = fields_of (get_field "execution_state" state) in
      elim (last_error logs) [
        | some message ↦ some message
        | none ↦
            if is_truthy (get_field "failure_reason" execution_state)
            then some (text_or "" "failure_reason" execution_state)
            else if text_or "" "status" state == "execution_failed"
            then some "Ошибка при выполнении плана"
            else none
      ]

  module _ (two_decimals : Json → String) where
    -- The line of a score that is a number (a truth value is one)
    abbrev score_lines : Fields → List String
    score_lines state =
        let score = get_field "score" (fields_of (get_field "quality_check" state)) in
        elim score [
          | some (Json.number n) ↦ "" ∷ ("Quality score: " <> two_decimals (Json.number n)) ∷ []
          | some (Json.boolean b) ↦ "" ∷ ("Quality score: " <> two_decimals (Json.boolean b)) ∷ []
          | _ ↦ []
        ]

    unfoldable pub format_completion_message : Fields → String
    format_completion_message state =
        join newline ("Готово." ∷ "" ∷ "Если нужно что-то изменить — напишите." ∷ score_lines state)

    abbrev artifact_line : Fields → String
    artifact_line artifact =
        let name = text_or "файл" "name" artifact in
        let mime = text_or "" "mime_type" artifact in artifact_icon mime name <> " " <> name

    unfoldable pub format_delivery_summary : List Fields → Fields → String
    format_delivery_summary artifacts state =
        join newline
          (("✅ Готово" ∷ "" ∷ "Создано:" ∷ map artifact_line artifacts) ++ score_lines state)
