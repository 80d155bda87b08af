-- ===== src/Alerter.antt =====
-- The alerter: internal/alerter/alerter.go, with the mail of internal/notification/notifier.go. The
-- tasks, the AI service, the conversion of Markdown and the mail server are parameters.
pub mod Sending
mod Tests
use go2net_spectra.Base.{
  ℕ, suc, ◌+◌, ◌==◌, ◌&&◌, Bytes, text, bytes_eq, join, itoa, length, List, [], ◌∷◌, ◌++◌, Option,
  none, some, Bool, true, false, if◌then◌else◌, not,
}
use go2net_spectra.ExactTask.{Task}
use go2net_spectra.Persistent.{not_positive}
use go2net_spectra.AlertRules.{Floats, AlerterRule, concat, exact_alerter_msg}

-- What the alerter uses of `model.Task`.
pub record AlertTask (F : Type 0) : Type 0 where
  pub name : Bytes
  pub alerter_msg : List (AlerterRule F) → Bytes

-- An exact task as the alerter sees it.
unfoldable pub exact_alert_task : (fl : Floats) → Task → AlertTask fl.F
unfolding exact_alerter_msg
exact_alert_task fl t = record { name = t.name; alerter_msg = exact_alerter_msg fl t }

-- `ai` is the answer of the client to a text, or an error; there is no client when it is not enabled.
pub record Alerter (F : Type 0) : Type 0 where
  pub tasks : List (AlertTask F)
  pub rules : List (AlerterRule F)
  pub has_notifier : Bool
  pub ai : Option (Bytes → Option Bytes)

unfoldable pub relevant_rules : {F : Type 0} → Bytes → List (AlerterRule F) → List (AlerterRule F)
relevant_rules name [] = []
relevant_rules name (rule ∷ rules) =
    let rest = relevant_rules name rules in
    if bytes_eq rule.task_name name then rule ∷ rest else rest

-- What one goroutine of `evaluateAllTasks` sends: nothing without relevant rules, or for an empty text.
unfoldable pub task_message : {F : Type 0} → List (AlerterRule F) → AlertTask F → List Bytes
unfolding relevant_rules
task_message rules t = elim (relevant_rules t.name rules) [
  | [] ↦ []
  | rule ∷ relevant ↦ elim (t.alerter_msg (rule ∷ relevant)) [ [] ↦ [] | c ∷ cs ↦ (c ∷ cs) ∷ [] ]
]

-- All messages, for the tasks in the order in which their goroutines finish.
unfoldable pub all_messages : {F : Type 0} → List (AlerterRule F) → List (AlertTask F) → List Bytes
unfolding task_message
all_messages rules [] = []
all_messages rules (t ∷ tasks) = task_message rules t ++ all_messages rules tasks

-- `getAIAnalysis`: an error is `none`, and no client gives the empty text.
unfoldable pub get_ai_analysis : Option (Bytes → Option Bytes) → Bytes → Option Bytes
get_ai_analysis none content = some []
get_ai_analysis (some client) content = client content

unfoldable pub summary_body : List Bytes → Bytes
summary_body messages = concat (
    text "<h1>Go2NetSpectra Alert Summary</h1>"
    ∷ text "<p>The following alerts were triggered during the last check:</p><hr>"
    ∷ join messages (text "<hr>")
    ∷ [])

-- What the analysis adds to the body.
unfoldable pub analysis_html : (Bytes → Bytes) → Option Bytes → Bytes
analysis_html to_html none = []
analysis_html to_html (some []) = []
analysis_html to_html (some (c ∷ cs)) = text "<hr><h2>AI-Powered Analysis</h2>" ++ to_html (c ∷ cs)

unfoldable pub subject : List Bytes → Bytes
subject messages =
    concat (text "Go2NetSpectra Alert Summary (" ∷ itoa (length messages) ∷ text " Triggered)" ∷ [])

-- `evaluateAllTasks`: the subject and the body that it sends, if it sends.
unfoldable pub evaluate_all_tasks :
    {F : Type 0} → (Bytes → Bytes) → Alerter F → Option (Bytes × Bytes)
unfolding all_messages
evaluate_all_tasks to_html a = elim (all_messages a.rules a.tasks) [
  | [] ↦ none
  | m ∷ ms ↦
      if a.has_notifier
      then some (
        subject (m ∷ ms),
        summary_body (m ∷ ms)
            ++ analysis_html to_html (get_ai_analysis a.ai (join (m ∷ ms) (text "\n"))),
      )
      else none
]

-- `NewAlerter`: no interval is one that does not parse, and `client` is what connecting to the AI
-- service gave.
unfoldable pub new_alerter :
    {F : Type 0}
    → Option ℕ
    → Bool
    → Option (Bytes → Option Bytes)
    → List (AlertTask F)
    → List (AlerterRule F)
    → Bool
    → Option (ℕ × Alerter F)
new_alerter none ai_enabled client tasks rules has_notifier = none
new_alerter (some interval) ai_enabled client tasks rules has_notifier =
    if ai_enabled
    then elim client [
      | none ↦ none
      | some c ↦ some (
        interval,
        record { tasks = tasks; rules = rules; has_notifier = has_notifier; ai = some c },
      )
    ]
    else some
        (interval, record { tasks = tasks; rules = rules; has_notifier = has_notifier; ai = none })

-- `Start`: `time.NewTicker` panics, here `none`, on an interval that is not positive.
unfoldable pub start : {F : Type 0} → ℕ → Alerter F → Option (Alerter F)
start interval a = if not_positive interval then none else some a

-- `Stop` evaluates once more when the loop has ended.
unfoldable pub stop : {F : Type 0} → (Bytes → Bytes) → Alerter F → Option (Bytes × Bytes)
unfolding evaluate_all_tasks
stop to_html a = evaluate_all_tasks to_html a

-- `config.SMTPConfig`, less the credentials.
pub record SmtpConfig : Type 0 where
  pub host : Bytes
  pub port : ℕ
  pub from : Bytes
  pub to : Bytes

-- `strings.Split(s, ",")`, from the piece that has been read.
split_from : Bytes → Bytes → List Bytes
split_from piece [] = piece ∷ []
split_from piece (c ∷ cs) = elim (c == b',') [
  | true ↦ piece ∷ split_from [] cs
  | false ↦ split_from (piece ++ c ∷ []) cs
]

unfoldable pub mail : SmtpConfig → Bytes → Bytes → Bytes
mail cfg subject body = concat (
    text "To: "
    ∷ cfg.to
    ∷ text "\r\nFrom: "
    ∷ cfg.from
    ∷ text "\r\nSubject: "
    ∷ subject
    ∷ text "\r\nContent-Type: text/html; charset=UTF-8\r\n\r\n"
    ∷ body
    ∷ [])

-- `Send`; `send_mail` answers with the text of an error, and `short` is whether that text holds
-- "short response", which the code takes for success.
unfoldable pub send :
    (Bytes → Bytes → List Bytes → Bytes → Option Bytes)
    → (Bytes → Bool)
    → SmtpConfig
    → Bytes
    → Bytes
    → Option Bytes
unfolding split_from mail
send send_mail short cfg subject body =
    let result =
      send_mail (cfg.host ++ (text ":" ++ itoa cfg.port)) cfg.from (split_from [] cfg.to)
        (mail cfg subject body) in
    elim result [ none ↦ none | some e ↦ if short e then none else some e ]
