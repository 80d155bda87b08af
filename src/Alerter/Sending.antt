-- ===== src/Alerter/Sending.antt =====
-- When `evaluateAllTasks` sends, over exact tasks: the code of `AlerterMsg` and of the alerter together.
use go2net_spectra.Base.{
  ℕ, ◌≡◌, ◌↔◌, refl, ap, sym, ◌∙◌, Bytes, bytes_eq, join, List, [], ◌∷◌, ◌++◌, none, some, Bool,
  true, false, All, map, Bool-cases, inl, inr, if◌then◌else◌, arith,
}
use go2net_spectra.ExactTask.{Task, snapshot, totals}
use go2net_spectra.AlertRules.{
  Floats, AlerterRule, check, exact_metric, exact_message, exact_messages, exact_alerter_msg,
}
use go2net_spectra.AlertRules.Triggers.{Fires, exact_alerter_msg_none}
use go2net_spectra.Alerter.{
  Alerter, exact_alert_task, relevant_rules, task_message, all_messages, evaluate_all_tasks,
}

module _ (fl : Floats) where
  exact_messages-cons :
      (name : Bytes) (sums : ℕ × ℕ × ℕ) (rule : AlerterRule fl.F) (xs ys : List (AlerterRule fl.F))
      → exact_messages fl name sums xs ≡ exact_messages fl name sums ys
      → exact_messages fl name sums (rule ∷ xs) ≡ exact_messages fl name sums (rule ∷ ys)
  unfolding exact_messages
  exact_messages-cons name sums rule xs ys e =
      let added : List Bytes → List Bytes = λ rest.
        (if bytes_eq rule.task_name name
          then elim (exact_metric fl sums rule.metric) [
            | none ↦ rest
            | some (value, unit) ↦
                if check fl value rule.threshold rule.operator
                then exact_message fl rule value unit ∷ rest
                else rest
          ]
          else rest) in
      ap added e

  exact_messages-skip :
      (name : Bytes) (sums : ℕ × ℕ × ℕ) (rule : AlerterRule fl.F) (xs : List (AlerterRule fl.F))
      → bytes_eq rule.task_name name ≡ false
      → exact_messages fl name sums (rule ∷ xs) ≡ exact_messages fl name sums xs
  unfolding exact_messages
  exact_messages-skip name sums rule xs other = rw other refl

  relevant_rules-cons :
      (name : Bytes) (rule : AlerterRule fl.F) (xs : List (AlerterRule fl.F)) (b : Bool)
      → bytes_eq rule.task_name name ≡ b
      → relevant_rules name (rule ∷ xs)
        ≡ (if b then rule ∷ relevant_rules name xs else relevant_rules name xs)
  unfolding relevant_rules
  relevant_rules-cons name rule xs b e = rw e refl

  exact_messages-relevant_rules :
      (name : Bytes) (sums : ℕ × ℕ × ℕ) (rules : List (AlerterRule fl.F))
      → exact_messages fl name sums (relevant_rules name rules) ≡ exact_messages fl name sums rules
  unfolding relevant_rules
  exact_messages-relevant_rules name sums [] = refl
  exact_messages-relevant_rules name sums (rule ∷ rules) =
      let ih = exact_messages-relevant_rules name sums rules in
      let said = exact_messages fl name sums in
      elim (Bool-cases (bytes_eq rule.task_name name)) [
        | inl mine ↦
            ap said (relevant_rules-cons name rule rules true mine)
            ∙ exact_messages-cons name sums rule (relevant_rules name rules) rules ih
        | inr other ↦
            ap said (relevant_rules-cons name rule rules false other)
            ∙ (ih ∙ sym (exact_messages-skip name sums rule rules other))
      ]

  -- An exact task says the same about the rules that the alerter selects for it as about all rules.
  pub exact_alerter_msg-relevant_rules :
      (t : Task) (rules : List (AlerterRule fl.F))
      → exact_alerter_msg fl t (relevant_rules t.name rules) ≡ exact_alerter_msg fl t rules
  unfolding exact_alerter_msg
  exact_alerter_msg-relevant_rules t rules =
      rw (exact_messages-relevant_rules t.name (totals (snapshot t).shards (0, 0, 0)) rules) refl

  -- One message, unless it is empty.
  wrap : Bytes → List Bytes
  wrap [] = []
  wrap (c ∷ cs) = (c ∷ cs) ∷ []

  wrap_nil : (b : Bytes) → (wrap b ≡ []) ↔ (b ≡ [])
  unfolding wrap
  wrap_nil [] = (λ e. refl, λ e. refl)
  wrap_nil (c ∷ cs) = (λ e. cc e, λ e. cc e)

  exact_alerter_msg-nil : (t : Task) → exact_alerter_msg fl t [] ≡ []
  unfolding exact_alerter_msg exact_messages join
  exact_alerter_msg-nil t = refl

  task_message-wrap :
      (t : Task) (rules : List (AlerterRule fl.F))
      → task_message rules (exact_alert_task fl t) ≡ wrap (exact_alerter_msg fl t rules)
  unfolding task_message exact_alert_task wrap
  task_message-wrap t rules = relevant_lem (relevant_rules t.name rules) refl
    where
      text_lem :
          (rule : AlerterRule fl.F) (rest : List (AlerterRule fl.F)) (b : Bytes)
          → relevant_rules t.name rules ≡ rule ∷ rest
          → exact_alerter_msg fl t (rule ∷ rest) ≡ b
          → task_message rules (exact_alert_task fl t) ≡ wrap b
      text_lem rule rest [] e same = rw (task_message, e, same) refl
      text_lem rule rest (c ∷ cs) e same = rw (task_message, e, same) refl

      relevant_lem :
          (rel : List (AlerterRule fl.F))
          → relevant_rules t.name rules ≡ rel
          → task_message rules (exact_alert_task fl t) ≡ wrap (exact_alerter_msg fl t rules)
      relevant_lem [] e =
          let whole = exact_alerter_msg-relevant_rules t rules in
          let empty : exact_alerter_msg fl t rules ≡ [] =
            sym whole ∙ (ap (exact_alerter_msg fl t) e ∙ exact_alerter_msg-nil t) in
          rw (task_message, e, empty) refl
      relevant_lem (rule ∷ rest) e =
          text_lem rule rest (exact_alerter_msg fl t rules) e
            (ap (exact_alerter_msg fl t) (sym e) ∙ exact_alerter_msg-relevant_rules t rules)

  append_nil : (xs ys : List Bytes) → (xs ++ ys ≡ []) ↔ ((xs ≡ []) × (ys ≡ []))
  append_nil [] ys = (λ e. (refl, e), λ e. e.1)
  append_nil (x ∷ xs) ys = (λ e. cc e, λ e. cc (e.0))

  abbrev pub Quiet : List (AlerterRule fl.F) → Task → Type 0
  Quiet rules t = All (λ rule. ¬ Fires fl t.name (totals (snapshot t).shards (0, 0, 0)) rule) rules

  all_messages_none :
      (rules : List (AlerterRule fl.F)) (ts : List Task)
      → (all_messages rules (map (exact_alert_task fl) ts) ≡ []) ↔ All (Quiet rules) ts
  unfolding all_messages
  all_messages_none rules [] = (λ e. tt, λ e. refl)
  all_messages_none rules (t ∷ ts) =
      let more = all_messages rules (map (exact_alert_task fl) ts) in
      let both = append_nil (task_message rules (exact_alert_task fl t)) more in
      let one = wrap_nil (exact_alerter_msg fl t rules) in
      let quiet = exact_alerter_msg_none fl t rules in
      let same = task_message-wrap t rules in
      let ih = all_messages_none rules ts in
      (
        λ e. (quiet.0 (one.0 (sym same ∙ (both.0 e).0)), ih.0 (both.0 e).1),
        λ a. both.1 (same ∙ one.1 (quiet.1 a.0), ih.1 a.1),
      )

  evaluate_all_tasks-none :
      (to_html : Bytes → Bytes) (a : Alerter fl.F)
      → a.has_notifier ≡ true
      → (evaluate_all_tasks to_html a ≡ none) ↔ (all_messages a.rules a.tasks ≡ [])
  unfolding evaluate_all_tasks
  evaluate_all_tasks-none to_html a there = messages_lem (all_messages a.rules a.tasks) refl
    where
      messages_lem :
          (ms : List Bytes)
          → all_messages a.rules a.tasks ≡ ms
          → (evaluate_all_tasks to_html a ≡ none) ↔ (all_messages a.rules a.tasks ≡ [])
      messages_lem [] e = (λ h. e, λ h. rw (evaluate_all_tasks, e) refl)
      messages_lem (m ∷ ms) e = (λ h. absurd (ground (arith, e, there, h)), λ h. cc (e, h))

  -- An alerter with a notifier, over exact tasks: `evaluateAllTasks` sends nothing exactly when no rule
  -- fires for any task, whatever the AI service answers and in whatever order the tasks answer.
  pub no_alert_iff_quiet :
      (to_html : Bytes → Bytes) (a : Alerter fl.F) (ts : List Task)
      → a.tasks ≡ map (exact_alert_task fl) ts
      → a.has_notifier ≡ true
      → (evaluate_all_tasks to_html a ≡ none)
        ↔ All
            (λ t.
              All (λ rule. ¬ Fires fl t.name (totals (snapshot t).shards (0, 0, 0)) rule) a.rules)
            ts
  no_alert_iff_quiet to_html a ts e there =
      let sent = evaluate_all_tasks-none to_html a there in
      let quiet = all_messages_none a.rules ts in
      let same = ap (all_messages a.rules) e in
      (λ h. quiet.0 (sym same ∙ sent.0 h), λ h. sent.1 (same ∙ quiet.1 h))
