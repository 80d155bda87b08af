-- ===== src/Alerter/Tests.antt =====
-- An alerter over one exact task without packets, and one rule that its totals meet.
use go2net_spectra.Base.{
  ℕ, ltb, leb, ◌==◌, ◌≡◌, ◌↔◌, refl, text, itoa, join, [], ◌∷◌, none, some, true, false, All, map,
}
use go2net_spectra.ExactTask.{Task, new_task, snapshot, totals}
use go2net_spectra.AlertRules.{Floats, AlerterRule}
use go2net_spectra.AlertRules.Triggers.{Fires}
use go2net_spectra.Alerter.{Alerter, exact_alert_task, evaluate_all_tasks, send}
use go2net_spectra.Alerter.Sending.{no_alert_iff_quiet}

-- Whole numbers stand for float64.
abbrev wholes : Floats
wholes = record {
  F = ℕ;
  of_uint64 = λ x. x;
  gt = λ x y. ltb y x;
  lt = ltb;
  eq = λ x y. x == y;
  ge = λ x y. leb y x;
  le = leb;
  two_decimals = itoa;
  no_decimals = itoa;
}

abbrev rule : AlerterRule ℕ
rule = record {
  name = text "idle";
  task_name = text "t";
  metric = text "total_packets";
  operator = text "<";
  threshold = 10;
}

abbrev task : Task
task = new_task (text "t") [] 1

-- The AI service does not answer.
abbrev alerter : Alerter ℕ
alerter = record {
  tasks = map (exact_alert_task wholes) (task ∷ []);
  rules = rule ∷ [];
  has_notifier = true;
  ai = some (λ b. none);
}

no_alert_iff_quiet_example :
    (evaluate_all_tasks (λ b. b) alerter ≡ none)
    ↔ All
        (λ t. All (λ r. ¬ Fires wholes t.name (totals (snapshot t).shards (0, 0, 0)) r) (rule ∷ []))
        (task ∷ [])
no_alert_iff_quiet_example = no_alert_iff_quiet wholes (λ b. b) alerter (task ∷ []) refl refl

-- Two recipients, and the text of an error that means success.
sends_to_both :
    send
      (λ host from to body. some (join to (text "|")))
      (λ e. false)
      (record { host = text "h"; port = 25; from = text "f"; to = text "a,b" })
      (text "s")
      (text "b")
    ≡ some (text "a|b")
unfolding send join
sends_to_both = refl
