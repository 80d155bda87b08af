-- ===== src/AlertRules/Triggers.antt =====
-- When a task has an alert to tell.
use go2net_spectra.Base.{
  ℕ, ◌≡◌, ◌↔◌, refl, ap, sym, ◌∙◌, subst, arith, Bytes, bytes_eq, bytes_eq→eq, eq→bytes_eq, join,
  List, [], ◌∷◌, ◌++◌, some, true, All, Bool-cases, Option-cases, ◌⊎◌, inl, inr,
}
use go2net_spectra.ExactTask.{Task, snapshot, totals}
use go2net_spectra.AlertRules.{
  Floats, AlerterRule, check, exact_metric, exact_message, exact_messages, exact_alerter_msg,
  separator,
}

module _ (fl : Floats) where
  -- A rule fires for a task of that name with those totals: it names the task, its metric is one of the
  -- three, and the comparison of the metric's value with the threshold holds.
  abbrev pub Fires : Bytes → ℕ × ℕ × ℕ → AlerterRule fl.F → Type 0
  Fires name sums rule =
      (rule.task_name ≡ name)
      × ((v : fl.F) × (unit : Bytes) × (exact_metric fl sums rule.metric ≡ some (v, unit))
          × (check fl v rule.threshold rule.operator ≡ true))

  -- A list of texts that is empty, or begins with a text that is not.
  abbrev pub Told : List Bytes → Type 0
  Told ms = (ms ≡ []) ⊎ ((c : ℕ) × (cs : Bytes) × (rest : List Bytes) × (ms ≡ (c ∷ cs) ∷ rest))

  exact_message_told :
      (rule : AlerterRule fl.F) (v : fl.F) (unit : Bytes)
      → (c : ℕ) × (cs : Bytes) × (exact_message fl rule v unit ≡ c ∷ cs)
  unfolding exact_message
  exact_message_told rule v unit = (_, _, refl)

  -- The loop over the rules: what one rule adds.
  exact_messages-step :
      (name : Bytes) (sums : ℕ × ℕ × ℕ) (rule : AlerterRule fl.F) (rules : List (AlerterRule fl.F))
      → ((¬ Fires name sums rule)
          × (exact_messages fl name sums (rule ∷ rules) ≡ exact_messages fl name sums rules))
        ⊎ (Fires name sums rule
            × ((c : ℕ) × (cs : Bytes) × (exact_messages fl name sums (rule ∷ rules)
                  ≡ (c ∷ cs) ∷ exact_messages fl name sums rules)))
  unfolding exact_messages
  exact_messages-step name sums rule rules = elim (Bool-cases (bytes_eq rule.task_name name)) [
    | inr other ↦ inl (λ f. cc (other, eq→bytes_eq rule.task_name name f.0), rw other refl)
    | inl mine ↦ elim (Option-cases (exact_metric fl sums rule.metric)) [
      | inl unknown ↦ inl (λ f. cc (unknown, f.1.2), rw (mine, unknown) refl)
      | inr ((v, unit), known) ↦ elim (Bool-cases (check fl v rule.threshold rule.operator)) [
        | inr holds_not ↦ inl (
          λ f. (let (w, u, e, c) = f.1 in ground (arith, known, e, c, holds_not)),
          rw (mine, known, holds_not) refl,
        )
        | inl holds ↦
            let (c, cs, full) = exact_message_told rule v unit in
            inr (
              (bytes_eq→eq rule.task_name name mine, (v, unit, known, holds)),
              (c, cs, rw (mine, known, holds, full) refl),
            )
      ]
    ]
  ]

  AllQuiet : Bytes → ℕ × ℕ × ℕ → List (AlerterRule fl.F) → Type 0
  AllQuiet name sums rules = All (λ rule. ¬ Fires name sums rule) rules

  exact_messages-nil : (name : Bytes) (sums : ℕ × ℕ × ℕ) → exact_messages fl name sums [] ≡ []
  unfolding exact_messages
  exact_messages-nil name sums = refl

  exact_messages-Told :
      (name : Bytes) (sums : ℕ × ℕ × ℕ) (rules : List (AlerterRule fl.F))
      → Told (exact_messages fl name sums rules)
  exact_messages-Told name sums [] = inl (exact_messages-nil name sums)
  exact_messages-Told name sums (rule ∷ rules) = elim (exact_messages-step name sums rule rules) [
    | inl (quiet, same) ↦ subst Told (sym same) (exact_messages-Told name sums rules)
    | inr (fires, (c, cs, more)) ↦ inr (c, cs, exact_messages fl name sums rules, more)
  ]

  exact_messages_none :
      (name : Bytes) (sums : ℕ × ℕ × ℕ) (rules : List (AlerterRule fl.F))
      → (exact_messages fl name sums rules ≡ []) ↔ AllQuiet name sums rules
  unfolding AllQuiet
  exact_messages_none name sums [] = (λ e. tt, λ a. exact_messages-nil name sums)
  exact_messages_none name sums (rule ∷ rules) = elim (exact_messages-step name sums rule rules) [
    | inl (quiet, same) ↦
        let ih = exact_messages_none name sums rules in
        (λ e. (quiet, ih.0 (sym same ∙ e)), λ a. same ∙ ih.1 a.1)
    | inr (fires, (c, cs, more)) ↦ (λ e. cc (more, e), λ a. absurd (a.0 fires))
  ]

  pub join_nil : (ms : List Bytes) (sep : Bytes) → Told ms → join ms sep ≡ [] → ms ≡ []
  unfolding join
  join_nil ms sep (inl e) h = e
  join_nil ms sep (inr (c, cs, [], e)) h =
      let bad : c ∷ cs ≡ [] = ap (λ l. join l sep) (sym e) ∙ h in cc bad
  join_nil ms sep (inr (c, cs, x ∷ rest, e)) h =
      let bad : c ∷ (cs ++ sep ++ join (x ∷ rest) sep) ≡ [] = ap (λ l. join l sep) (sym e) ∙ h in
      cc bad

  -- `AlerterMsg` of an exact task is empty exactly when none of the rules fires for the task.
  pub exact_alerter_msg_none :
      (t : Task) (rules : List (AlerterRule fl.F))
      → (exact_alerter_msg fl t rules ≡ [])
        ↔ All (λ rule. ¬ Fires t.name (totals (snapshot t).shards (0, 0, 0)) rule) rules
  unfolding exact_alerter_msg AllQuiet join
  exact_alerter_msg_none t rules =
      let sums = totals (snapshot t).shards (0, 0, 0) in
      let told = exact_messages-Told t.name sums rules in
      let iff = exact_messages_none t.name sums rules in
      (
        λ e. iff.0 (join_nil (exact_messages fl t.name sums rules) separator told e),
        λ a. ap (λ ms. join ms separator) (iff.1 a),
      )
