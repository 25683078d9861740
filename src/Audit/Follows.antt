-- ===== src/Audit/Follows.antt =====
-- What the rows of `src/automation-run-ledger.ts` keep when one statement changes them.
use quantpro_collector.Prelude.{
  ℕ, ◌≡◌, refl, ap, ◌∙◌, Bool, true, false, ◌&&◌, Option, none, some, String, not, arith, if_intro,
}
use quantpro_collector.Runs.History.{mapped}
use quantpro_collector.Audit.Runs.{
  StoredAutomationRun, AutomationRunEnd, has_id, is_open, end_row, is_v2, AutomationRunOutcome,
}
use quantpro_collector.Audit.Events.{EventInput, AutomationRunEvent, is_some, note_row, is_target}

abbrev pub is_over : StoredAutomationRun → Bool
is_over r = is_v2 r.source_contract && elim r.final_payload_sha256 [ none ↦ false | some h ↦ true ]

-- an older run whose FINAL event is noted
abbrev pub closing :
    StoredAutomationRun
    → Bool × Option String × Option AutomationRunOutcome × Option ℕ × Option ℕ × Option String
closing r = (
  is_v2 r.source_contract,
  r.legacy_final_sha256,
  r.outcome,
  r.finished_at,
  r.fresh_delta_count,
  r.reason,
)

abbrev pub is_closed : StoredAutomationRun → Bool
is_closed r = not (is_v2 r.source_contract) && is_some r.legacy_final_sha256

-- A run keeps its caller, its invocation and its contract, once it is over its row is final, and
-- once an older run has its final event, what that event says stays.
abbrev pub Follows : Option StoredAutomationRun → Option StoredAutomationRun → Type 0
Follows none now = Unit
Follows (some r) none = ⊥
Follows (some r) (some q) =
    (q.principal ≡ r.principal)
    × (q.invocation_key ≡ r.invocation_key)
    × (q.source_contract ≡ r.source_contract)
    × (is_over r ≡ true → q ≡ r)
    × (is_closed r ≡ true → closing q ≡ closing r)

pub end_row-has_id :
    (task id : String) (e : AutomationRunEnd) (now : ℕ) (h t k : String) (r : StoredAutomationRun)
    → has_id t k (end_row task id e now h r) ≡ has_id t k r
unfolding end_row
end_row-has_id task id e now h t k r =
    if_intro (λ q. has_id t k q ≡ has_id t k r) (has_id task id r && is_open r) (λ _. refl)
      (λ _. refl)

pub end_row-Follows :
    (task id : String) (e : AutomationRunEnd) (now : ℕ) (h : String) (r : StoredAutomationRun)
    → Follows (some r) (some (end_row task id e now h r))
unfolding end_row
end_row-Follows task id e now h r =
    if_intro (λ q. Follows (some r) (some q)) (has_id task id r && is_open r)
      (λ x.
        (refl, refl, refl, λ o. absurd (ground (arith, x, o)), λ o. absurd (ground (arith, x, o))))
      (λ x. (refl, refl, refl, λ o. refl, λ o. refl))

pub itself-Follows : (x : Option StoredAutomationRun) → Follows x x
itself-Follows none = tt
itself-Follows (some r) = (refl, refl, refl, λ o. refl, λ o. refl)

pub note_row-has_id :
    (i : EventInput) (e : AutomationRunEvent) (h t k : String) (r : StoredAutomationRun)
    → has_id t k (note_row i e h r) ≡ has_id t k r
unfolding note_row
note_row-has_id i e h t k r =
    if_intro (λ q. has_id t k q ≡ has_id t k r) (is_target i e h r)
      (λ _. if_intro (λ q. has_id t k q ≡ has_id t k r) e.is_final (λ _. refl) (λ _. refl))
      (λ _. refl)

pub note_row-Follows :
    (i : EventInput) (e : AutomationRunEvent) (h : String) (r : StoredAutomationRun)
    → Follows (some r) (some (note_row i e h r))
unfolding note_row
note_row-Follows i e h r =
    if_intro (λ q. Follows (some r) (some q)) (is_target i e h r)
      (λ x.
        if_intro (λ q. Follows (some r) (some q)) e.is_final
          (λ f. (
            refl,
            refl,
            refl,
            λ o. absurd (ground (arith, x, o)),
            λ o. absurd (ground (arith, x, f, o)),
          ))
          (λ f. (refl, refl, refl, λ o. absurd (ground (arith, x, o)), λ o. refl)))
      (λ x. itself-Follows (some r))

pub Follows-trans : (x y z : Option StoredAutomationRun) → Follows x y → Follows y z → Follows x z
Follows-trans none y z f g = tt
Follows-trans (some r) none z f g = absurd f
Follows-trans (some r) (some q) none f g = g
Follows-trans (some r) (some q) (some p) (f, f', c, f'', k) (g, g', c', g'', k') = (
  g ∙ f,
  g' ∙ f',
  c' ∙ c,
  λ o. g'' (ap is_over (f'' o) ∙ o) ∙ f'' o,
  λ o. k' (ap (λ x. not x.0 && is_some x.1) (k o) ∙ o) ∙ k o,
)

pub mapped-Follows :
    (has : StoredAutomationRun → Bool) (f : StoredAutomationRun → StoredAutomationRun)
    (same : (r : StoredAutomationRun) → has (f r) ≡ has r)
    → ((r : StoredAutomationRun) → Follows (some r) (some (f r)))
    → (x : Option StoredAutomationRun) → Follows x (mapped has f same x)
mapped-Follows has f same follows none = tt
mapped-Follows has f same follows (some r) = follows r

pub found-Follows :
    (x y : Option StoredAutomationRun)
    → Follows x (elim x as (λ _. Option StoredAutomationRun) [ none ↦ y | some a ↦ some a ])
found-Follows none y = tt
found-Follows (some r) y = itself-Follows (some r)
