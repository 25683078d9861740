-- ===== src/Workflow/Safety/History.antt =====
-- What no step of the lifecycle of research-workflow.ts ever undoes.
use quantpro_collector.Prelude.{
  ℕ, ◌≡◌, refl, sym, ◌∙◌, false, none, some, List, [], ◌∷◌, ◌++◌, String, eq_iff, arith, ap,
}
use mathlib.Core.List.{append-nil, append_assoc}
use quantpro_collector.Db.Prog.{World, run}
use quantpro_collector.Db.Prog.Keeps.{Respects}
use quantpro_collector.Db.Table.{lookup, insert, lookup-insert}
use quantpro_collector.Workflow.Rows.{Store, TerminalRow, DeferralRow, ProposalRow, EventRow}
use quantpro_collector.Workflow.Tables.{select_terminal, select_deferral, add_event}
use quantpro_collector.Workflow.Canonical.{Platform}
use quantpro_collector.Workflow.Lifecycle.{
  Step, log, grant, release, file, complete, postpone, Reach, here, next,
}
use quantpro_collector.Workflow.Safety.Request.{Request, handle}
use quantpro_collector.Workflow.Safety.Calls.{handle-Reach}

-- `t` continues `s`: rows of the append-only tables are only added, and the rows that decide a
-- job stay as they were written.
pub record Continues (s t : Store) : Type 0 where
  pub new_events : List EventRow
  pub events : t.events ≡ s.events ++ new_events
  pub new_proposals : List ProposalRow
  pub proposals : t.proposals ≡ s.proposals ++ new_proposals
  pub terminals :
      (j : String) (x : TerminalRow) → lookup j s.terminals ≡ some x → lookup j t.terminals ≡ some x
  pub deferrals :
      (j : String) (d : DeferralRow) → select_deferral j s ≡ some d → select_deferral j t ≡ some d

Continues-refl : (s : Store) → Continues s s
Continues-refl s = record {
  new_events = [];
  events = sym (append-nil _);
  new_proposals = [];
  proposals = sym (append-nil _);
  terminals = λ j x e. e;
  deferrals = λ j d e. e;
}

append_twice {ℓ} :
    {A : Type ℓ} (xs a b : List A) {ys zs : List A}
    → ys ≡ xs ++ a
    → zs ≡ ys ++ b
    → zs ≡ xs ++ (a ++ b)
append_twice xs a b e f = f ∙ ap (λ l. l ++ b) e ∙ append_assoc xs a b

Continues-trans : {s t u : Store} → Continues s t → Continues t u → Continues s u
Continues-trans c d = record {
  new_events = c.new_events ++ d.new_events;
  events = append_twice _ c.new_events d.new_events c.events d.events;
  new_proposals = c.new_proposals ++ d.new_proposals;
  proposals = append_twice _ c.new_proposals d.new_proposals c.proposals d.proposals;
  terminals = λ j x e. d.terminals j x (c.terminals j x e);
  deferrals = λ j x e. d.deferrals j x (c.deferrals j x e);
}

terminals-insert :
    (job : String) (y : TerminalRow) (s : Store)
    → select_terminal job s ≡ false
    → (j : String) (x : TerminalRow) → lookup j s.terminals ≡ some x
    → lookup j (insert job y s.terminals) ≡ some x
unfolding select_terminal
terminals-insert job y s n j x e = ground (arith, eq_iff job j, lookup-insert job j y s.terminals)

deferrals-insert :
    (job : String) (y : DeferralRow) (s : Store)
    → select_deferral job s ≡ none
    → (j : String) (x : DeferralRow) → lookup j s.deferrals ≡ some x
    → lookup j (insert job y s.deferrals) ≡ some x
unfolding select_deferral
deferrals-insert job y s n j x e = ground (arith, eq_iff job j, lookup-insert job j y s.deferrals)

Step-Continues : {s t : Store} → Step s t → Continues s t
unfolding add_event select_deferral
Step-Continues (log e) = record {
  new_events = e ∷ [];
  events = refl;
  new_proposals = [];
  proposals = sym (append-nil _);
  terminals = λ j x e. e;
  deferrals = λ j d e. e;
}
Step-Continues (grant job now l o d v c a x) = record {
  new_events = [];
  events = sym (append-nil _);
  new_proposals = [];
  proposals = sym (append-nil _);
  terminals = λ j x e. e;
  deferrals = λ j d e. e;
}
Step-Continues (release job) = record {
  new_events = [];
  events = sym (append-nil _);
  new_proposals = [];
  proposals = sym (append-nil _);
  terminals = λ j x e. e;
  deferrals = λ j d e. e;
}
Step-Continues (file p f c) = record {
  new_events = [];
  events = sym (append-nil _);
  new_proposals = p ∷ [];
  proposals = refl;
  terminals = λ j x e. e;
  deferrals = λ j d e. e;
}
Step-Continues {s} (complete p owner generation now f c l o) = record {
  new_events = [];
  events = sym (append-nil _);
  new_proposals = p ∷ [];
  proposals = refl;
  terminals = terminals-insert p.job_id _ s o;
  deferrals = λ j d e. e;
}
Step-Continues {s} (postpone job d l o e k) = record {
  new_events = [];
  events = sym (append-nil _);
  new_proposals = [];
  proposals = sym (append-nil _);
  terminals = λ j x e. e;
  deferrals = deferrals-insert job d s e;
}

pub Reach-Continues : {s t : Store} → Reach s t → Continues s t
Reach-Continues {s} here = Continues-refl s
Reach-Continues (next r st) = Continues-trans (Reach-Continues r) (Step-Continues st)

-- Across any claim, submit or defer, on every outcome and with any lifecycle steps of other calls
-- in between: no event and no proposal is changed or removed, a completed job stays completed
-- with the same proposal, and a deferral, once written, stays as it is.
pub handle-Continues :
    (pf : Platform) (iso : ℕ → String) (w : World Store) (r : Request) (s : Store)
    → Respects (Reach s) w
    → Continues s (run w 0 (handle pf iso r) s).1
handle-Continues pf iso w r s others = Reach-Continues (handle-Reach pf iso w r s others)
