-- ===== src/Retention/History.antt =====
-- What becomes of a row of research_document_retention (src/research-retention.ts).
use quantpro_collector.Prelude.{
  ℕ, ◌≡◌, refl, Bool, true, false, Option, none, some, String, str_eq, arith, if◌then◌else◌,
}
use quantpro_collector.Db.Table.{lookup}
use quantpro_collector.State.History.{mapped, or_new, lookup-update_row, lookup-insert_or_ignore}
use quantpro_collector.Retention.Rows.{RetentionRow, RetentionPurgeDetail, Store, is_expired}
use quantpro_collector.Retention.Purge.{purged_row, flip_row}
use quantpro_collector.Retention.Mark.{
  RetentionCandidate, MarkedVersionCapture, marked_row, insert_marked,
}

-- A row keeps what was captured for the purge, and once it is PURGED it is final.
abbrev pub Follows : Option RetentionRow → Option RetentionRow → Type 0
Follows none now = Unit
Follows (some r) none = ⊥
Follows (some r) (some q) =
    (q.version_ids ≡ r.version_ids)
    × (q.journal_message_ids ≡ r.journal_message_ids)
    × (q.content_sha256s ≡ r.content_sha256s)
    × (is_expired r.status ≡ false → q ≡ r)

pub itself-Follows : (x : Option RetentionRow) → Follows x x
itself-Follows none = tt
itself-Follows (some r) = (refl, refl, refl, λ e. refl)

Follows-trans : (x y z : Option RetentionRow) → Follows x y → Follows y z → Follows x z
Follows-trans none y z f g = tt
Follows-trans (some r) none z f g = absurd f
Follows-trans (some r) (some q) none f g = g
Follows-trans (some r) (some q) (some p) f g = ground arith

if_Follows : (b : Bool) (x y : Option RetentionRow) → Follows x y → Follows x (if b then y else x)
if_Follows true x y f = f
if_Follows false x y f = itself-Follows x

purged_row-Follows :
    (now : ℕ) (d : RetentionPurgeDetail) (x : Option RetentionRow)
    → Follows x (mapped (purged_row now d) x)
purged_row-Follows now d none = tt
purged_row-Follows now d (some r) = ground arith

or_new-Follows : (new : RetentionRow) (x : Option RetentionRow) → Follows x (or_new new x)
or_new-Follows new none = tt
or_new-Follows new (some r) = itself-Follows (some r)

module _ {G : Type 0} where
  pub record History (before after : Store G) : Type 0 where
    pub follows :
        (document : String)
        → Follows (lookup document before.retention) (lookup document after.retention)

module _ {G : Type 0} {before : Store G} where
  pub History-flip_row :
      (document : String) (now : ℕ) (d : RetentionPurgeDetail) (s : Store G)
      → History before s
      → History before (flip_row document now d s)
  unfolding flip_row
  History-flip_row document now d s h = record {
    follows = λ key.
        Follows-trans (lookup key before.retention) (lookup key s.retention) _ (h.follows key) (
          rw (lookup-update_row document key (purged_row now d) s.retention)
            (if_Follows (str_eq document key) _ _ (purged_row-Follows now d _)));
  }

  pub History-insert_marked :
      (c : RetentionCandidate) (v : MarkedVersionCapture) (now : ℕ) (s : Store G)
      → History before s
      → History before (insert_marked c v now s)
  unfolding insert_marked
  History-insert_marked c v now s h = record {
    follows = λ key.
        Follows-trans (lookup key before.retention) (lookup key s.retention) _ (h.follows key) (
          rw (lookup-insert_or_ignore c.document_id key (marked_row c v now) s.retention)
            (if_Follows (str_eq c.document_id key) _ _ (or_new-Follows (marked_row c v now) _)));
  }

  -- a step that leaves the table alone
  pub History-beside :
      (f : Store G → Store G)
      → ((s : Store G) → (f s).retention ≡ s.retention)
      → (s : Store G) → History before s
      → History before (f s)
  History-beside f e s h = record { follows = λ key. rw (e s) (h.follows key) }
