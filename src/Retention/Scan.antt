-- ===== src/Retention/Scan.antt =====
-- `scanRetentionCandidates` of `src/research-retention.ts`: the documents that are to expire.
use quantpro_collector.Prelude.{
  ℕ, zero, suc, ◌+◌, ◌*◌, ◌-◌, Bool, true, false, not, ◌&&◌, Option, none, some, List, [], ◌∷◌,
  ◌++◌, map, String, str_eq, ltb, leb, length, filter, take, if◌then◌else◌, codes,
}
use quantpro_collector.Db.Table.{lookup}
use quantpro_collector.Db.Prog.{Prog, done, select, when◌then◌else◌, ◌>>=◌}
use quantpro_collector.Kv.{before}
use quantpro_collector.Retention.Rows.{ResearchRecord, IngestMessage, Store, is_expired}
use quantpro_collector.Retention.Mark.{RetentionCandidate, retention_expiry_reason, distinct}

pub record ScanRow : Type 0 where
  pub document_id : String
  pub first_ingested_at : Option String
  pub source_id : Option String
  pub version_count : ℕ

-- `RETENTION_SCAN_PAGE`, `RETENTION_SCAN_MAX_PAGES`, `RETENTION_MARK_PAGE` and
-- `RETENTION_MARK_PAGE_MAX`
unfoldable pub retention_scan_page : ℕ
retention_scan_page = 200

unfoldable pub retention_scan_max_pages : ℕ
retention_scan_max_pages = 10

abbrev pub retention_mark_page : ℕ
retention_mark_page = 100

abbrev pub retention_mark_page_max : ℕ
retention_mark_page_max = 500

abbrev min : ℕ → ℕ → ℕ
min m n = if leb m n then m else n

abbrev max : ℕ → ℕ → ℕ
max m n = if leb m n then n else m

-- `clampInt` for a number that is whole and not negative
unfoldable pub clamp_int : Option ℕ → (fallback least most : ℕ) → ℕ
clamp_int none fallback least most = fallback
clamp_int (some n) fallback least most = min (max n least) most

-- `retentionCutoff` in milliseconds; before 1970 it is 0, and no time comes before that
unfoldable pub retention_cutoff : ℕ → ℕ
retention_cutoff now = now - 90 * 24 * 60 * 60 * 1000

-- MIN of a column, which passes over NULL
abbrev lesser : Option String → Option String → Option String
lesser none o = o
lesser (some a) none = some a
lesser (some a) (some b) = if before (codes b) (codes a) then some b else some a

abbrev least : {A : Type 0} → (A → Option String) → List A → Option String
least f [] = none
least f (x ∷ xs) = lesser (f x) (least f xs)

-- a row of the LEFT JOIN
abbrev pub Joined : Type 0
Joined = ResearchRecord × Option IngestMessage

abbrev is_ingest_of : ResearchRecord → IngestMessage → Bool
is_ingest_of r m = str_eq m.record_type "document_version" && str_eq m.record_key r.record_key

abbrev or_null : ResearchRecord → List IngestMessage → List Joined
or_null r [] = (r, none) ∷ []
or_null r (m ∷ ms) = map (λ x. (r, some x)) (m ∷ ms)

unfoldable pub join : List IngestMessage → List ResearchRecord → List Joined
join ms [] = []
join ms (r ∷ rs) = or_null r (filter (is_ingest_of r) ms) ++ join ms rs

-- `FIRST_INGESTED_AT_SQL`
abbrev pub first_ingested : Joined → Option String
first_ingested (r, m) = elim r.ingested_at [
  | some t ↦ some t
  | none ↦ elim m [ some x ↦ some x.received_at | none ↦ some r.updated_at ]
]

abbrev is_of : String → Joined → Bool
is_of document (r, m) = elim r.document_id [ none ↦ false | some d ↦ str_eq d document ]

-- a document behind the cursor
abbrev pub is_scanned : String → ResearchRecord → Bool
is_scanned cursor r =
    str_eq r.record_type "document_version"
    && r.is_public
    && elim r.document_id [ none ↦ false | some d ↦ before (codes cursor) (codes d) ]

abbrev pub scan_row : List Joined → String → ScanRow
scan_row rows document =
    let own = filter (is_of document) rows in
    record {
      document_id = document;
      first_ingested_at = least first_ingested own;
      source_id = least (λ j. j.0.source_id) own;
      version_count = length own;
    }

abbrev documents : List ResearchRecord → List String
documents [] = []
documents (r ∷ rs) = elim r.document_id [ none ↦ documents rs | some d ↦ d ∷ documents rs ]

-- ORDER BY 1
abbrev insert_text : String → List String → List String
insert_text d [] = d ∷ []
insert_text d (e ∷ es) = if before (codes d) (codes e) then d ∷ (e ∷ es) else e ∷ insert_text d es

abbrev sort_texts : List String → List String
sort_texts [] = []
sort_texts (d ∷ ds) = insert_text d (sort_texts ds)

module _ {G : Type 0} where
  -- HAVING NOT EXISTS (...)
  abbrev pub is_unmarked : Store G → String → Bool
  is_unmarked s document = elim (lookup document s.retention) [
    | none ↦ true
    | some r ↦ not (is_expired r.status)
  ]

  -- `scanRetentionPage`
  unfoldable pub scan_retention_page : (cursor : String) → (limit : ℕ) → Store G → List ScanRow
  unfolding join
  scan_retention_page cursor limit s =
      let scanned = filter (is_scanned cursor) s.records in
      take limit (
        map (scan_row (join s.messages scanned))
          (sort_texts (filter (is_unmarked s) (distinct (documents scanned)))))

abbrev pub candidate_of : ScanRow → (reason : String) → RetentionCandidate
candidate_of r reason = record {
  document_id = r.document_id;
  source_id = r.source_id;
  first_ingested_at = r.first_ingested_at;
  reason = reason;
  version_count = r.version_count;
}

-- the candidates of one page behind those before; true when the limit is reached
unfoldable pub collect :
    (judge : ScanRow → Option String)
    → (limit : ℕ) → List RetentionCandidate
    → List ScanRow
    → List RetentionCandidate × Bool
collect judge limit cs [] = (cs, false)
collect judge limit cs (r ∷ rs) = elim (judge r) [
  | none ↦ collect judge limit cs rs
  | some reason ↦
      (let more = cs ++ candidate_of r reason ∷ [] in
        elim (leb limit (length more)) [
          | true ↦ (more, true)
          | false ↦ collect judge limit more rs
        ])
]

abbrev pub last_of : String → List ScanRow → String
last_of cursor [] = cursor
last_of cursor (r ∷ rs) = last_of r.document_id rs

module _ {G : Type 0} (judge : ScanRow → Option String) (limit : ℕ) where
  -- the loop over the pages, of which so many are left
  unfoldable pub scan_pages :
      (pages : ℕ)
      → (cursor : String) → List RetentionCandidate
      → (scanned : ℕ) → Prog (Store G) (List RetentionCandidate × ℕ)
  unfolding scan_retention_page collect retention_scan_page
  scan_pages zero cursor cs scanned = done (cs, scanned)
  scan_pages (suc pages) cursor cs scanned = do
    rows ← select (scan_retention_page cursor retention_scan_page)
    let total = scanned + length rows
    let found = collect judge limit cs rows
    when found.1
        then done (found.0, total)
        else when ltb (length rows) retention_scan_page
        then done (found.0, total)
        else scan_pages pages (last_of cursor rows) found.0 total

-- `scanRetentionCandidates`
unfoldable pub scan_retention_candidates :
    {G : Type 0}
    → (date_parse : String → Option ℕ) → (now : ℕ) → (limit : Option ℕ)
    → Prog (Store G) (List RetentionCandidate × ℕ)
unfolding scan_pages retention_expiry_reason retention_cutoff clamp_int retention_scan_max_pages
scan_retention_candidates date_parse now limit =
    scan_pages
      (λ r.
        retention_expiry_reason date_parse r.source_id r.first_ingested_at (retention_cutoff now))
      (clamp_int limit retention_mark_page 1 retention_mark_page_max) retention_scan_max_pages "" []
      0
