-- ===== src/Database/History/Pages.antt =====
-- What a query of the history answers (portus-window/src/database/service.rs).
use mathlib.Core.Path.{subst}
use portus_window.Base.{
  ℕ, suc, ◌+◌, ◌≤◌, ◌<◌, ◌≡◌, refl, ◌∙◌, sym, ap, ◌⊎◌, inl, inr, true, false, Option, some, List,
  [], ◌∷◌, arith, Bool-cases, Result, ok, err, ◌>>=◌, bind-ok, ok_injective, Text, ltb, ltb→le,
  ltb→lt, length, get_elem?, get_elem?-take, take-take, length-take-le, take, retain, retain_taken,
  retain_dropped, retain_nil,
}
use portus_window.Protocol.Limits.{max_history_result_bytes}
use portus_window.Protocol.Frame.{Json, Bytes}
use portus_window.Protocol.History.{HistoricalWindow, HistoryResult}
use portus_window.Database.Rows.{Codecs, Row, Faults, Statement, Stored, exec, stored}
use portus_window.Database.Sessions.Effects.{exec-ok}
use portus_window.Database.Worker.{DbWorker, attempt}
use portus_window.Database.History.Newest.{AreNewest, closed_rows-AreNewest}
use portus_window.Database.History.{
  max_history_scan_rows, raw_to_historical, closed_rows, is_wanted, pushed, consider, round, scan,
  lowered, history,
}

module _ (c : Codecs) (lower : Text → Text) (json : Json HistoricalWindow) where
  -- All rows read, without a limit.
  abbrev pub read_all : List (Text × Row) → Stored (List HistoricalWindow)
  read_all [] = ok []
  read_all (raw ∷ rows) =
      raw_to_historical c raw >>= λ entry. read_all rows >>= λ entries. ok (entry ∷ entries)

  abbrev size_of : Result Text Bytes → ℕ
  size_of (ok b) = length b
  size_of (err e) = 0

  abbrev pub total_bytes : List HistoricalWindow → ℕ
  total_bytes [] = 0
  total_bytes (entry ∷ entries) = size_of (json.to_vec entry) + total_bytes entries

  -- Why a page ends where more rows are: it has read as many as it may, or the entry of the next
  -- row is wanted and does not fit.
  abbrev pub IsCut : Option Text → ℕ → ℕ → ℕ → List (Text × Row) → List HistoricalWindow → Type 0
  IsCut query scanned bytes seen rows entries =
      (raw : Text × Row) × (get_elem? seen rows ≡ some raw)
      × ((scanned + seen ≡ max_history_scan_rows)
          ⊎ ((entry : HistoricalWindow) × (raw_to_historical c raw ≡ ok entry)
              × (is_wanted c lower json query entry ≡ true)
              × (max_history_result_bytes
                  < bytes + (total_bytes entries + size_of (json.to_vec entry)))))

  -- The entries are those of the first rows that are wanted, and only if all rows are among these,
  -- nothing is reported as missing.
  pub record IsPage (query : Option Text) (scanned bytes : ℕ) (rows : List (Text × Row))
      (r : HistoryResult) : Type 0 where
    pub seen : ℕ
    pub all : List HistoricalWindow
    pub read : read_all (take seen rows) ≡ ok all
    pub wanted : r.entries ≡ retain (is_wanted c lower json query) all
    pub complete : r.truncated ≡ false → length rows ≤ seen
    pub cut : r.truncated ≡ true → IsCut query scanned bytes seen rows r.entries
    pub few_rows : scanned + seen ≤ max_history_scan_rows
    pub few_bytes : bytes + total_bytes r.entries ≤ max_history_result_bytes

  module _ (faults : Faults) (query : Option Text) where
    abbrev cut_short : HistoryResult
    cut_short = record { entries = []; truncated = true }

    -- An entry that is not wanted, one that does not fit, and one that does.
    abbrev IsConsidered :
        ℕ
        → HistoricalWindow
        → Stored HistoryResult
        → (ℕ → Stored HistoryResult)
        → HistoryResult
        → Type 0
    IsConsidered bytes entry skipped added r =
        ((r ≡ cut_short)
          × (is_wanted c lower json query entry ≡ true)
          × (max_history_result_bytes < bytes + size_of (json.to_vec entry)))
        ⊎ (((is_wanted c lower json query entry ≡ false) × (skipped ≡ ok r))
            ⊎ ((b : Bytes) × (rest : HistoryResult) × (is_wanted c lower json query entry ≡ true)
                × (json.to_vec entry ≡ ok b)
                × (bytes + length b ≤ max_history_result_bytes)
                × (added (length b) ≡ ok rest)
                × (r ≡ record rest { entries = entry ∷ rest.entries })))

    consider-IsConsidered :
        (bytes : ℕ) (entry : HistoricalWindow) (skipped : Stored HistoryResult)
        (added : ℕ → Stored HistoryResult) (r : HistoryResult)
        → consider c lower json faults query bytes entry skipped added ≡ ok r
        → IsConsidered bytes entry skipped added r
    unfolding consider
    consider-IsConsidered bytes entry skipped added r h =
        elim (Bool-cases (is_wanted c lower json query entry)) [
          | inr no_match ↦ inr (inl (no_match, rw (no_match, consider) at h))
          | inl match ↦
              let (b, e, h1) =
                bind-ok (stored (json.to_vec entry)) _ _ (rw (match, consider) at h) in
              elim (Bool-cases (ltb max_history_result_bytes (bytes + length b))) [
                | inl over ↦ inl (
                  sym (ok_injective (rw over at h1)),
                  match,
                  rw (stored-ok (json.to_vec entry) b e)
                      (ltb→lt max_history_result_bytes (bytes + length b) over),
                )
                | inr fits ↦
                    let (rest, q, p) = pushed-ok entry (added (length b)) r (rw fits at h1) in
                    inr (
                      inr (
                        b,
                        rest,
                        match,
                        stored-ok (json.to_vec entry) b e,
                        ltb→le max_history_result_bytes (bytes + length b) fits,
                        q,
                        p,
                      ))
              ]
        ]
      where
        stored-ok : (x : Result Text Bytes) (b : Bytes) → stored x ≡ ok b → x ≡ ok b
        stored-ok (ok a) b q = rw (ok_injective q) refl
        stored-ok (err m) b q = absurd cc

        pushed-ok :
            (entry : HistoricalWindow) (x : Stored HistoryResult) (r : HistoryResult)
            → pushed c lower json entry x ≡ ok r
            → (rest : HistoryResult) × (x ≡ ok rest)
              × (r ≡ record rest { entries = entry ∷ rest.entries })
        pushed-ok entry (ok rest) r q = (rest, refl, sym (ok_injective q))
        pushed-ok entry (err m) r q = absurd cc

    round-ok :
        (scanned bytes : ℕ) (raw : Text × Row) (skipped : Stored HistoryResult)
        (added : ℕ → Stored HistoryResult) (r : HistoryResult)
        → round c lower json faults query scanned bytes raw skipped added ≡ ok r
        → ((r ≡ cut_short) × (max_history_scan_rows < scanned + 1))
          ⊎ ((entry : HistoricalWindow) × (raw_to_historical c raw ≡ ok entry)
              × (scanned + 1 ≤ max_history_scan_rows)
              × IsConsidered bytes entry skipped added r)
    unfolding round
    round-ok scanned bytes raw skipped added r h =
        elim (Bool-cases (ltb max_history_scan_rows (scanned + 1))) [
          | inl over ↦
              inl
                (sym (ok_injective (rw over at h)), ltb→lt max_history_scan_rows (scanned + 1) over)
          | inr fits ↦
              let (row, fetched, h1) =
                bind-ok (exec (faults (Statement.fetch scanned)) raw) _ _ (rw fits at h) in
              let (entry, e, h2) = bind-ok (raw_to_historical c row) _ _ h1 in
              inr (
                entry,
                ap (raw_to_historical c)
                      (exec-ok (faults (Statement.fetch scanned)) raw row fetched)
                    ∙ e,
                ltb→le max_history_scan_rows (scanned + 1) fits,
                consider-IsConsidered bytes entry skipped added r h2,
              )
        ]

    empty-IsPage :
        (scanned bytes : ℕ) (rows : List (Text × Row))
        → scanned ≤ max_history_scan_rows
        → bytes ≤ max_history_result_bytes
        → IsCut query scanned bytes 0 rows []
        → IsPage query scanned bytes rows cut_short
    empty-IsPage scanned bytes rows few fit cut = record {
      seen = 0;
      all = [];
      read = refl;
      wanted = sym (retain_nil (is_wanted c lower json query));
      complete = λ never. absurd (contradiction never);
      cut = λ t. cut;
      few_rows = omega arith;
      few_bytes = omega arith;
    }
      where
        contradiction : true ≡ false → ⊥
        contradiction e = cc

    -- A page that ends behind one row more.
    IsCut-later :
        (scanned bytes bytes' seen : ℕ) (raw : Text × Row) (rows : List (Text × Row))
        (entries entries' : List HistoricalWindow)
        → bytes + total_bytes entries ≡ bytes' + total_bytes entries'
        → IsCut query (scanned + 1) bytes seen rows entries
        → IsCut query scanned bytes' (suc seen) (raw ∷ rows) entries'
    IsCut-later scanned bytes bytes' seen raw rows entries entries' same (last, there, inl full) =
        (last, there, inl (omega (arith, full)))
    IsCut-later scanned bytes bytes' seen raw rows entries entries' same
          (last, there, inr (entry, e, match, over)) =
        (last, there, inr (entry, e, match, omega (arith, same, over)))

    scan-IsPage :
        (scanned bytes : ℕ) (rows : List (Text × Row)) (r : HistoryResult)
        → scan c lower json faults query scanned bytes rows ≡ ok r
        → scanned ≤ max_history_scan_rows
        → bytes ≤ max_history_result_bytes
        → IsPage query scanned bytes rows r
    unfolding scan
    scan-IsPage scanned bytes [] r h few fit =
        subst (IsPage query scanned bytes []) (ok_injective h) (record {
          seen = 0;
          all = [];
          read = refl;
          wanted = sym (retain_nil (is_wanted c lower json query));
          complete = λ done. omega arith;
          cut = λ never. absurd (contradiction never);
          few_rows = omega arith;
          few_bytes = omega arith;
        })
      where
        contradiction : false ≡ true → ⊥
        contradiction e = cc
    scan-IsPage scanned bytes (raw ∷ rows) r h few fit =
        elim (round-ok scanned bytes raw (scan c lower json faults query (scanned + 1) bytes rows)
          (λ n. scan c lower json faults query (scanned + 1) (bytes + n) rows) r h) [
            | inl (cut, full) ↦ subst (IsPage query scanned bytes (raw ∷ rows)) (sym cut) (
                empty-IsPage scanned bytes (raw ∷ rows) few fit
                  (raw, refl, inl (omega (arith, full, few))))
            | inr (entry, e, more, considered) ↦ elim considered [
              | inl (cut, match, over) ↦ subst (IsPage query scanned bytes (raw ∷ rows)) (sym cut) (
                  empty-IsPage scanned bytes (raw ∷ rows) few fit
                    (raw, refl, inr (entry, e, match, omega (arith, over))))
              | inr (inl (no_match, q)) ↦
                  let p = scan-IsPage (scanned + 1) bytes rows r q more fit in
                  record {
                    seen = suc p.seen;
                    all = entry ∷ p.all;
                    read = rw (e, ◌>>=◌) (rw (p.read, ◌>>=◌) refl);
                    wanted =
                        p.wanted
                        ∙ sym (retain_dropped (is_wanted c lower json query) entry p.all no_match);
                    complete = λ done. omega (arith, p.complete done);
                    cut = λ t.
                        IsCut-later scanned bytes bytes p.seen raw rows r.entries r.entries refl
                          (p.cut t);
                    few_rows = omega (arith, p.few_rows);
                    few_bytes = p.few_bytes;
                  }
              | inr (inr (b, rest, match, written, fits, q, same)) ↦
                  let p = scan-IsPage (scanned + 1) (bytes + length b) rows rest q more fits in
                  subst (IsPage query scanned bytes (raw ∷ rows)) (sym same) (record {
                    seen = suc p.seen;
                    all = entry ∷ p.all;
                    read = rw (e, ◌>>=◌) (rw (p.read, ◌>>=◌) refl);
                    wanted =
                        ap (◌∷◌ entry) p.wanted
                        ∙ sym (retain_taken (is_wanted c lower json query) entry p.all match);
                    complete = λ done. omega (arith, p.complete done);
                    cut = λ t.
                        IsCut-later scanned (bytes + length b) bytes p.seen raw rows rest.entries
                          (entry ∷ rest.entries) (rw written (omega arith)) (p.cut t);
                    few_rows = omega (arith, p.few_rows);
                    few_bytes = rw written (omega (arith, p.few_bytes));
                  })
            ]
          ]

  -- A query that is answered reads the newest of the closed sessions, at most 10000: the first of a
  -- list that has each of their rows once and in which none stands behind a row that was closed
  -- before it. Its entries are those of the rows read that match, in that order, at most 48 KiB in
  -- JSON. It reports what is missing:
  -- unless it is marked as truncated, it has read every closed session, and if it is, there is one
  -- more, and it has read 10000, or the next one matches and its entry does not fit.
  pub history-IsPage :
      (faults : Faults) (query : Option Text) (w : DbWorker) (r : HistoryResult)
      → history c lower json faults query w ≡ ok r
      → AreNewest w.sessions (closed_rows w.sessions)
        × (n : ℕ) × (all : List HistoricalWindow) × (read_all (take n (closed_rows w.sessions))
            ≡ ok all)
        × (r.entries ≡ retain (is_wanted c lower json (lowered c lower json query)) all)
        × (r.truncated ≡ false → length (closed_rows w.sessions) ≤ n)
        × (r.truncated ≡ true
            → IsCut (lowered c lower json query) 0 0 n (closed_rows w.sessions) r.entries)
        × (n ≤ max_history_scan_rows)
        × (total_bytes r.entries ≤ max_history_result_bytes)
  unfolding history
  history-IsPage faults query w r h =
      let (_, _, scanned) = bind-ok (attempt (faults Statement.prepare)) _ _ h in
      let rows = closed_rows w.sessions in
      let p =
        scan-IsPage faults (lowered c lower json query) 0 0 (take (max_history_scan_rows + 1) rows)
          r scanned (omega arith) (omega arith) in
      let few : p.seen ≤ max_history_scan_rows = omega (arith, p.few_rows) in
      (
        closed_rows-AreNewest w.sessions,
        p.seen,
        p.all,
        ap read_all (sym (take-take p.seen (max_history_scan_rows + 1) rows (omega arith)))
            ∙ p.read,
        p.wanted,
        λ done.
            length-take-le p.seen (max_history_scan_rows + 1) rows (p.complete done) (omega arith),
        λ t.
            let (raw, there, why) = p.cut t in
            (raw, get_elem?-take p.seen (max_history_scan_rows + 1) rows raw there, why),
        few,
        omega (arith, p.few_bytes),
      )
