-- ===== src/Audit/Log/Verified.antt =====
-- The log that `record` has written, as `verify_chain` reads it.
use agent_db.Base.{
  ℕ, suc, ◌≡◌, refl, subst, sym, ◌∙◌, ap, true, false, inl, inr, some, none, List, [], ◌∷◌, ◌++◌,
  ◌==◌, nat_eq, text_eq, option_eq, ==_self, !=_self, length, arith, Bool-cases,
}
use mathlib.Core.List.{append_assoc, append-nil}
use native.Mathlib.Decide.{ℕ_discrete}
use agent_db.Error.{ok, Result-cases}
use agent_db.Engine.{parse_engine-engine_str, parse_kind-kind_str}
use agent_db.Operations.Model.{Uuid, DateTime}
use agent_db.Audit.Chain.{Digests, compute_hash}
use agent_db.Audit.Log.{
  RecordArgs, AuditEntry, AuditRow, tail_hash, select_audit, has_audit_id, row_to_audit,
  read_entries, entry_of, row_of, record_entry, fields_of_entry, verify_entries_from,
  verify_entries, verify_chain,
}

-- A call of `record`, with the id that it draws and the time that it reads.
pub record Recording : Type 0 where
  pub id : Uuid
  pub ts : DateTime
  pub args : RecordArgs

module _ (digests : Digests) where
  -- The table after calls of `record`, the last call first.
  abbrev pub recorded : List Recording → List AuditRow
  recorded [] = []
  recorded (r ∷ rs) = (record_entry digests r.id r.ts r.args (recorded rs)).0

  read_last :
      (rows : List AuditRow) (row : AuditRow) {es : List AuditEntry} {e : AuditEntry}
      → read_entries rows ≡ ok es
      → row_to_audit row ≡ ok e
      → read_entries (rows ++ (row ∷ [])) ≡ ok (es ++ (e ∷ []))
  unfolding read_entries
  read_last [] row h f = ground arith
  read_last (first ∷ rows) row {es} {e} h f = elim (Result-cases (row_to_audit first)) [
    | inl (x, g) ↦ elim (Result-cases (read_entries rows)) [
      | inl (xs, k) ↦ let l = read_last rows row {es = xs} {e = e} k f in ground arith
      | inr (y, k) ↦ absurd (ground arith)
    ]
    | inr (y, g) ↦ absurd (ground arith)
  ]

  row_to_audit-row_of : (e : AuditEntry) → row_to_audit (row_of digests e) ≡ ok e
  unfolding row_to_audit
  row_to_audit-row_of e = rw (parse_engine-engine_str e.engine, parse_kind-kind_str e.kind)

  -- The rows of a connection read, and pass up to where the next row links.
  record Passing (connection_id : Uuid) (rows : List AuditRow) : Type 0 where
    entries : List AuditEntry
    reads : read_entries (select_audit connection_id rows) ≡ ok entries
    passes :
        (tail : List AuditEntry)
        → verify_entries_from digests 0 none (entries ++ tail)
          ≡ verify_entries_from digests (length entries) (tail_hash connection_id rows) tail

  verify_step :
      (i : ℕ) (e : AuditEntry) (tail : List AuditEntry)
      → compute_hash digests e.prev_hash (fields_of_entry e) ≡ e.hash
      → verify_entries_from digests i e.prev_hash (e ∷ tail)
        ≡ verify_entries_from digests (suc i) (some e.hash) tail
  unfolding verify_entries_from
  verify_step i e tail h = ground (arith, h, !=_self e.prev_hash, !=_self e.hash)

  length_last : (es : List AuditEntry) (e : AuditEntry) → length (es ++ (e ∷ [])) ≡ suc (length es)
  length_last [] e = refl
  length_last (x ∷ es) e = ap suc (length_last es e)

  extend_own :
      (r : Recording) (rows : List AuditRow)
      → Passing r.args.connection_id rows
      → Passing r.args.connection_id (
          row_of digests (entry_of digests r.id r.ts r.args (tail_hash r.args.connection_id rows))
          ∷ rows)
  unfolding select_audit tail_hash
  extend_own r rows p =
      let c = r.args.connection_id in
      let e = entry_of digests r.id r.ts r.args (tail_hash c rows) in
      record {
        entries = p.entries ++ (e ∷ []);
        reads = rw (==_self c) (
            read_last (select_audit c rows) (row_of digests e) {es = p.entries} {e = e} p.reads
              (row_to_audit-row_of e));
        passes = λ tail.
            rw (==_self c, length_last p.entries e)
              (ap (verify_entries_from digests 0 none) (append_assoc p.entries (e ∷ []) tail)
                ∙ p.passes (e ∷ tail)
                ∙ verify_step (length p.entries) e tail refl);
      }

  extend :
      (r : Recording) (rows : List AuditRow)
      → ((c : Uuid) → Passing c rows)
      → (c : Uuid)
      → Passing c (
          row_of digests (entry_of digests r.id r.ts r.args (tail_hash r.args.connection_id rows))
          ∷ rows)
  unfolding select_audit tail_hash
  extend r rows before c =
      let e = entry_of digests r.id r.ts r.args (tail_hash r.args.connection_id rows) in
      elim (ℕ_discrete r.args.connection_id c) [
        | yes own ↦
            subst (λ d. Passing d (row_of digests e ∷ rows)) own
              (extend_own r rows (before r.args.connection_id))
        | no other ↦
            let p = before c in
            let apart : (r.args.connection_id == c) ≡ false = ground arith in
            record {
              entries = p.entries;
              reads = rw apart p.reads;
              passes = λ tail. rw apart (p.passes tail);
            }
      ]

  record_entry-Passing :
      (r : Recording) (rows : List AuditRow)
      → ((c : Uuid) → Passing c rows)
      → (c : Uuid) → Passing c (record_entry digests r.id r.ts r.args rows).0
  unfolding record_entry
  record_entry-Passing r rows before c = elim (Bool-cases (has_audit_id r.id rows)) [
    | inl taken ↦ rw (taken, record_entry) (before c)
    | inr free ↦ rw (free, record_entry) (extend r rows before c)
  ]

  recorded-Passing : (rs : List Recording) (c : Uuid) → Passing c (recorded rs)
  unfolding read_entries select_audit tail_hash
  recorded-Passing [] c = record { entries = []; reads = refl; passes = λ tail. refl }
  recorded-Passing (r ∷ rs) c = record_entry-Passing r (recorded rs) (recorded-Passing rs) c

  -- Whatever has been recorded, in whatever order and for whatever connections, `verify_chain` finds
  -- no broken row.
  pub verify_chain-recorded :
      (rs : List Recording) (connection_id : Uuid)
      → verify_chain digests connection_id (recorded rs) ≡ ok (true, none)
  unfolding verify_chain verify_entries verify_entries_from
  verify_chain-recorded rs connection_id =
      let p = recorded-Passing rs connection_id in
      let whole = ap (verify_entries_from digests 0 none) (sym (append-nil p.entries)) in
      rw (p.reads) (ap ok (whole ∙ p.passes []))
