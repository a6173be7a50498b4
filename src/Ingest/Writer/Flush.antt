-- ===== src/Ingest/Writer/Flush.antt =====
-- What a flush does to the rows (`flush` of src/pae/ingest/writer.py).
use hass_ai.Prelude.{
  length, length-append, ◌↔◌, ◌⊎◌, false, refl, eq_refl, sym, ap, String, ◌≡◌, ◌∙◌, Bool, true,
  List, [], ◌∷◌, ◌++◌, arith, str_eq, if◌then◌else◌, append-nil, append_assoc, Bool-cases, inl, inr,
}
use hass_ai.Ingest.Writer.{ℕ, flush, BatchWriter, flush_buffer, add, Buffer, Written}
use hass_ai.Ingest.Writer.Conserves.{
  waiting, written, IsDistinct, put_row-IsDistinct, put_row-waiting, flush_from-IsDistinct,
  written-append, flush_from-conserves,
}

-- What the tasks of the ingester do to the writer, one after the other.
pub data Operation (R : Type 0) : Type 0 where
  add_row : (table : String) (row : R) → Operation R
  flush_all : (database : String → List R → Bool) → Operation R

module _ {R : Type 0} where
  -- The writer after the operations, and all that reached the database.
  unfoldable pub perform : List (Operation R) → BatchWriter R → BatchWriter R × List (Written R)
  perform [] w = (w, [])
  perform (add_row table row ∷ ops) w = perform ops (add table row w)
  perform (flush_all database ∷ ops) w =
      let r = flush database w in let later = perform ops r.0 in (later.0, r.1 ++ later.1)

  -- The rows that the operations add to a table, in their order.
  abbrev pub added : String → List (Operation R) → List R
  added table [] = []
  added table (add_row t row ∷ ops) =
      if str_eq t table then row ∷ added table ops else added table ops
  added table (flush_all _ ∷ ops) = added table ops

  add_step :
      (t table : String) (row : R) (ops : List (Operation R)) (w : BatchWriter R)
      → (waiting table w.buffers ++ (if str_eq t table then row ∷ [] else [])) ++ added table ops
        ≡ waiting table w.buffers ++ added table (add_row t row ∷ ops)
  add_step t table row ops w = elim (Bool-cases (str_eq t table)) [
    | inl same ↦ rw (same, append_assoc)
    | inr other ↦ rw (other, append-nil)
  ]

  perform-conserves :
      (table : String) (ops : List (Operation R)) (w : BatchWriter R)
      → IsDistinct w.buffers
      → written table (perform ops w).1 ++ waiting table (perform ops w).0.buffers
        ≡ waiting table w.buffers ++ added table ops
  unfolding perform add flush
  perform-conserves table [] w h = sym (append-nil (waiting table w.buffers))
  perform-conserves table (add_row t row ∷ ops) w h =
      perform-conserves table ops (add t row w) (put_row-IsDistinct t row w.buffers h)
      ∙ (ap (λ l. l ++ added table ops) (put_row-waiting t table row w.buffers h)
          ∙ add_step t table row ops w)
  perform-conserves table (flush_all database ∷ ops) w h =
      let r = flush database w in
      let later = perform ops r.0 in
      rw
        (
          written-append table r.1 later.1,
          append_assoc,
          perform-conserves table ops r.0 (flush_from-IsDistinct database w.buffers h),
          ← append_assoc,
        )
        (ap (λ l. l ++ added table ops) (flush_from-conserves database table w.buffers h))

  -- Over any sequence of additions and flushes that do not overlap, whatever the database answers, the
  -- rows written to a table and then those still waiting for it are all that was added, once each and in
  -- order: an outage loses nothing.
  pub perform_exactly_once :
      (table : String) (ops : List (Operation R)) (size : ℕ)
      → let r = perform ops (record { flush_size = size; buffers = [] }) in
        written table r.1 ++ waiting table r.0.buffers ≡ added table ops
  perform_exactly_once table ops size =
      perform-conserves table ops (record { flush_size = size; buffers = [] }) tt

  append-cancel : (xs ys : List R) → xs ≡ xs ++ ys → ys ≡ []
  append-cancel xs [] h = refl
  append-cancel xs (y ∷ ys) h =
      absurd (omega (arith, ap (λ (l : List R). length l) h, length-append xs (y ∷ ys)))

  -- For every buffer, answer of the database and rows that other tasks add to the buffer while the INSERT is
  -- awaited: the rows written and then those that wait afterwards are all the rows, in order, exactly if no
  -- row was added meanwhile, the INSERT failed or the buffer was empty, where none is made. Else rows are
  -- lost.
  pub flush_buffer-conserves_iff :
      (succeeds : Bool) (b : Buffer R) (arrived : List R)
      → let r = flush_buffer succeeds arrived b in
        (written b.table r.1 ++ r.0.rows ≡ b.rows ++ arrived)
        ↔ ((arrived ≡ []) ⊎ ((succeeds ≡ false) ⊎ (b.rows ≡ [])))
  unfolding flush_buffer
  flush_buffer-conserves_iff succeeds b arrived = by_rows succeeds b.rows
    where
      by_rows :
          (succeeds : Bool) (rows : List R)
          → let r = flush_buffer succeeds arrived (record { table = b.table; rows = rows }) in
            (written b.table r.1 ++ r.0.rows ≡ rows ++ arrived)
            ↔ ((arrived ≡ []) ⊎ ((succeeds ≡ false) ⊎ (rows ≡ [])))
      by_rows succeeds [] = (λ h. inr (inr refl), λ h. refl)
      by_rows false (x ∷ xs) = (λ h. inr (inl refl), λ h. refl)
      by_rows true (x ∷ xs) = (
        λ h. inl (
            append-cancel (x ∷ xs) arrived
              (ground (arith, h, eq_refl b.table, append-nil (x ∷ xs)))),
        λ h. ground (arith, h, eq_refl b.table, append-nil xs, append-nil (x ∷ xs)),
      )
