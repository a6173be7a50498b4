-- ===== src/Ingest/Writer.antt =====
-- `BatchWriter` of src/pae/ingest/writer.py. The rows of each table wait in a buffer of its own; the order
-- of the buffers is that of the tables' first rows. A database answers a write with success or failure.
pub mod Conserves
pub mod Flush
use hass_ai.Prelude.{
  ℕ, ◌+◌, String, Bool, true, false, List, [], ◌∷◌, ◌++◌, length, leb, sum_by, str_eq,
  if◌then◌else◌, is_empty,
}

pub record Buffer (R : Type 0) : Type 0 where
  pub table : String
  pub rows : List R

pub record BatchWriter (R : Type 0) : Type 0 where
  pub flush_size : ℕ
  pub buffers : List (Buffer R)

-- The rows that reached a table, in the order in which they were written.
pub record Written (R : Type 0) : Type 0 where
  pub table : String
  pub rows : List R

module _ {R : Type 0} where
  unfoldable pub put_row : String → R → List (Buffer R) → List (Buffer R)
  put_row table row [] = record { table = table; rows = row ∷ [] } ∷ []
  put_row table row (b ∷ bs) =
      let rest = put_row table row bs in
      if str_eq b.table table then record b { rows = b.rows ++ row ∷ [] } ∷ bs else b ∷ rest

  -- BatchWriter.add
  unfoldable pub add : String → R → BatchWriter R → BatchWriter R
  unfolding put_row
  add table row w = record w { buffers = put_row table row w.buffers }

  -- BatchWriter.pending
  unfoldable pub pending : BatchWriter R → ℕ
  pending w = sum_by (λ b. length b.rows) w.buffers

  unfoldable pub needs_flush : BatchWriter R → Bool
  unfolding pending
  needs_flush w = leb w.flush_size (pending w)

  -- One round of the loop in `flush`. The event loop runs other tasks while the INSERT is awaited: those
  -- append the rows `arrived` to the very list that is being written. The INSERT takes the rows from
  -- before; on success the buffer is replaced by an empty list.
  unfoldable pub flush_buffer : Bool → List R → Buffer R → Buffer R × List (Written R)
  flush_buffer succeeds arrived b =
      if is_empty b.rows
      then (record b { rows = b.rows ++ arrived }, [])
      else if succeeds
      then (record b { rows = [] }, record { table = b.table; rows = b.rows } ∷ [])
      else (record b { rows = b.rows ++ arrived }, [])

  -- `flush` where no other task runs between its statements.
  unfoldable pub flush_from :
      (String → List R → Bool) → List (Buffer R) → List (Buffer R) × List (Written R)
  unfolding flush_buffer
  flush_from database [] = ([], [])
  flush_from database (b ∷ bs) =
      let r = flush_buffer (database b.table b.rows) [] b in
      let rest = flush_from database bs in (r.0 ∷ rest.0, r.1 ++ rest.1)

  unfoldable pub flush : (String → List R → Bool) → BatchWriter R → BatchWriter R × List (Written R)
  unfolding flush_from
  flush database w = let r = flush_from database w.buffers in (record w { buffers = r.0 }, r.1)
