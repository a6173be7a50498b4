-- ===== src/Ingest/Writer/Conserves.antt =====
-- That a flush keeps every row (`flush` of src/pae/ingest/writer.py).
use hass_ai.Prelude.{
  sym, ap, append-eq-nil, String, ◌≡◌, refl, ◌∙◌, Bool, true, false, List, [], ◌∷◌, ◌++◌, arith,
  str_eq, eq_iff, if◌then◌else◌, append-nil, append_assoc, Bool-cases, inl, inr, any,
}
use hass_ai.Ingest.Writer.{is_empty, flush_buffer, flush_from, Buffer, Written, put_row}
use hass_ai.Prelude.{append-eq-nil, subst}

module _ {R : Type 0} where
  -- The rows that wait for a table, and those that were written to it.
  abbrev pub waiting : String → List (Buffer R) → List R
  waiting table [] = []
  waiting table (b ∷ bs) =
      if str_eq b.table table then b.rows ++ waiting table bs else waiting table bs

  abbrev pub written : String → List (Written R) → List R
  written table [] = []
  written table (w ∷ ws) =
      if str_eq w.table table then w.rows ++ written table ws else written table ws

  abbrev has_table : String → Buffer R → Bool
  has_table table b = str_eq b.table table

  -- A dict has one buffer for a table.
  abbrev pub IsDistinct : List (Buffer R) → Type 0
  IsDistinct [] = Unit
  IsDistinct (b ∷ bs) = (any (has_table b.table) bs ≡ false) × IsDistinct bs

  waiting-absent :
      (table : String) (bs : List (Buffer R))
      → any (has_table table) bs ≡ false
      → waiting table bs ≡ []
  waiting-absent table [] h = refl
  waiting-absent table (b ∷ bs) h = ground (arith, waiting-absent table bs)

  put_row-any :
      (table other : String) (row : R) (bs : List (Buffer R))
      → str_eq table other ≡ false
      → any (has_table other) (put_row table row bs) ≡ any (has_table other) bs
  unfolding put_row
  put_row-any table other row [] h = ground arith
  put_row-any table other row (b ∷ bs) h = ground (arith, put_row-any table other row bs h)

  pub put_row-IsDistinct :
      (table : String) (row : R) (bs : List (Buffer R))
      → IsDistinct bs
      → IsDistinct (put_row table row bs)
  unfolding put_row
  put_row-IsDistinct table row [] h = (refl, tt)
  put_row-IsDistinct table row (b ∷ bs) h = elim (Bool-cases (str_eq b.table table)) [
    | inl same ↦ rw same h
    | inr other ↦ rw other (
      put_row-any table b.table row bs
            (ground (arith, eq_iff b.table table, eq_iff table b.table, other))
          ∙ h.0,
      put_row-IsDistinct table row bs h.1,
    )
  ]

  pub put_row-waiting :
      (table other : String) (row : R) (bs : List (Buffer R))
      → IsDistinct bs
      → waiting other (put_row table row bs)
        ≡ waiting other bs ++ (if str_eq table other then row ∷ [] else [])
  unfolding put_row
  put_row-waiting table other row [] h = ground arith
  put_row-waiting table other row (b ∷ bs) h = elim (Bool-cases (str_eq b.table table)) [
    | inl same ↦ elim (Bool-cases (str_eq table other)) [
      | inl hit ↦
          let absent = waiting-absent other bs (
            subst (λ t. any (has_table t) bs ≡ false)
              ((eq_iff b.table table).0 same ∙ (eq_iff table other).0 hit) h.0) in
          let there : str_eq b.table other ≡ true =
            ground (arith, eq_iff b.table table, eq_iff table other, eq_iff b.table other) in
          rw (same, hit, there, absent, append-nil, append-nil)
      | inr miss ↦
          let away : str_eq b.table other ≡ false =
            ground (arith, eq_iff b.table table, eq_iff table other, eq_iff b.table other) in
          rw (same, miss, away, append-nil)
    ]
    | inr different ↦ elim (Bool-cases (str_eq b.table other)) [
      | inl here ↦ rw (different, here, put_row-waiting table other row bs h.1, append_assoc)
      | inr away ↦ rw (different, away, put_row-waiting table other row bs h.1)
    ]
  ]

  flush_from-any :
      (database : String → List R → Bool) (table : String) (bs : List (Buffer R))
      → any (has_table table) (flush_from database bs).0 ≡ any (has_table table) bs
  unfolding flush_from flush_buffer
  flush_from-any database table [] = refl
  flush_from-any database table (b ∷ bs) = ground (arith, flush_from-any database table bs)

  pub flush_from-IsDistinct :
      (database : String → List R → Bool) (bs : List (Buffer R))
      → IsDistinct bs
      → IsDistinct (flush_from database bs).0
  unfolding flush_from flush_buffer
  flush_from-IsDistinct database [] h = tt
  flush_from-IsDistinct database (b ∷ bs) h = (
    ground (arith, h.0, flush_from-any database b.table bs),
    flush_from-IsDistinct database bs h.1,
  )

  pub written-append :
      (table : String) (xs ys : List (Written R))
      → written table (xs ++ ys) ≡ written table xs ++ written table ys
  written-append table [] ys = refl
  written-append table (x ∷ xs) ys = elim (Bool-cases (str_eq x.table table)) [
    | inl same ↦ rw (same, written-append table xs ys, append_assoc)
    | inr other ↦ rw (other, written-append table xs ys)
  ]

  -- One buffer: what is written and what stays are its rows.
  flush_buffer-conserves :
      (succeeds : Bool) (table : String) (b : Buffer R)
      → str_eq b.table table ≡ true
      → let r = flush_buffer succeeds [] b in
        (written table r.1 ++ r.0.rows ≡ b.rows) × (r.0.table ≡ b.table)
  unfolding flush_buffer
  flush_buffer-conserves succeeds table b h = elim (Bool-cases (is_empty b.rows)) [
    | inl bare ↦ rw (bare, append-nil) (refl, refl)
    | inr full ↦ flush_full succeeds full
  ]
    where
      flush_full :
          (s : Bool)
          → is_empty b.rows ≡ false
          → let r = flush_buffer s [] b in
            (written table r.1 ++ r.0.rows ≡ b.rows) × (r.0.table ≡ b.table)
      flush_full true full = rw (full, h, append-nil, append-nil) (refl, refl)
      flush_full false full = rw (full, append-nil) (refl, refl)

  flush_buffer-other :
      (succeeds : Bool) (table : String) (b : Buffer R)
      → str_eq b.table table ≡ false
      → let r = flush_buffer succeeds [] b in (written table r.1 ≡ []) × (r.0.table ≡ b.table)
  unfolding flush_buffer
  flush_buffer-other succeeds table b h = ground arith

  pub flush_from-conserves :
      (database : String → List R → Bool) (table : String) (bs : List (Buffer R))
      → IsDistinct bs
      → written table (flush_from database bs).1 ++ waiting table (flush_from database bs).0
        ≡ waiting table bs
  unfolding flush_from
  flush_from-conserves database table [] h = refl
  flush_from-conserves database table (b ∷ bs) h =
      let r = flush_buffer (database b.table b.rows) [] b in
      let rest = flush_from database bs in
      let ih = flush_from-conserves database table bs h.1 in
      elim (Bool-cases (str_eq b.table table)) [
        | inl same ↦
            let (own, place) = flush_buffer-conserves (database b.table b.rows) table b same in
            let absent =
              waiting-absent table bs
                (subst (λ t. any (has_table t) bs ≡ false) ((eq_iff b.table table).0 same) h.0) in
            let (w_nil, r_nil) =
              append-eq-nil (written table rest.1) (waiting table rest.0) (ih ∙ absent) in
            let there : str_eq r.0.table table ≡ true = ap (λ t. str_eq t table) place ∙ same in
            rw (written-append table r.1 rest.1, w_nil, there, r_nil, same, absent)
              (ap (λ l. l ++ (r.0.rows ++ [])) (append-nil (written table r.1))
                ∙ (ap (λ l. written table r.1 ++ l) (append-nil r.0.rows)
                    ∙ (own ∙ sym (append-nil b.rows))))
        | inr other ↦
            let (none_written, place) =
              flush_buffer-other (database b.table b.rows) table b other in
            let away : str_eq r.0.table table ≡ false = ap (λ t. str_eq t table) place ∙ other in
            rw (written-append table r.1 rest.1, none_written, away, other) ih
      ]
