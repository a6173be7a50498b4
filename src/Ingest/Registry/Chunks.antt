-- ===== src/Ingest/Registry/Chunks.antt =====
-- The upsert of the registry in chunks (src/pae/ingest/registry.py).
use hass_ai.Prelude.{
  ℕ, zero, suc, ◌≤◌, ◌≡◌, refl, sym, ap, ◌∙◌, inl, inr, false, Bool-cases, String, Option, none,
  some, List, [], ◌∷◌, ◌++◌, length, length-drop, take, drop, take-append-drop, any, arith, str_eq,
  eq_iff, if◌then◌else◌,
}
use hass_ai.Ingest.Registry.{
  RegistryRow, has_id, is_repeated, put, put_all, execute, chunk, upsert_chunks,
}

-- The row of an entity.
unfoldable pub find : String → List RegistryRow → Option RegistryRow
find k [] = none
find k (row ∷ rows) = let rest = find k rows in if has_id k row then some row else rest

-- The abstract upsert: a row of the list wins over one of the table.
abbrev pub overlay : Option RegistryRow → Option RegistryRow → Option RegistryRow
overlay none old = old
overlay (some row) old = some row

-- `put` sets one value of the function.
find-put :
    (k : String) (row : RegistryRow) (table : List RegistryRow)
    → find k (put row table) ≡ (if has_id k row then some row else find k table)
unfolding find put
find-put k row [] = refl
find-put k row (old ∷ table) = elim (Bool-cases (has_id row.entity_id old)) [
  | inl same ↦
      let id : old.entity_id ≡ row.entity_id = (eq_iff old.entity_id row.entity_id).0 same in
      let keyed : has_id k old ≡ has_id k row = ap (λ i. str_eq i k) id in
      rw same (ground (arith, keyed))
  | inr other ↦ elim (Bool-cases (has_id k row)) [
    | inl hit ↦
        let id : row.entity_id ≡ k = (eq_iff row.entity_id k).0 hit in
        let miss : has_id k old ≡ false = sym (ap (λ i. has_id i old) id) ∙ other in
        rw (other, hit, miss)
          (find-put k row table ∙ ap (λ b. if b then some row else find k table) hit)
    | inr miss ↦
        let deeper : find k (put row table) ≡ find k table =
          find-put k row table ∙ ap (λ b. if b then some row else find k table) miss in
        rw (other, miss, deeper)
  ]
]

find-absent :
    (k : String) (rows : List RegistryRow) → any (has_id k) rows ≡ false → find k rows ≡ none
unfolding find
find-absent k [] h = refl
find-absent k (row ∷ rows) h = ground (arith, h, find-absent k rows)

pub find-put_all :
    (k : String) (rows table : List RegistryRow)
    → is_repeated rows ≡ false
    → find k (put_all rows table) ≡ overlay (find k rows) (find k table)
unfolding put_all is_repeated find
find-put_all k [] table h = refl
find-put_all k (row ∷ rows) table h = elim (Bool-cases (has_id k row)) [
  | inl hit ↦
      let id : row.entity_id ≡ k = (eq_iff row.entity_id k).0 hit in
      let alone : any (has_id k) rows ≡ false =
        sym (ap (λ i. any (has_id i) rows) id) ∙ ground (arith, h) in
      let set : find k (put row table) ≡ some row =
        find-put k row table ∙ ap (λ b. if b then some row else find k table) hit in
      let rest = find-put_all k rows (put row table) (ground (arith, h)) in
      let absent = find-absent k rows alone in
      rw hit (rest ∙ ap (λ o. overlay o (find k (put row table))) absent ∙ set)
  | inr miss ↦
      let same : find k (put row table) ≡ find k table =
        find-put k row table ∙ ap (λ b. if b then some row else find k table) miss in
      rw miss (
        find-put_all k rows (put row table) (ground (arith, h))
        ∙ ap (λ o. overlay (find k rows) o) same)
]

put_all-append :
    (rows more table : List RegistryRow)
    → put_all (rows ++ more) table ≡ put_all more (put_all rows table)
unfolding put_all
put_all-append [] more table = refl
put_all-append (row ∷ rows) more table = put_all-append rows more (put row table)

any-take :
    (k : String) (n : ℕ) (rows : List RegistryRow)
    → any (has_id k) rows ≡ false
    → any (has_id k) (take n rows) ≡ false
any-take k zero rows h = refl
any-take k (suc n) [] h = refl
any-take k (suc n) (row ∷ rows) h = ground (arith, h, any-take k n rows)

is_repeated-take :
    (n : ℕ) (rows : List RegistryRow) → is_repeated rows ≡ false → is_repeated (take n rows) ≡ false
unfolding is_repeated
is_repeated-take zero rows h = refl
is_repeated-take (suc n) [] h = refl
is_repeated-take (suc n) (row ∷ rows) h =
    ground (arith, h, any-take row.entity_id n rows, is_repeated-take n rows)

is_repeated-drop :
    (n : ℕ) (rows : List RegistryRow) → is_repeated rows ≡ false → is_repeated (drop n rows) ≡ false
unfolding is_repeated
is_repeated-drop zero rows h = h
is_repeated-drop (suc n) [] h = refl
is_repeated-drop (suc n) (row ∷ rows) h = is_repeated-drop n rows (ground (arith, h))

execute_distinct :
    (rows table : List RegistryRow)
    → is_repeated rows ≡ false
    → execute rows table ≡ some (put_all rows table)
unfolding execute
execute_distinct rows table h = rw h

-- With rows of different keys and enough fuel the chunks do what one statement would.
pub upsert_chunks-put_all :
    (fuel : ℕ) (rows table : List RegistryRow)
    → is_repeated rows ≡ false
    → length rows ≤ fuel
    → upsert_chunks fuel rows table ≡ some (put_all rows table)
unfolding upsert_chunks
upsert_chunks-put_all zero [] table h enough = refl
upsert_chunks-put_all zero (row ∷ rows) table h enough = absurd (omega (arith, enough))
upsert_chunks-put_all (suc fuel) [] table h enough = refl
upsert_chunks-put_all (suc fuel) (row ∷ rows) table h enough =
    let first : is_repeated (take chunk (row ∷ rows)) ≡ false =
      is_repeated-take chunk (row ∷ rows) h in
    let fewer = length-drop chunk (row ∷ rows) in
    let rest =
      upsert_chunks-put_all fuel (drop chunk (row ∷ rows)) (put_all (take chunk (row ∷ rows)) table)
        (is_repeated-drop chunk (row ∷ rows) h) (omega (arith, fewer, enough)) in
    rw (execute_distinct (take chunk (row ∷ rows)) table first, upsert_chunks)
      (rest
        ∙ ap (λ t. some t)
            (sym (put_all-append (take chunk (row ∷ rows)) (drop chunk (row ∷ rows)) table)
              ∙ ap (λ l. put_all l table) (take-append-drop chunk (row ∷ rows))))
