-- ===== src/Ingest/Registry/Mirror.antt =====
-- The stored registry (src/pae/ingest/registry.py) as a function from entity ids to rows.
use hass_ai.Prelude.{
  ℕ, ◌≡◌, refl, sym, ap, ◌∙◌, subst, inl, inr, Bool, true, false, ◌||◌, Bool-cases, String, some,
  List, [], ◌∷◌, length, any, In, arith, str_eq, eq_iff, if◌then◌else◌,
}
use hass_ai.Ingest.Registry.{
  EntityEntry, DeviceEntry, AreaEntry, RegistryRow, row_of, build_registry_rows, has_id,
  is_repeated, put_all, upsert_registry,
}
use hass_ai.Ingest.Registry.Chunks.{find, overlay, find-put_all, upsert_chunks-put_all}

-- If no entity id stands twice in the rows, the upsert succeeds whatever the number of chunks, and as a
-- function from entity ids to rows the table is the old one overlaid with the rows.
pub upsert_registry-overlay :
    (rows table : List RegistryRow)
    → is_repeated rows ≡ false
    → (after : List RegistryRow) × (upsert_registry rows table ≡ some after)
      × ((k : String) → find k after ≡ overlay (find k rows) (find k table))
unfolding upsert_registry
upsert_registry-overlay rows table h = (
  put_all rows table,
  upsert_chunks-put_all (length rows) rows table h (omega arith),
  λ k. find-put_all k rows table h,
)

-- Two entities have the same id.
abbrev pub is_ambiguous : List EntityEntry → Bool
is_ambiguous [] = false
is_ambiguous (e ∷ es) = any (λ f. str_eq f.entity_id e.entity_id) es || is_ambiguous es

module _ (devices : List DeviceEntry) (areas : List AreaEntry) (now : ℕ) where
  any-rows :
      (k : String) (es : List EntityEntry)
      → any (has_id k) (build_registry_rows es devices areas now)
        ≡ any (λ f. str_eq f.entity_id k) es
  unfolding row_of
  any-rows k [] = refl
  any-rows k (e ∷ es) = ap (λ b. str_eq e.entity_id k || b) (any-rows k es)

  is_repeated-rows :
      (es : List EntityEntry)
      → is_ambiguous es ≡ false
      → is_repeated (build_registry_rows es devices areas now) ≡ false
  unfolding is_repeated row_of
  is_repeated-rows [] h = refl
  is_repeated-rows (e ∷ es) h = ground (arith, h, any-rows e.entity_id es, is_repeated-rows es)

  any-In :
      (e : EntityEntry) (es : List EntityEntry)
      → In e es
      → any (λ f. str_eq f.entity_id e.entity_id) es ≡ true
  any-In e [] m = absurd m
  any-In e (x ∷ es) (inl p) =
      let id : x.entity_id ≡ e.entity_id = ap (λ (f : EntityEntry). f.entity_id) (sym p) in
      ground (arith, eq_iff x.entity_id e.entity_id, id)
  any-In e (x ∷ es) (inr m) = ground (arith, any-In e es m)

  find-rows :
      (e : EntityEntry) (es : List EntityEntry)
      → In e es
      → is_ambiguous es ≡ false
      → find e.entity_id (build_registry_rows es devices areas now)
        ≡ some (row_of devices areas now e)
  unfolding find row_of
  find-rows e [] m h = absurd m
  find-rows e (x ∷ es) (inl p) h =
      subst
        (λ z.
          find e.entity_id (build_registry_rows (z ∷ es) devices areas now)
          ≡ some (row_of devices areas now e))
        p
        (let same : str_eq e.entity_id e.entity_id ≡ true =
            (eq_iff e.entity_id e.entity_id).1 refl in
          ap
            (λ b.
              if b
              then some (row_of devices areas now e)
              else find e.entity_id (build_registry_rows es devices areas now))
            same)
  find-rows e (x ∷ es) (inr m) h = elim (Bool-cases (str_eq x.entity_id e.entity_id)) [
    | inl same ↦
        let id : x.entity_id ≡ e.entity_id = (eq_iff x.entity_id e.entity_id).0 same in
        let there : any (λ f. str_eq f.entity_id x.entity_id) es ≡ true =
          ap (λ i. any (λ f. str_eq f.entity_id i) es) id ∙ any-In e es m in
        absurd (ground (arith, there, h))
    | inr other ↦
        ap
          (λ b.
            if b
            then some (row_of devices areas now x)
            else find e.entity_id (build_registry_rows es devices areas now))
          other
        ∙ find-rows e es m (ground (arith, h))
  ]

  -- If the fetched entities have different ids, the rows of all of them are stored, and each entity is found
  -- under its id with the row that was built for it, in place of an older one.
  pub refresh_found :
      (es : List EntityEntry) (table : List RegistryRow)
      → is_ambiguous es ≡ false
      → (after : List RegistryRow) × (upsert_registry
            (build_registry_rows es devices areas now)
            table
          ≡ some after)
        × ((e : EntityEntry) → In e es → find e.entity_id after ≡ some (row_of devices areas now e))
  refresh_found es table h =
      let (after, stored, view) =
        upsert_registry-overlay (build_registry_rows es devices areas now) table
          (is_repeated-rows es h) in
      (
        after,
        stored,
        λ e m. view e.entity_id ∙ ap (λ o. overlay o (find e.entity_id table)) (find-rows e es m h),
      )
