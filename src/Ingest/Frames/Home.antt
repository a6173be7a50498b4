-- ===== src/Ingest/Frames/Home.antt =====
-- Whom a context frame (src/pae/ingest/service.py) shows at home.
use hass_ai.Prelude.{
  ◌≡◌, refl, sym, ap, ◌∙◌, subst, inl, inr, ◌⊎◌, Option, none, some, Option-cases, List, [], ◌∷◌,
  All, In, String, Dict,
}
use hass_ai.Ha.Rest.{Result, ok, raised, EntityState}
use hass_ai.Ingest.Writer.{BatchWriter, add}
use hass_ai.Ingest.Service.{Row, FrameRow, frame_row, person_object_id}
use hass_ai.Ingest.Frames.{
  Surroundings, add_person, note_person, persons_home, frame_of, context_frame, frame_table,
  write_context_frame, store_frame,
}

module _ (fetch : String → Result (Option EntityState)) where
  home-none : (es : List String) → persons_home fetch es none ≡ none
  unfolding persons_home
  home-none [] = refl
  home-none (e ∷ es) = note_none (fetch e) ∙ home-none es
    where
      note_none :
          (r : Result (Option EntityState))
          → persons_home fetch es (note_person e r none) ≡ persons_home fetch es none
      note_none (raised x) = refl
      note_none (ok none) = refl
      note_none (ok (some s)) = refl

  -- A person of the list that is fetched with a state.
  abbrev pub IsFetched : List String → (String × String) → Type 0
  IsFetched persons entry =
      (e : String) × (s : EntityState) × In e persons
      × (person_object_id e ≡ some entry.0)
      × (fetch e ≡ ok (some s))
      × (s.state ≡ entry.1)

  -- What a round does, where the loop does not raise behind it.
  abbrev Round : String → List String → Dict String → Dict String → Type 0
  Round e es acc home =
      ((fetch e ≡ ok none) × (persons_home fetch es (some acc) ≡ some home))
      ⊎ ((person : String) × (s : EntityState) × (person_object_id e ≡ some person)
          × (fetch e ≡ ok (some s))
          × (persons_home fetch es (some ((person, s.state) ∷ acc)) ≡ some home))

  home_round :
      (e : String) (es : List String) (acc home : Dict String) (r : Result (Option EntityState))
      → fetch e ≡ r
      → persons_home fetch es (note_person e r (some acc)) ≡ some home
      → Round e es acc home
  home_round e es acc home (raised x) known h =
      let gone : ◌≡◌ {A = Option (Dict String)} none (some home) = sym (home-none es) ∙ h in cc
  home_round e es acc home (ok none) known h = inl (known, h)
  home_round e es acc home (ok (some s)) known h = elim (Option-cases (person_object_id e)) [
    | inl dotless ↦
        let gone : ◌≡◌ {A = Option (Dict String)} none (some home) =
          sym (home-none es)
          ∙ ap (λ o. persons_home fetch es (add_person (some acc) o s)) (sym dotless)
          ∙ h in
        cc
    | inr (person, named) ↦ inr (
      person,
      s,
      named,
      known,
      ap (λ o. persons_home fetch es (add_person (some acc) o s)) (sym named) ∙ h,
    )
  ]

  persons_home_lem :
      (persons es : List String) (acc home : Dict String)
      → ((e : String) → In e es → In e persons)
      → All (IsFetched persons) acc
      → persons_home fetch es (some acc) ≡ some home
      → All (IsFetched persons) home
        × ((entry : String × String) → In entry acc ⊎ IsFetched es entry → In entry home)
  unfolding persons_home
  persons_home_lem persons [] acc home sub h e =
      let same : ◌≡◌ {A = Dict String} acc home = cc in
      (
        subst (λ d. All (IsFetched persons) d) same h,
        λ entry m. elim m [
          | inl old ↦ subst (λ d. In entry d) same old
          | inr fetched ↦ absurd fetched.2
        ],
      )
  persons_home_lem persons (p ∷ es) acc home sub h e =
      elim (home_round p es acc home (fetch p) refl e) [
        | inl (missing, later) ↦
            let (sound, complete) =
              persons_home_lem persons es acc home (λ q m. sub q (inr m)) h later in
            (
              sound,
              λ entry m. elim m [
                | inl old ↦ complete entry (inl old)
                | inr (q, s, inl first, named, found, shown) ↦
                    let clash : ◌≡◌ {A = Result (Option EntityState)} (ok none) (ok (some s)) =
                      sym missing ∙ ap fetch (sym first) ∙ found in
                    cc
                | inr (q, s, inr listed, named, found, shown) ↦
                    complete entry (inr (q, s, listed, named, found, shown))
              ],
            )
        | inr (person, s, named, found, later) ↦
            let (sound, complete) =
              persons_home_lem persons es ((person, s.state) ∷ acc) home (λ q m. sub q (inr m))
                ((p, s, sub p (inl refl), named, found, refl), h) later in
            (
              sound,
              λ entry m. elim m [
                | inl old ↦ complete entry (inl (inr old))
                | inr (q, t, inl first, named_q, found_q, shown) ↦
                    let names : ◌≡◌ {A = Option String} (some entry.0) (some person) =
                      sym named_q ∙ ap person_object_id first ∙ named in
                    let states : ◌≡◌ {A = Result (Option EntityState)} (ok (some t)) (ok (some s)) =
                      sym found_q ∙ ap fetch first ∙ found in
                    let name : entry.0 ≡ person = cc in
                    let state : entry.1 ≡ s.state =
                      let same : t ≡ s = cc in sym shown ∙ ap (λ (x : EntityState). x.state) same in
                    complete entry
                      (inl (inl (ap (λ x. (x, entry.1)) name ∙ ap (λ y. (person, y)) state)))
                | inr (q, t, inr listed, named_q, found_q, shown) ↦
                    complete entry (inr (q, t, listed, named_q, found_q, shown))
              ],
            )
      ]

abbrev home_of : Option FrameRow → Dict String
home_of none = []
home_of (some row) = row.persons_home

frame_home :
    (w : Surroundings) (o : Option (Dict String)) (sun temp : Result (Option EntityState))
    (row : FrameRow)
    → frame_of w o sun temp ≡ some row
    → o ≡ some row.persons_home
frame_home w none sun temp row e = cc
frame_home w (some home) (raised x) temp row e = cc
frame_home w (some home) (ok sun) (raised x) row e = cc
frame_home w (some home) (ok sun) (ok temp) row e = ap (λ d. some d) (ap home_of e)

-- A round of the loop of context frames leaves the buffer as it is, or adds one row to the table of the
-- frames whose `persons_home` holds the persons of the list that have a state, each with that state, and no
-- one else. A request that raises, or a person without a dot, never leaves half of a frame.
pub context_frame_whole :
    (w : Surroundings) (persons : List String) (writer : BatchWriter Row)
    → (write_context_frame w persons writer ≡ writer)
      ⊎ ((row : FrameRow) × (write_context_frame w persons writer
            ≡ add frame_table (frame_row row) writer)
          × All (IsFetched w.fetch persons) row.persons_home
          × ((entry : String × String)
              → IsFetched w.fetch persons entry
              → In entry row.persons_home))
unfolding write_context_frame context_frame
context_frame_whole w persons writer = elim (Option-cases (context_frame w persons)) [
  | inl failed ↦ inl (ap (λ o. store_frame o writer) failed)
  | inr (row, framed) ↦
      let home =
        frame_home w (persons_home w.fetch persons (some [])) (w.fetch "sun.sun")
          (w.fetch w.outside_temp_entity) row framed in
      let (sound, complete) =
        persons_home_lem w.fetch persons persons [] row.persons_home (λ e m. m) tt home in
      inr (row, ap (λ o. store_frame o writer) framed, sound, λ entry m. complete entry (inr m))
]
