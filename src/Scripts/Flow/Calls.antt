-- ===== src/Scripts/Flow/Calls.antt =====
-- How many calls the script that creates the weather helpers (ha/weather/helpers.py) makes.
use hass_ai.Prelude.{
  ℕ, zero, suc, ◌+◌, ◌≤◌, ◌≡◌, refl, Bool, true, false, Bool-cases, inl, inr, String, Option, none,
  some, List, [], ◌∷◌, ◌++◌, length, length-append, All, elem, arith, if◌then◌else◌,
}
use hass_ai.Scripts.Flow.{
  Helper, Call, list_entries, start_flow, choose_menu, submit_form, abort_flow, FlowType, menu_type,
  form_type, created_type, other_type, FlowReply, Progress, Answers, on_reply, choose, fill, round,
  rounds, step_data, form_errors, drive, drive_flow, create_missing, main,
}

-- What follows a call makes at most `n` more.
abbrev AtMost : ℕ → (FlowReply → List Call → Progress) → Type 0
AtMost n then_ =
    (next : FlowReply) (after : List Call) → length (then_ next after).calls ≤ length after + n

module _ (answer : Answers) (h : Helper) (dry_run : Bool) where
  choose-AtMost :
      (n : ℕ) (m : String) (reply : Option FlowReply) (flow : FlowReply) (calls : List Call)
      (then_ : FlowReply → List Call → Progress)
      → AtMost n then_
      → length
          (on_reply reply flow
            (calls ++ choose_menu flow.flow_id m ∷ [])
            (λ next. then_ next (calls ++ choose_menu flow.flow_id m ∷ []))).calls
        ≤ length calls + suc n
  choose-AtMost n m none flow calls then_ most =
      omega (arith, length-append calls (choose_menu flow.flow_id m ∷ []))
  choose-AtMost n m (some next) flow calls then_ most = omega (
    arith,
    length-append calls (choose_menu flow.flow_id m ∷ []),
    most next (calls ++ choose_menu flow.flow_id m ∷ []),
  )

  fill-AtMost :
      (n : ℕ) (reply : Option FlowReply) (flow : FlowReply) (calls after : List Call)
      (then_ : FlowReply → List Call → Progress)
      → AtMost n then_
      → length after ≡ length calls + 1
      → length
          (on_reply reply flow after (λ next.
            if next.errors
            then record { outcome = form_errors; flow = next; calls = after }
            else then_ next after)).calls
        ≤ length calls + suc n
  fill-AtMost n none flow calls after then_ most e = omega (arith, e)
  fill-AtMost n (some next) flow calls after then_ most e = elim (Bool-cases next.errors) [
    | inl wrong ↦ rw wrong (omega (arith, e))
    | inr fine ↦ rw fine (omega (arith, e, most next after))
  ]

  step-AtMost :
      (n : ℕ) (o : Option String) (dry : Bool) (t : FlowType) (flow : FlowReply) (calls : List Call)
      (then_ : FlowReply → List Call → Progress)
      → AtMost n then_
      → (length (choose answer h dry_run o flow calls then_).calls ≤ length calls + suc n)
        × (length (fill answer h dry_run dry flow calls then_).calls ≤ length calls + suc n)
  step-AtMost n o dry t flow calls then_ most = (chosen o, filled dry)
    where
      chosen :
          (m : Option String)
          → length (choose answer h dry_run m flow calls then_).calls ≤ length calls + suc n
      chosen none = omega arith
      chosen (some m) =
          choose-AtMost n m (answer (calls ++ choose_menu flow.flow_id m ∷ [])) flow calls then_
            most

      filled :
          (b : Bool)
          → length (fill answer h dry_run b flow calls then_).calls ≤ length calls + suc n
      filled true = omega arith
      filled false =
          let call = submit_form flow.flow_id (step_data h flow.step_id) ∷ [] in
          fill-AtMost n (answer (calls ++ call)) flow calls (calls ++ call) then_ most
            (length-append calls call)

  round-AtMost :
      (n : ℕ) (t : FlowType) (flow : FlowReply) (calls : List Call)
      (then_ : FlowReply → List Call → Progress)
      → AtMost n then_
      → length (round answer h dry_run t flow calls then_).calls ≤ length calls + suc n
  round-AtMost n menu_type flow calls then_ most =
      (step-AtMost n h.menu dry_run menu_type flow calls then_ most).0
  round-AtMost n form_type flow calls then_ most =
      (step-AtMost n h.menu dry_run form_type flow calls then_ most).1
  round-AtMost n created_type flow calls then_ most = omega arith
  round-AtMost n (other_type kind) flow calls then_ most = omega arith

  rounds-AtMost :
      (n : ℕ) (flow : FlowReply) (calls : List Call)
      → length (rounds answer h dry_run n flow calls).calls ≤ length calls + n
  unfolding rounds
  rounds-AtMost zero flow calls = omega arith
  rounds-AtMost (suc n) flow calls =
      round-AtMost n flow.flow_type flow calls (λ next after. rounds answer h dry_run n next after)
        (λ next after. rounds-AtMost n next after)

  drive-AtMost :
      (reply : Option FlowReply) (calls : List Call)
      → length (drive answer h dry_run reply calls).1 ≤ length calls + 7
  drive-AtMost none calls = omega arith
  drive-AtMost (some flow) calls =
      aborted dry_run (rounds answer h dry_run 6 flow calls) (length calls)
        (rounds-AtMost 6 flow calls)
    where
      aborted :
          (b : Bool) (p : Progress) (n : ℕ)
          → length p.calls ≤ n + 6
          → length (if b then p.calls ++ abort_flow p.flow.flow_id ∷ [] else p.calls) ≤ n + 7
      aborted true p n most =
          omega (arith, most, length-append p.calls (abort_flow p.flow.flow_id ∷ []))
      aborted false p n most = omega (arith, most)

  -- Whatever Home Assistant answers, a flow is driven with at most eight calls: the start, one for each of the
  -- six rounds, and the abort.
  pub drive_flow-bounded :
      (calls : List Call) → length (drive_flow answer h dry_run calls).1 ≤ length calls + 8
  unfolding drive_flow
  drive_flow-bounded calls =
      let call = start_flow h.handler ∷ [] in
      omega (arith, drive-AtMost (answer (calls ++ call)) (calls ++ call), length-append calls call)

create_missing-none :
    (answer : Answers) (dry_run : Bool) (have : List String) (hs : List Helper) (calls : List Call)
    → All (λ h. elem h.title have ≡ true) hs
    → create_missing answer dry_run have hs calls ≡ calls
unfolding create_missing
create_missing-none answer dry_run have [] calls h = refl
create_missing-none answer dry_run have (x ∷ hs) calls h =
    rw h.0 (create_missing-none answer dry_run have hs calls h.1)

-- If an entry with the title of every helper exists, `main` calls nothing but the list of the entries.
pub main-idempotent :
    (answer : Answers) (dry_run : Bool) (have : List String) (helpers : List Helper)
    → All (λ h. elem h.title have ≡ true) helpers
    → main answer (some have) dry_run helpers ≡ list_entries ∷ []
unfolding main
main-idempotent answer dry_run have helpers h =
    create_missing-none answer dry_run have helpers (list_entries ∷ []) h
