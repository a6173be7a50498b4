-- ===== src/Scripts/Rows.antt =====
-- The rows of can lights behind the tablet's slider: ha/basement_tablet/entities.py, and the two automations
-- of ha/basement_tablet/helpers.py as the actions and the template that they hold say. A light's state is
-- whether it is on.
use hass_ai.Prelude.{
  ℕ, zero, suc, ◌-◌, ◌≤◌, ◌≡◌, refl, arith, String, Bool, ◌&&◌, List, [], ◌∷◌, ◌++◌, all, nat_eq,
  elem, leb, if◌then◌else◌,
}

-- A row of ROWS with its number, front (1) to rear (4).
pub record LightRow : Type 0 where
  pub row : ℕ
  pub entities : List String

-- The entities of a row in ROWS.
abbrev row_entities : ℕ → List String
row_entities r =
    if nat_eq r 1
    then "light.0xc890a81f69ed0000" ∷ "light.0xc890a81f577b0000" ∷ "light.right_row_1_front" ∷ []
    else if nat_eq r 2
    then "light.0xc890a81eb5df0000" ∷ "light.0xc890a81f6ff30000" ∷ "light.right_row_2_3" ∷ []
    else if nat_eq r 3
    then "light.left_row_3_3" ∷ "light.right_row_3_3" ∷ []
    else "light.left_rear_row_3" ∷ "light.0xc890a81f5a530000" ∷ "light.0xc890a81ed77e0000" ∷ []

abbrev light_row : ℕ → LightRow
light_row r = record { row = r; entities = row_entities r }

-- ROWS
abbrev pub rows : List LightRow
rows = light_row 1 ∷ light_row 2 ∷ light_row 3 ∷ light_row 4 ∷ []

abbrev all_entities : List LightRow → List String
all_entities [] = []
all_entities (r ∷ rs) = r.entities ++ all_entities rs

-- ALL_ROW_LIGHTS
abbrev pub all_row_lights : List String
all_row_lights = all_entities rows

abbrev pub row_is_on : ℕ → ℕ → Bool
row_is_on value row = leb (5 - row) value

-- homeassistant.turn_on and turn_off of a list of targets.
abbrev pub turn : Bool → List String → (String → Bool) → String → Bool
turn on targets states e = if elem e targets then on else states e

-- The action of `apply_automation` for a row: turned on where the slider reaches the threshold 5 - row, else
-- turned off.
abbrev apply_row : ℕ → LightRow → (String → Bool) → String → Bool
apply_row value r states = turn (leb (5 - r.row) value) r.entities states

abbrev apply_rows : ℕ → List LightRow → (String → Bool) → String → Bool
apply_rows value [] states = states
apply_rows value (r ∷ rs) states = apply_rows value rs (apply_row value r states)

-- apply_automation
unfoldable pub apply_slider : ℕ → (String → Bool) → String → Bool
apply_slider value states = apply_rows value rows states

-- row_on_jinja
abbrev pub row_on : ℕ → (String → Bool) → Bool
row_on r states = all states (row_entities r)

-- What the template of `value_jinja` renders, which `sync_automation` sets the slider to.
unfoldable pub rendered_value : (String → Bool) → ℕ
rendered_value states =
    let r1 = row_on 1 states in
    let r2 = row_on 2 states in
    let r3 = row_on 3 states in
    let r4 = row_on 4 states in
    if r1 && (r2 && (r3 && r4))
    then 4
    else if r2 && (r3 && r4)
    then 3
    else if r3 && r4
    then 2
    else if r4
    then 1
    else 0

-- For every value of the slider, 0 to 4, and all states of the lights before: once the rows are switched as
-- the slider says, the template renders that value again.
pub rendered_value-apply_slider :
    (value : ℕ) (states : String → Bool)
    → value ≤ 4
    → rendered_value (apply_slider value states) ≡ value
unfolding rendered_value apply_slider
rendered_value-apply_slider zero states h = refl
rendered_value-apply_slider (suc zero) states h = refl
rendered_value-apply_slider (suc (suc zero)) states h = refl
rendered_value-apply_slider (suc (suc (suc zero))) states h = refl
rendered_value-apply_slider (suc (suc (suc (suc zero)))) states h = refl
rendered_value-apply_slider (suc (suc (suc (suc (suc n))))) states h = absurd (omega (arith, h))
