-- ===== src/Scripts/Deploy/Placed.antt =====
-- Where the scripts that upload the dashboards (ha/weather/deploy_dashboard.py and the same of
-- ha/basement_tablet) save a config.
use hass_ai.Prelude.{
  subst, ℕ, String, Bool, true, false, Bool-cases, inl, inr, Option, none, some, List, [], ◌∷◌,
  elem, All, ◌≡◌, refl, arith, nat_eq, eq_refl,
}
use hass_ai.Db.Models.{Json}
use hass_ai.Scripts.Tablet.{Message, auth_ok, other_message, result, await_result}
use hass_ai.Scripts.Deploy.{
  Sent, auth, list_dashboards, create_dashboard, save_config, after_create, after_dashboards,
  deploy,
}

-- A list of dashboards that names none but those that are there.
abbrev pub IsTrue : List String → Message → Type 0
IsTrue there (result id success urls) = (u : String) → elem u urls ≡ true → elem u there ≡ true
IsTrue there _ = Unit

-- Each config is saved under a dashboard that is there by then.
abbrev pub IsPlaced : List String → List Sent → Type 0
IsPlaced there [] = Unit
IsPlaced there (auth ∷ sent) = IsPlaced there sent
IsPlaced there (list_dashboards ∷ sent) = IsPlaced there sent
IsPlaced there (create_dashboard u ∷ sent) = IsPlaced (u ∷ there) sent
IsPlaced there (save_config u config ∷ sent) = (elem u there ≡ true) × IsPlaced there sent

await_result-IsTrue :
    (n : ℕ) (there : List String) (ms : List Message) (urls : List String) (rest : List Message)
    → All (IsTrue there) ms
    → await_result n ms ≡ some (urls, rest)
    → (u : String) → elem u urls ≡ true
    → elem u there ≡ true
unfolding await_result
await_result-IsTrue n there [] urls rest honest h = cc
await_result-IsTrue n there (auth_ok ∷ ms) urls rest honest h =
    await_result-IsTrue n there ms urls rest honest.1 h
await_result-IsTrue n there (other_message ∷ ms) urls rest honest h =
    await_result-IsTrue n there ms urls rest honest.1 h
await_result-IsTrue n there (result id success named ∷ ms) urls rest honest h =
    elim (Bool-cases (nat_eq id n)) [
      | inl own ↦ elim (Bool-cases success) [
        | inl done_ ↦
            let same : some (named, ms) ≡ some (urls, rest) = rw (own, done_) at h in
            let names : named ≡ urls = cc in
            subst (λ l. (u : String) → elem u l ≡ true → elem u there ≡ true) names honest.0
        | inr refused ↦ absurd (ground (arith, rw (own, refused) at h))
      ]
      | inr other ↦ await_result-IsTrue n there ms urls rest honest.1 (rw other at h)
    ]

after_create-IsPlaced :
    (there : List String) (url : String) (config : Json) (o : Option (List String × List Message))
    → IsPlaced there (after_create url config o)
after_create-IsPlaced there url config none = tt
after_create-IsPlaced there url config (some r) = (rw (eq_refl url) refl, tt)

after_dashboards-IsPlaced :
    (there : List String) (dry_run : Bool) (url : String) (config : Json)
    (o : Option (List String × List Message))
    → ((urls : List String) (rest : List Message)
        → o ≡ some (urls, rest)
        → elem url urls ≡ true
        → elem url there ≡ true)
    → IsPlaced there (after_dashboards dry_run url config o)
after_dashboards-IsPlaced there dry_run url config none honest = tt
after_dashboards-IsPlaced there true url config (some (urls, ms)) honest = tt
after_dashboards-IsPlaced there false url config (some (urls, ms)) honest =
    elim (Bool-cases (elem url urls)) [
      | inl listed ↦ rw listed (honest urls ms refl listed, tt)
      | inr missing ↦ rw missing (after_create-IsPlaced there url config (await_result 2 ms))
    ]

-- If Home Assistant's lists name no dashboard that is not there, a config is saved only under a dashboard that is
-- there or was created before by the same run, whatever else is delivered.
pub deploy-IsPlaced :
    (there : List String) (dry_run : Bool) (url : String) (config : Json) (ms : List Message)
    → All (IsTrue there) ms
    → IsPlaced there (deploy dry_run url config (some ms))
unfolding deploy
deploy-IsPlaced there dry_run url config [] honest = tt
deploy-IsPlaced there dry_run url config (m ∷ []) honest = tt
deploy-IsPlaced there dry_run url config (m ∷ auth_ok ∷ ms) honest =
    after_dashboards-IsPlaced there dry_run url config (await_result 1 ms)
      (λ urls rest e listed. await_result-IsTrue 1 there ms urls rest honest.1.1 e url listed)
deploy-IsPlaced there dry_run url config (m ∷ other_message ∷ ms) honest = tt
deploy-IsPlaced there dry_run url config (m ∷ result id success urls ∷ ms) honest = tt
