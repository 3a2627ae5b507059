-- ===== src/Db/Refreshing.antt =====
-- What the gateway reads of a feature's settings once a row is written and the maps are refreshed.

use ajah.Prelude.{
  ◌≡◌, refl, subst, ◌&&◌, sym, ap, ◌∙◌, true, false, ◌||◌, String, str_eq, eq_iff, List, [], ◌∷◌,
  ◌++◌, Option, none, some, any, map, if◌then◌else◌, Bool-cases, inl, inr, arith,
}
use ajah.Float.{Float64}
use ajah.Config.{pos}
use ajah.Db.Accounts.{first}
use ajah.Db.Settings.{
  FeatureSetting, Caches, names, load_settings, refresh_cache, threshold_for, webhook_url_for,
  feature_setting_for, rate_limit_rpm_for, alert_email_for, upsert_setting, stored, replace,
}

module _ (f : Float64) where
  -- No two rows have the same name.
  abbrev pub IsTable : List (FeatureSetting f) → Type 0
  IsTable [] = Unit
  IsTable (s ∷ ss) = (any (names f s.feature_name) ss ≡ false) × IsTable ss

  abbrev row_or : {A : Type 0} → (FeatureSetting f → A) → A → Option (FeatureSetting f) → A
  row_or g d none = d
  row_or g d (some s) = g s

  -- What is read of a feature is what its row has; without one the threshold is 1, nothing is limited,
  -- and there is no webhook and no email.
  abbrev pub Reads : Caches f → String → Option (FeatureSetting f) → Type 0
  Reads c feature row =
      (feature_setting_for f c feature ≡ row)
      × (threshold_for f c feature ≡ row_or (λ s. s.cost_alert_threshold_usd) (f.lit 1 0) row)
      × (webhook_url_for f c feature ≡ row_or (λ s. s.webhook_url) "" row)
      × (rate_limit_rpm_for f c feature ≡ row_or (λ s. s.rate_limit_rpm) (pos 0) row)
      × (alert_email_for f c feature ≡ row_or (λ s. s.alert_email_to) "" row)

  Reads-stored :
      (s : FeatureSetting f) (c : Caches f) (feature : String)
      → names f feature s ≡ true
      → Reads c feature none
      → Reads (stored f s c) feature (some s)
  unfolding feature_setting_for threshold_for webhook_url_for rate_limit_rpm_for alert_email_for
  Reads-stored s c feature h r = ground (arith, eq_iff s.webhook_url "")

  Reads-stored_other :
      (s : FeatureSetting f) (c : Caches f) (feature : String) (row : Option (FeatureSetting f))
      → names f feature s ≡ false
      → Reads c feature row
      → Reads (stored f s c) feature row
  unfolding feature_setting_for threshold_for webhook_url_for rate_limit_rpm_for alert_email_for
  Reads-stored_other s c feature row h r = ground arith

  -- Rows of other names leave what is read.
  load_settings-Reads_other :
      (ss : List (FeatureSetting f)) (c : Caches f) (feature : String)
      (row : Option (FeatureSetting f))
      → any (names f feature) ss ≡ false
      → Reads c feature row
      → Reads (load_settings f ss c) feature row
  unfolding load_settings feature_setting_for threshold_for webhook_url_for rate_limit_rpm_for
      alert_email_for
  load_settings-Reads_other [] c feature row h r = r
  load_settings-Reads_other (s ∷ ss) c feature row h r =
      load_settings-Reads_other ss (stored f s c) feature row (ground arith)
        (Reads-stored_other s c feature row (ground arith) r)

  load_settings-Reads :
      (ss : List (FeatureSetting f)) (c : Caches f) (feature : String)
      → IsTable ss
      → Reads c feature none
      → Reads (load_settings f ss c) feature (first (names f feature) ss)
  unfolding load_settings first feature_setting_for threshold_for webhook_url_for rate_limit_rpm_for
      alert_email_for
  load_settings-Reads [] c feature t r = r
  load_settings-Reads (s ∷ ss) c feature t r = elim (Bool-cases (names f feature s)) [
    | inl same ↦
        let here : s.feature_name ≡ feature = ground (arith, eq_iff s.feature_name feature) in
        let row : first (names f feature) (s ∷ ss) ≡ some s = ground arith in
        let others : any (names f feature) ss ≡ false =
          ap (λ n. any (names f n) ss) (sym here) ∙ t.0 in
        subst (Reads (load_settings f (s ∷ ss) c) feature) (sym row) (
          load_settings-Reads_other ss (stored f s c) feature (some s) others
            (Reads-stored s c feature same r))
    | inr other ↦
        let row : first (names f feature) (s ∷ ss) ≡ first (names f feature) ss = ground arith in
        subst (Reads (load_settings f (s ∷ ss) c) feature) (sym row) (
          load_settings-Reads ss (stored f s c) feature t.1
            (Reads-stored_other s c feature none other r))
  ]

  first-replace :
      (s : FeatureSetting f) (ss : List (FeatureSetting f)) (feature : String)
      → first (names f feature) (map (replace f s) ss) ≡ (
          if str_eq s.feature_name feature && any (names f feature) ss
          then some s
          else first (names f feature) ss)
  unfolding first
  first-replace s [] feature = ground arith
  first-replace s (x ∷ xs) feature = ground (
    arith,
    first-replace s xs feature,
    eq_iff s.feature_name feature,
    eq_iff x.feature_name feature,
    eq_iff x.feature_name s.feature_name,
    (λ (a : x.feature_name ≡ s.feature_name) (b : s.feature_name ≡ feature). a ∙ b),
    (λ (a : x.feature_name ≡ feature) (b : s.feature_name ≡ feature). a ∙ sym b),
    (λ (a : x.feature_name ≡ s.feature_name) (b : x.feature_name ≡ feature). sym a ∙ b),
  )

  first-added :
      (s : FeatureSetting f) (ss : List (FeatureSetting f)) (feature : String)
      → any (names f s.feature_name) ss ≡ false
      → first (names f feature) (ss ++ s ∷ [])
        ≡ (if str_eq s.feature_name feature then some s else first (names f feature) ss)
  unfolding first
  first-added s [] feature h = ground arith
  first-added s (x ∷ xs) feature h = ground (
    arith,
    first-added s xs feature,
    eq_iff s.feature_name feature,
    eq_iff x.feature_name feature,
    eq_iff x.feature_name s.feature_name,
    (λ (a : x.feature_name ≡ feature) (b : s.feature_name ≡ feature). a ∙ sym b),
  )

  replace-name : (s x : FeatureSetting f) → (replace f s x).feature_name ≡ x.feature_name
  replace-name s x = ground (
    arith,
    eq_iff x.feature_name s.feature_name,
    (λ (a : x.feature_name ≡ s.feature_name). sym a),
  )

  any-replace :
      (s : FeatureSetting f) (ss : List (FeatureSetting f)) (feature : String)
      → any (names f feature) (map (replace f s) ss) ≡ any (names f feature) ss
  any-replace s [] feature = refl
  any-replace s (x ∷ xs) feature =
      ap (λ n. str_eq n feature || any (names f feature) (map (replace f s) xs)) (replace-name s x)
      ∙ ap (λ b. str_eq x.feature_name feature || b) (any-replace s xs feature)

  IsTable-replace :
      (s : FeatureSetting f) (ss : List (FeatureSetting f))
      → IsTable ss
      → IsTable (map (replace f s) ss)
  IsTable-replace s [] t = tt
  IsTable-replace s (x ∷ xs) t = (
    ap (λ n. any (names f n) (map (replace f s) xs)) (replace-name s x)
        ∙ any-replace s xs x.feature_name
        ∙ t.0,
    IsTable-replace s xs t.1,
  )

  any-added :
      (s : FeatureSetting f) (ss : List (FeatureSetting f)) (feature : String)
      → any (names f feature) (ss ++ s ∷ [])
        ≡ (any (names f feature) ss || str_eq s.feature_name feature)
  any-added s [] feature = ground arith
  any-added s (x ∷ xs) feature = ground (arith, any-added s xs feature)

  IsTable-added :
      (s : FeatureSetting f) (ss : List (FeatureSetting f))
      → any (names f s.feature_name) ss ≡ false
      → IsTable ss
      → IsTable (ss ++ s ∷ [])
  IsTable-added s [] h t = (refl, tt)
  IsTable-added s (x ∷ xs) h t = (
    ground (
      arith,
      any-added s xs x.feature_name,
      eq_iff x.feature_name s.feature_name,
      eq_iff s.feature_name x.feature_name,
      (λ (a : s.feature_name ≡ x.feature_name). sym a),
    ),
    IsTable-added s xs (ground arith) t.1,
  )

  upsert_setting-first :
      (s : FeatureSetting f) (table table' : List (FeatureSetting f)) (feature : String)
      → IsTable table
      → upsert_setting f true s table ≡ some table'
      → IsTable table'
        × (first (names f feature) table'
            ≡ (if str_eq s.feature_name feature then some s else first (names f feature) table))
  unfolding upsert_setting
  upsert_setting-first s table table' feature t h =
      elim (Bool-cases (any (names f s.feature_name) table)) [
        | inl there ↦
            let new : map (replace f s) table ≡ table' = ground arith in
            let agree : str_eq s.feature_name feature ≡ true → any (names f feature) table ≡ true =
              λ e.
                ap (λ n. any (names f n) table) (sym ((eq_iff s.feature_name feature).0 e))
                ∙ there in
            (
              subst IsTable new (IsTable-replace s table t),
              sym (ap (first (names f feature)) new)
                  ∙ first-replace s table feature
                  ∙ ground (arith, agree),
            )
        | inr absent ↦
            let new : table ++ s ∷ [] ≡ table' = ground arith in
            (
              subst IsTable new (IsTable-added s table absent t),
              sym (ap (first (names f feature)) new) ∙ first-added s table feature absent,
            )
      ]

  -- In a table without two rows of one name, a row is written and the maps are refreshed: no two rows
  -- have one name, and what is read of the row's feature is what the row has, whatever the maps were
  -- before; what is read of another feature is what its row has, and without one the threshold is 1,
  -- nothing is limited and there is no webhook and no email.
  pub upsert_setting-Reads :
      (s : FeatureSetting f) (table table' : List (FeatureSetting f)) (c : Caches f)
      (feature : String)
      → IsTable table
      → upsert_setting f true s table ≡ some table'
      → IsTable table'
        × Reads
            (refresh_cache f (some table') c)
            feature
            (if str_eq s.feature_name feature then some s else first (names f feature) table)
  unfolding refresh_cache feature_setting_for threshold_for webhook_url_for rate_limit_rpm_for
      alert_email_for
  upsert_setting-Reads s table table' c feature t h =
      let (kept, row) = upsert_setting-first s table table' feature t h in
      (
        kept,
        subst (Reads (refresh_cache f (some table') c) feature) row (
            load_settings-Reads table'
              (record c {
                thresholds = λ name. none;
                webhooks = λ name. none;
                feature_settings = λ name. none;
              })
              feature kept (refl, refl, refl, refl, refl)),
      )
