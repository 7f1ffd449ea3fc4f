-- ===== src/Config/Bootstrap/Reports.antt =====
-- Reports to the diagnostics of the bootstrap plan are not taken back.
use veyora.Prelude.{◌≡◌, ◌↔◌, refl, Bool, true, false, not, ◌&&◌, none, List, [], ◌∷◌, arith}
use veyora.Config.Bootstrap.{
  ManagedFeature, UntrustedManagedFeatureDiagnostics, all_reported_available, report_unavailable,
  first_unavailable, DriftField, UntrustedDriftDiagnostics, reported_no_drift, report_drift,
  first_reported_drift,
}

-- The diagnostics after a run of reports.
abbrev pub features_after :
    List ManagedFeature → UntrustedManagedFeatureDiagnostics → UntrustedManagedFeatureDiagnostics
features_after [] d = d
features_after (f ∷ fs) d = features_after fs (report_unavailable d f)

abbrev pub drift_after : List DriftField → UntrustedDriftDiagnostics → UntrustedDriftDiagnostics
drift_after [] d = d
drift_after (f ∷ fs) d = drift_after fs (report_drift d f)

abbrev all_available : UntrustedManagedFeatureDiagnostics → Bool
all_available d =
    d.database_creation && d.schema_creation && d.role_creation && d.default_privileges
    && d.ownership_inspection

first_unavailable_iff :
    (d : UntrustedManagedFeatureDiagnostics)
    → (first_unavailable d ≡ none) ↔ (all_available d ≡ true)
unfolding first_unavailable
first_unavailable_iff d = ground arith

report_unavailable-all_available :
    (d : UntrustedManagedFeatureDiagnostics) (f : ManagedFeature)
    → all_available (report_unavailable d f) ≡ false
unfolding report_unavailable
report_unavailable-all_available d f = ground arith

abbrev no_drift : UntrustedDriftDiagnostics → Bool
no_drift d =
    not d.owner
    && not d.role_attributes
    && not d.grants
    && not d.search_path
    && not d.default_privileges

first_reported_drift_iff :
    (d : UntrustedDriftDiagnostics) → (first_reported_drift d ≡ none) ↔ (no_drift d ≡ true)
unfolding first_reported_drift
first_reported_drift_iff d = ground arith

report_drift-no_drift :
    (d : UntrustedDriftDiagnostics) (f : DriftField) → no_drift (report_drift d f) ≡ false
unfolding report_drift
report_drift-no_drift d f = ground arith

-- Once something has been reported, no later report takes it back.
features_after-reported :
    (fs : List ManagedFeature) (d : UntrustedManagedFeatureDiagnostics)
    → all_available d ≡ false
    → all_available (features_after fs d) ≡ false
features_after-reported [] d h = h
features_after-reported (f ∷ fs) d h =
    features_after-reported fs (report_unavailable d f) (report_unavailable-all_available d f)

drift_after-reported :
    (fs : List DriftField) (d : UntrustedDriftDiagnostics)
    → no_drift d ≡ false
    → no_drift (drift_after fs d) ≡ false
drift_after-reported [] d h = h
drift_after-reported (f ∷ fs) d h =
    drift_after-reported fs (report_drift d f) (report_drift-no_drift d f)

pub features_after_iff :
    (fs : List ManagedFeature)
    → (first_unavailable (features_after fs all_reported_available) ≡ none) ↔ (fs ≡ [])
features_after_iff [] = (λ h. refl, λ h. (first_unavailable_iff all_reported_available).1 refl)
features_after_iff (f ∷ fs) =
    let gone =
      features_after-reported fs (report_unavailable all_reported_available f)
        (report_unavailable-all_available all_reported_available f) in
    (
      λ h.
          let all = (first_unavailable_iff (features_after (f ∷ fs) all_reported_available)).0 h in
          cc,
      λ h. cc,
    )

pub drift_after_iff :
    (fs : List DriftField)
    → (first_reported_drift (drift_after fs reported_no_drift) ≡ none) ↔ (fs ≡ [])
drift_after_iff [] = (λ h. refl, λ h. (first_reported_drift_iff reported_no_drift).1 refl)
drift_after_iff (f ∷ fs) =
    let gone =
      drift_after-reported fs (report_drift reported_no_drift f)
        (report_drift-no_drift reported_no_drift f) in
    (
      λ h. let all = (first_reported_drift_iff (drift_after (f ∷ fs) reported_no_drift)).0 h in cc,
      λ h. cc,
    )
