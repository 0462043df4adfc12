-- ===== src/Update/Kinds.antt =====
-- The exceptions that leave the `with` block of `SWUpdate.run`, and the steps that they come from.
use cortx_prvsnr.Prelude.{String, ◌≡◌, ◌≢◌, Bool, true, false, refl, arith, inl, inr}
use cortx_prvsnr.Errors.{Exception}
use cortx_prvsnr.Errors.{cluster_maintenance_enable_error, cluster_maintenance_disable_error}
use cortx_prvsnr.Errors.{sw_stack_update_error, ha_post_update_error, cluster_not_healthy_error}
use cortx_prvsnr.Exec.{Result, ok, err, Exec, raise, handle, ◌>>◌, >>=-eq-err, before_pure-err}
use cortx_prvsnr.Hare.Defs.{consul_export, cluster_maintenance_enable, cluster_maintenance_disable}
use cortx_prvsnr.Hare.Laws.{consul_export-no_fail}
use cortx_prvsnr.Update.{Ops, wrapped, unexpected, enabling_failed}
use cortx_prvsnr.Update.{kind_of, World, enable_maintenance, update_stack, update_within, restart}
use cortx_prvsnr.Update.{export_stage, apply_ha_post_update, healthy, swallowed}
use cortx_prvsnr.Update.Success.{wrapped-ok}

pub wrapped-err :
    {S : Type 0} {A : Type 0} (wrap : Exception → Exception) (m : Exec S A) (s t : S)
    (e : Exception)
    → wrapped wrap m s ≡ (err e, t)
    → (x : Exception) × (wrap x ≡ e) × (m s ≡ (err x, t))
unfolding wrapped
wrapped-err {S = S} {A = A} wrap m s t e h = split (m s) h
  where
    split :
        (r : Result A × S)
        → handle (λ x. raise (wrap x)) r ≡ (err e, t)
        → (x : Exception) × (wrap x ≡ e) × (r ≡ (err x, t))
    split (ok a, u) p = ground arith
    split (err x, u) p = (x, ground arith, ground arith)

module _ (O : Ops) where
  open O use {hare}

  export_stage-no_fail :
      (stage : String) (w t : World O) (e : Exception) → export_stage O stage w ≢ (err e, t)
  unfolding export_stage
  export_stage-no_fail stage w t e h =
      let (out, done) = consul_export-no_fail hare stage w in
      let failed = before_pure-err (consul_export hare stage true) tt w h in ground arith

  restart-no_fail : (b : Bool) (w t : World O) (e : Exception) → restart O b w ≢ (err e, t)
  unfolding restart swallowed
  restart-no_fail false w t e h = ground arith
  restart-no_fail true w t e h = ground arith

  module _ (targets : String) where
    -- The step of the block that raised, after all the steps before it have returned, with the
    -- exception that leaves the block and the state then.
    pub data BrokeAt (entry : World O) : Exception → World O → Type 0 where
      at_enable :
          {x : Exception} {t : World O}
          → cluster_maintenance_enable hare entry ≡ (err x, t)
          → BrokeAt entry (cluster_maintenance_enable_error x) t
      at_stack :
          {x : Exception} {s t : World O}
          → enable_maintenance O entry ≡ (ok tt, s)
          → update_stack O targets s ≡ (err x, t)
          → BrokeAt entry (sw_stack_update_error x) t
      at_disable :
          {x : Exception} {changed : Bool} {s s₁ t : World O}
          → enable_maintenance O entry ≡ (ok tt, s)
          → update_stack O targets s ≡ (ok changed, s₁)
          → cluster_maintenance_disable hare false s₁ ≡ (err x, t)
          → BrokeAt entry (cluster_maintenance_disable_error x) t
      at_ha :
          {x : Exception} {changed : Bool} {out : String} {s s₁ s₂ s₃ t : World O}
          → enable_maintenance O entry ≡ (ok tt, s)
          → update_stack O targets s ≡ (ok changed, s₁)
          → cluster_maintenance_disable hare false s₁ ≡ (ok out, s₂)
          → export_stage O "update-pre-ha-update" s₂ ≡ (ok tt, s₃)
          → apply_ha_post_update O targets s₃ ≡ (err x, t)
          → BrokeAt entry (ha_post_update_error x) t
      at_check :
          {x : Exception} {changed : Bool} {out : String} {s s₁ s₂ s₃ s₄ s₅ t : World O}
          → enable_maintenance O entry ≡ (ok tt, s)
          → update_stack O targets s ≡ (ok changed, s₁)
          → cluster_maintenance_disable hare false s₁ ≡ (ok out, s₂)
          → export_stage O "update-pre-ha-update" s₂ ≡ (ok tt, s₃)
          → apply_ha_post_update O targets s₃ ≡ (ok tt, s₄)
          → export_stage O "update-post-ha-update" s₄ ≡ (ok tt, s₅)
          → healthy O s₅ ≡ (err x, t)
          → BrokeAt entry (cluster_not_healthy_error x) t

    -- From the check of the cluster on, from the update of HA on, and from the end of maintenance on.
    abbrev from_check : Bool → Exec (World O) (Unit {0})
    from_check changed = do
      wrapped cluster_not_healthy_error (healthy O)
      export_stage O "update-post"
      restart O changed

    abbrev from_ha : Bool → Exec (World O) (Unit {0})
    from_ha changed = do
      wrapped ha_post_update_error (apply_ha_post_update O targets)
      export_stage O "update-post-ha-update"
      from_check changed

    abbrev from_disable : Bool → Exec (World O) (Unit {0})
    from_disable changed = do
      wrapped cluster_maintenance_disable_error (cluster_maintenance_disable hare false)
      export_stage O "update-pre-ha-update"
      from_ha changed

    check-err :
        (s t : World O) (e : Exception) (changed : Bool)
        → from_check changed s ≡ (err e, t)
        → wrapped cluster_not_healthy_error (healthy O) s ≡ (err e, t)
    check-err s t e changed h =
        elim (>>=-eq-err (wrapped cluster_not_healthy_error (healthy O)) _ s h) [
          | inl failed ↦ failed
          | inr (_, s₁, checked, h₁) ↦ elim (>>=-eq-err (export_stage O "update-post") _ s₁ h₁) [
            | inl failed ↦ absurd (export_stage-no_fail "update-post" s₁ t e failed)
            | inr (_, s₂, exported, h₂) ↦ absurd (restart-no_fail changed s₂ t e h₂)
          ]
        ]

    module _ (entry t : World O) (e : Exception) where
      enable-BrokeAt : enable_maintenance O entry ≡ (err e, t) → BrokeAt entry e t
      unfolding enable_maintenance
      enable-BrokeAt h =
          let (x, is_e, failed) =
            wrapped-err cluster_maintenance_enable_error (cluster_maintenance_enable hare) entry t e
              (before_pure-err
                (wrapped cluster_maintenance_enable_error (cluster_maintenance_enable hare)) tt
                entry h) in
          rw (← is_e) (at_enable failed)

      ha-BrokeAt :
          (s s₁ s₂ s₃ : World O) (changed : Bool) (out : String)
          → enable_maintenance O entry ≡ (ok tt, s)
          → update_stack O targets s ≡ (ok changed, s₁)
          → cluster_maintenance_disable hare false s₁ ≡ (ok out, s₂)
          → export_stage O "update-pre-ha-update" s₂ ≡ (ok tt, s₃)
          → from_ha changed s₃ ≡ (err e, t)
          → BrokeAt entry e t
      ha-BrokeAt s s₁ s₂ s₃ changed out enabled stacked disabled exported h =
          elim (>>=-eq-err (wrapped ha_post_update_error (apply_ha_post_update O targets)) _ s₃ h) [
            | inl failed ↦
                let (x, is_e, failed₁) = wrapped-err ha_post_update_error _ s₃ t e failed in
                rw (← is_e) (at_ha enabled stacked disabled exported failed₁)
            | inr (_, s₄, applied, h₁) ↦
                elim (>>=-eq-err (export_stage O "update-post-ha-update") _ s₄ h₁) [
                  | inl failed ↦ absurd (export_stage-no_fail "update-post-ha-update" s₄ t e failed)
                  | inr (_, s₅, exported₁, h₂) ↦
                      let (x, is_e, failed) =
                        wrapped-err cluster_not_healthy_error (healthy O) s₅ t e
                          (check-err s₅ t e changed h₂) in
                      rw (← is_e) (
                        at_check enabled stacked disabled exported
                          (wrapped-ok ha_post_update_error (apply_ha_post_update O targets) s₃ s₄ tt
                            applied)
                          exported₁ failed)
                ]
          ]

      disable-BrokeAt :
          (s s₁ : World O) (changed : Bool)
          → enable_maintenance O entry ≡ (ok tt, s)
          → update_stack O targets s ≡ (ok changed, s₁)
          → from_disable changed s₁ ≡ (err e, t)
          → BrokeAt entry e t
      disable-BrokeAt s s₁ changed enabled stacked h =
          elim (>>=-eq-err
            (wrapped cluster_maintenance_disable_error (cluster_maintenance_disable hare false)) _
            s₁ h) [
              | inl failed ↦
                  let (x, is_e, failed₁) =
                    wrapped-err cluster_maintenance_disable_error _ s₁ t e failed in
                  rw (← is_e) (at_disable enabled stacked failed₁)
              | inr (out, s₂, disabled, h₁) ↦
                  elim (>>=-eq-err (export_stage O "update-pre-ha-update") _ s₂ h₁) [
                    | inl failed ↦
                        absurd (export_stage-no_fail "update-pre-ha-update" s₂ t e failed)
                    | inr (_, s₃, exported, h₂) ↦
                        ha-BrokeAt s s₁ s₂ s₃ changed out enabled stacked
                          (wrapped-ok cluster_maintenance_disable_error
                            (cluster_maintenance_disable hare false) s₁ s₂ out disabled)
                          exported h₂
                  ]
            ]

      pub update_within-BrokeAt : update_within O targets entry ≡ (err e, t) → BrokeAt entry e t
      unfolding update_within
      update_within-BrokeAt h = elim (>>=-eq-err (enable_maintenance O) _ entry h) [
        | inl failed ↦ enable-BrokeAt failed
        | inr (_, s, enabled, h₁) ↦
            elim (>>=-eq-err (wrapped sw_stack_update_error (update_stack O targets)) _ s h₁) [
              | inl failed ↦
                  let (x, is_e, failed₁) =
                    wrapped-err sw_stack_update_error (update_stack O targets) s t e failed in
                  rw (← is_e) (at_stack enabled failed₁)
              | inr (changed, s₁, stacked, h₂) ↦
                  disable-BrokeAt s s₁ changed enabled
                    (wrapped-ok sw_stack_update_error (update_stack O targets) s s₁ changed stacked)
                    h₂
            ]
      ]

  -- Whatever breaks an update off between the lookup of the transactions and the end, the handler
  -- knows what to do about it: the warning of an unexpected case is never reached.
  pub update_within-expected :
      (targets : String) (w t : World O) (e : Exception)
      → update_within O targets w ≡ (err e, t)
      → kind_of e ≢ unexpected
  unfolding kind_of
  update_within-expected targets w t e h = split e (update_within-BrokeAt targets w t e h)
    where
      split : (x : Exception) → BrokeAt targets w x t → kind_of x ≢ unexpected
      split x (at_enable failed) k = ground arith
      split x (at_stack _ failed) k = ground arith
      split x (at_disable _ _ failed) k = ground arith
      split x (at_ha _ _ _ _ failed) k = ground arith
      split x (at_check _ _ _ _ _ _ failed) k = ground arith

  -- The kind of the exception tells whether the maintenance mode could not be enabled.
  pub BrokeAt-enable :
      (targets : String) (w t : World O) (e : Exception)
      → BrokeAt targets w e t
      → kind_of e ≡ enabling_failed
      → (x : Exception) × (e ≡ cluster_maintenance_enable_error x)
        × (cluster_maintenance_enable hare w ≡ (err x, t))
  unfolding kind_of
  BrokeAt-enable targets w t e (at_enable {x = x} failed) k = (x, refl, failed)
  BrokeAt-enable targets w t e (at_stack _ failed) k = ground arith
  BrokeAt-enable targets w t e (at_disable _ _ failed) k = ground arith
  BrokeAt-enable targets w t e (at_ha _ _ _ _ failed) k = ground arith
  BrokeAt-enable targets w t e (at_check _ _ _ _ _ _ failed) k = ground arith
