-- ===== src/UpdateRepo/Checked.antt =====
-- What the validation of the candidate by `SetSWUpdateRepo` has done when it returns.
use cortx_prvsnr.Prelude.{String, ◌≡◌, ◌<>◌, refl, Bool, false, Option, none, arith, []}
use cortx_prvsnr.Exec.{ok, pure, >>=-eq-ok, lift-eq-ok}
use cortx_prvsnr.Update.Success.{wrapped-ok}
use cortx_prvsnr.UpdateRepo.{
  Ops, Repo, Source, Metadata, undefined, unchanged, remote, local_iso, local_dir,
}
use cortx_prvsnr.UpdateRepo.{source_text, release_of, pillar_value, apply_repo}
use cortx_prvsnr.UpdateRepo.{prepare_repo_for_apply, check_repo_is_valid, get_mount_dir}
use cortx_prvsnr.UpdateRepo.{load_metadata, candidate_of, validate_candidate}
use cortx_prvsnr.UpdateRepo.{is_repo_enabled}

module _ (O : Ops) where
  open O use {World, list_available, load_yaml, apply, copy_to_file_roots}

  -- The repository as it is set: with its release and metadata, and enabled.
  abbrev pub installed : Repo → String → Metadata → Repo
  installed repo release metadata = record repo { release = release; metadata = metadata }

  -- The steps of the body of the validation, when it returns, with the state after each.
  pub record Checked (repo checked : Repo) (w t : World) : Type 0 where
    pub candidate : Repo
    pub dir : String
    pub enabled : Bool
    pub prepared : World
    pub applied : World
    pub listed : World
    pub mounted : World
    pub loaded : World
    pub same : checked ≡ installed repo checked.release checked.metadata
    pub is_candidate : (candidate.release ≡ "candidate") × (candidate.source ≡ repo.source)
    pub prepare_step :
        prepare_repo_for_apply O (candidate_of O repo) false w ≡ (ok candidate, prepared)
    pub apply_step : apply "candidate" (pillar_value candidate) prepared ≡ (ok tt, applied)
    pub available : list_available "sw_update_candidate" applied ≡ (ok tt, listed)
    pub mount_step : get_mount_dir O listed ≡ (ok dir, mounted)
    pub read : load_yaml (dir <> "/candidate/RELEASE.INFO") mounted ≡ (ok checked.metadata, loaded)
    pub named : release_of (source_text repo.source) checked.metadata ≡ ok checked.release
    pub enabled_step : is_repo_enabled O ("sw_update_" <> checked.release) loaded ≡ (ok enabled, t)

  available-ok :
      (source : String) (s t : World)
      → check_repo_is_valid O source "candidate" s ≡ (ok tt, t)
      → list_available "sw_update_candidate" s ≡ (ok tt, t)
  unfolding check_repo_is_valid
  available-ok source s t h = wrapped-ok _ (list_available "sw_update_candidate") s t tt h

  read-ok :
      (source dir : String) (s t : World) (metadata : Metadata)
      → load_metadata O source dir s ≡ (ok metadata, t)
      → load_yaml (dir <> "/candidate/RELEASE.INFO") s ≡ (ok metadata, t)
  unfolding load_metadata
  read-ok source dir s t metadata h = wrapped-ok _ (load_yaml _) s t metadata h

  candidate-same :
      (release : String) (source : Source) (enabled : Option Bool) (metadata : Metadata)
      (s t : World) (r : Repo)
      → let repo : Repo = record {
        release = release;
        source = source;
        enabled = enabled;
        metadata = metadata;
      } in
        prepare_repo_for_apply O repo false s ≡ (ok r, t)
        → (r.release ≡ release) × (r.source ≡ source)
  unfolding prepare_repo_for_apply
  candidate-same release unchanged enabled metadata s t r h = (ground arith, ground arith)
  candidate-same release undefined enabled metadata s t r h = (ground arith, ground arith)
  candidate-same release (remote url) enabled metadata s t r h = (ground arith, ground arith)
  candidate-same release (local_iso path) enabled metadata s t r h =
      let (_, u, _, h₁) = >>=-eq-ok (copy_to_file_roots path (release <> ".iso")) _ s h in
      (ground arith, ground arith)
  candidate-same release (local_dir path) enabled metadata s t r h =
      let (_, u, _, h₁) = >>=-eq-ok (copy_to_file_roots path release) _ s h in
      (ground arith, ground arith)

  applied-ok :
      (candidate : Repo) (s t : World)
      → candidate.release ≡ "candidate"
      → apply_repo O candidate s ≡ (ok tt, t)
      → apply "candidate" (pillar_value candidate) s ≡ (ok tt, t)
  unfolding apply_repo
  applied-ok candidate s t named h = rw named at h

  -- The end of the body.
  assembled :
      (repo checked candidate : Repo) (dir release : String) (metadata : Metadata) (enabled : Bool)
      (w s₁ s₂ s₃ s₄ s₅ s₆ t : World)
      → (candidate.release ≡ "candidate") × (candidate.source ≡ repo.source)
      → prepare_repo_for_apply O (candidate_of O repo) false w ≡ (ok candidate, s₁)
      → apply_repo O candidate s₁ ≡ (ok tt, s₂)
      → check_repo_is_valid O (source_text repo.source) "candidate" s₂ ≡ (ok tt, s₃)
      → get_mount_dir O s₃ ≡ (ok dir, s₄)
      → load_metadata O (source_text repo.source) dir s₄ ≡ (ok metadata, s₅)
      → release_of (source_text repo.source) metadata ≡ ok release
      → is_repo_enabled O ("sw_update_" <> release) s₅ ≡ (ok enabled, s₆)
      → pure (installed repo release metadata) s₆ ≡ (ok checked, t)
      → Checked repo checked w t
  assembled repo checked candidate dir release metadata enabled w s₁ s₂ s₃ s₄ s₅ s₆ t same p₁ a₂ c₃
        m₄ r₅ named e₆ h =
      let is : installed repo release metadata ≡ checked = ground arith in
      let is_t : s₆ ≡ t = ground arith in
      rw (← is, ← is_t)
        (record {
          candidate = candidate;
          dir = dir;
          enabled = enabled;
          prepared = s₁;
          applied = s₂;
          listed = s₃;
          mounted = s₄;
          loaded = s₅;
          same = refl;
          is_candidate = same;
          prepare_step = p₁;
          apply_step = applied-ok candidate s₁ s₂ same.0 a₂;
          available = available-ok (source_text repo.source) s₂ s₃ c₃;
          mount_step = m₄;
          read = read-ok (source_text repo.source) dir s₄ s₅ metadata r₅;
          named = named;
          enabled_step = e₆;
        })

  is_candidate-same :
      (repo candidate : Repo) (s t : World)
      → prepare_repo_for_apply O (candidate_of O repo) false s ≡ (ok candidate, t)
      → (candidate.release ≡ "candidate") × (candidate.source ≡ repo.source)
  unfolding candidate_of
  is_candidate-same repo candidate s t h =
      candidate-same "candidate" repo.source none [] s t candidate h

  pub validate_candidate-ok :
      (repo checked : Repo) (w t : World)
      → validate_candidate O repo w ≡ (ok checked, t)
      → Checked repo checked w t
  unfolding validate_candidate
  validate_candidate-ok repo checked w t h =
      let (candidate, s₁, p₁, h₁) =
        >>=-eq-ok (prepare_repo_for_apply O (candidate_of O repo) false) _ w h in
      let (_, s₂, a₂, h₂) = >>=-eq-ok (apply_repo O candidate) _ s₁ h₁ in
      let (_, s₃, c₃, h₃) =
        >>=-eq-ok (check_repo_is_valid O (source_text repo.source) "candidate") _ s₂ h₂ in
      let (dir, s₄, m₄, h₄) = >>=-eq-ok (get_mount_dir O) _ s₃ h₃ in
      let (metadata, s₅, r₅, h₅) =
        >>=-eq-ok (load_metadata O (source_text repo.source) dir) _ s₄ h₄ in
      let (release, named, h₆) =
        lift-eq-ok (release_of (source_text repo.source) metadata) _ s₅ h₅ in
      let (enabled, s₆, e₆, h₇) = >>=-eq-ok (is_repo_enabled O ("sw_update_" <> release)) _ s₅ h₆ in
      assembled repo checked candidate dir release metadata enabled w s₁ s₂ s₃ s₄ s₅ s₆ t
        (is_candidate-same repo candidate w s₁ p₁) p₁ a₂ c₃ m₄ r₅ named e₆ h₇
