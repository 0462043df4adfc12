-- ===== src/UpdateRepo/Laws.antt =====
-- What `SetSWUpdateRepo` has done when it returns.
use cortx_prvsnr.Prelude.{String, ◌≡◌, ◌<>◌, refl, Bool, true, false, Option, some, arith}
use cortx_prvsnr.Exec.{Result, ok, lift, pure, >>=-eq-ok}
use cortx_prvsnr.UpdateRepo.{
  Ops, Repo, Source, Metadata, as_it_is, undefined, unchanged, remote, local_iso, local_dir,
}
use cortx_prvsnr.UpdateRepo.{is_special, pillar_value, apply_repo}
use cortx_prvsnr.UpdateRepo.{prepare_repo_for_apply}
use cortx_prvsnr.UpdateRepo.{validate_candidate, cleaned}
use cortx_prvsnr.UpdateRepo.{dynamic_validation, run_repo, set_repo, is_repo_enabled}
use cortx_prvsnr.UpdateRepo.{does_repo_exist, remove_enabled}
use cortx_prvsnr.UpdateRepo.Checked.{Checked, validate_candidate-ok}

module _ (O : Ops) where
  open O use {World, list_available, load_yaml, apply, copy_to_file_roots}

  -- The steps of the run: an enabled repository of the release is removed first, and the files of a
  -- local source are copied.
  pub record Run (repo : Repo) (w t : World) : Type 0 where
    pub is_enabled : Bool
    pub looked : World
    pub cleared : World
    pub left : World
    pub enabled_step : is_repo_enabled O ("sw_update_" <> repo.release) w ≡ (ok is_enabled, looked)
    pub remove_step : remove_enabled O repo is_enabled looked ≡ (ok tt, cleared)
    pub prepare_step : prepare_repo_for_apply O repo true cleared ≡ (ok repo, left)
    pub last : apply repo.release (pillar_value repo) left ≡ (ok tt, t)

  -- What a set that returns has done: the validation of the candidate, its removal from the pillar,
  -- and the run with the release and the metadata that were found.
  pub record Installed (repo : Repo) (metadata : Metadata) (w t : World) : Type 0 where
    pub checked : Repo
    pub found : Bool
    pub entry : World
    pub body : World
    pub after : World
    pub is_metadata : checked.metadata ≡ metadata
    pub exist_step : does_repo_exist O "sw_update_candidate" w ≡ (ok found, entry)
    pub check : Checked O repo checked entry body
    pub removed : apply "candidate" (as_it_is undefined) body ≡ (ok tt, after)
    pub run : Run checked after t

  -- The removal was done, whatever it was to be followed by.
  cleaned-ok :
      (q : Result Repo × World) (checked : Repo) (t : World)
      → cleaned O q ≡ (ok checked, t)
      → (v : World) × (q ≡ (ok checked, v))
        × (apply "candidate" (as_it_is undefined) v ≡ (ok tt, t))
  unfolding cleaned
  cleaned-ok (r, w) checked t h =
      let (_, s, done, h₁) = >>=-eq-ok (apply "candidate" (as_it_is undefined)) (λ _. lift r) w h in
      let is : r ≡ ok checked = ground arith in
      let is_t : s ≡ t = ground arith in (w, rw is refl, rw is_t at done)

  prepared-same :
      (release : String) (source : Source) (enabled : Option Bool) (metadata : Metadata)
      (s t : World) (r : Repo)
      → let repo : Repo = record {
        release = release;
        source = source;
        enabled = enabled;
        metadata = metadata;
      } in
        prepare_repo_for_apply O repo true s ≡ (ok r, t) → r ≡ repo
  unfolding prepare_repo_for_apply
  prepared-same release unchanged enabled metadata s t r h = ground arith
  prepared-same release undefined enabled metadata s t r h = ground arith
  prepared-same release (remote url) enabled metadata s t r h = ground arith
  prepared-same release (local_iso path) enabled metadata s t r h =
      let (_, u, _, h₁) = >>=-eq-ok (copy_to_file_roots path (release <> ".iso")) _ s h in
      ground arith
  prepared-same release (local_dir path) enabled metadata s t r h =
      let (_, u, _, h₁) = >>=-eq-ok (copy_to_file_roots path release) _ s h in ground arith

  ran :
      (repo prepared : Repo) (enabled : Bool) (metadata : Metadata) (w s₁ s₂ s₃ s₄ t : World)
      → is_repo_enabled O ("sw_update_" <> repo.release) w ≡ (ok enabled, s₁)
      → remove_enabled O repo enabled s₁ ≡ (ok tt, s₂)
      → prepare_repo_for_apply O repo true s₂ ≡ (ok prepared, s₃)
      → apply_repo O prepared s₃ ≡ (ok tt, s₄)
      → prepared ≡ repo
      → pure prepared.metadata s₄ ≡ (ok metadata, t)
      → Run repo w t × (repo.metadata ≡ metadata)
  unfolding apply_repo
  ran repo prepared enabled metadata w s₁ s₂ s₃ s₄ t e₁ r₂ p₃ a₄ same h =
      let is_metadata : prepared.metadata ≡ metadata = ground arith in
      let is_t : s₄ ≡ t = ground arith in
      let applied : apply repo.release (pillar_value repo) s₃ ≡ (ok tt, s₄) = rw same at a₄ in
      (
        record {
          is_enabled = enabled;
          looked = s₁;
          cleared = s₂;
          left = s₃;
          enabled_step = e₁;
          remove_step = r₂;
          prepare_step = rw same at p₃;
          last = rw is_t at applied;
        },
        rw same at is_metadata,
      )

  run_repo-Run :
      (repo : Repo) (w t : World) (metadata : Metadata)
      → run_repo O repo w ≡ (ok metadata, t)
      → Run repo w t × (repo.metadata ≡ metadata)
  unfolding run_repo
  run_repo-Run repo w t metadata h =
      let (enabled, s₁, e₁, h₁) =
        >>=-eq-ok (is_repo_enabled O ("sw_update_" <> repo.release)) _ w h in
      let (_, s₂, r₂, h₂) = >>=-eq-ok (remove_enabled O repo enabled) _ s₁ h₁ in
      let (prepared, s₃, p₃, h₃) = >>=-eq-ok (prepare_repo_for_apply O repo true) _ s₂ h₂ in
      let (_, s₄, a₄, h₄) = >>=-eq-ok (apply_repo O prepared) _ s₃ h₃ in
      ran repo prepared enabled metadata w s₁ s₂ s₃ s₄ t e₁ r₂ p₃ a₄
        (prepared-same repo.release repo.source repo.enabled repo.metadata s₂ s₃ prepared p₃) h₄

  set-Installed :
      (repo valid checked : Repo) (exists : Bool) (given res : Option Metadata)
      (metadata : Metadata) (w entry body after s₁ s₂ t : World)
      → does_repo_exist O "sw_update_candidate" w ≡ (ok exists, entry)
      → Checked O repo valid entry body
      → apply "candidate" (as_it_is undefined) body ≡ (ok tt, after)
      → pure {A = Option Metadata × Repo} (some valid.metadata, valid) after
        ≡ (ok (given, checked), s₁)
      → run_repo O checked s₁ ≡ (ok metadata, s₂)
      → pure {A = Option Metadata} (some metadata) s₂ ≡ (ok res, t)
      → (m : Metadata) × (res ≡ some m) × Installed repo m w t
  set-Installed repo valid checked exists given res metadata w entry body after s₁ s₂ t looked check
        removed back run end =
      let is_checked : valid ≡ checked = ground arith in
      let is_after : after ≡ s₁ = ground arith in
      let is_t : s₂ ≡ t = ground arith in
      let is_res : res ≡ some metadata = ground arith in
      let (steps, is_metadata) = run_repo-Run checked s₁ s₂ metadata run in
      (
        metadata,
        is_res,
        record {
          checked = checked;
          found = exists;
          entry = entry;
          body = body;
          after = s₁;
          is_metadata = is_metadata;
          exist_step = looked;
          check = rw is_checked at check;
          removed = rw is_after at removed;
          run = rw is_t at steps;
        },
      )

  -- A set of a repository that is no dry run and returns, for a source that is no special value:
  -- the candidate with the source of the repository was prepared and set in the pillar, and was
  -- then available to yum; the metadata came from its directory under the mount directory of the
  -- pillar, and names the release; the candidate was removed from the pillar; and the last step,
  -- after the removal of an enabled repository of that release and the copy of local files, was to
  -- set the repository under that release.
  pub set_repo-Installed :
      (repo : Repo) (w t : World) (res : Option Metadata)
      → is_special repo.source ≡ false
      → set_repo O false repo w ≡ (ok res, t)
      → (metadata : Metadata) × (res ≡ some metadata) × Installed repo metadata w t
  unfolding set_repo dynamic_validation
  set_repo-Installed repo w t res plain h =
      let ((given, checked), s₁, done, h₁) = >>=-eq-ok (dynamic_validation O repo) _ w h in
      let (metadata, s₂, done₁, h₂) = >>=-eq-ok (run_repo O checked) _ s₁ h₁ in
      let (exists, entry, looked, h₃) =
        >>=-eq-ok (does_repo_exist O "sw_update_candidate") _ w (rw plain at done) in
      let (valid, after, clean, h₄) =
        >>=-eq-ok (λ v. cleaned O (validate_candidate O repo v)) _ entry h₃ in
      let (body, validated, removed) =
        cleaned-ok (validate_candidate O repo entry) valid after clean in
      set-Installed repo valid checked exists given res metadata w entry body after s₁ s₂ t looked
        (validate_candidate-ok O repo valid entry body validated) removed h₄ done₁ h₂
