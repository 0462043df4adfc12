-- ===== src/UpgradeRepo/Cleanup.antt =====
-- The removal of the candidate repository at the end of `dynamic_validation`.
use cortx_prvsnr.Prelude.{◌≡◌, refl, Bool, false, none, some}
use cortx_prvsnr.Exec.{Result, ok, err, continue, pure, lift}
use cortx_prvsnr.UpgradeRepo.{Repo, Ops, State, on_world}
use cortx_prvsnr.UpgradeRepo.Checks.{is_special}
use cortx_prvsnr.UpgradeRepo.Validation.{IsoInfo, before_try, within_try, cleaned, candidate_of}
use cortx_prvsnr.UpgradeRepo.Validation.{validate_candidate, dynamic_validation}

module _ (O : Ops) (repo : Repo) (dry_run : Bool) where
  open O use {World, apply_repo}

  abbrev pub remove : State World → Result (Unit {0}) × State World
  remove = on_world (apply_repo "candidate" none)

  -- What is left to do when the removal is done.
  returned-state :
      (r : Result IsoInfo) (q : Result (Unit {0}) × State World)
      → (continue (λ info. pure (some info)) (continue (λ _. lift r) q)).1 ≡ q.1
  returned-state (ok info) (ok u, s) = refl
  returned-state (err e) (ok u, s) = refl
  returned-state r (err e, s) = refl

  cleaned-state :
      (q : Result IsoInfo × State World)
      → (continue (λ info. pure (some info)) (cleaned O q)).1 ≡ (remove q.1).1
  unfolding cleaned
  cleaned-state (r, s) = returned-state r (remove s)

  -- Once the checks before it have passed, the validation of the candidate always ends, however it
  -- goes, with the removal of the candidate repository: this is the last thing that is done.
  pub dynamic_validation-cleanup :
      (s v : State World)
      → is_special repo.kind ≡ false
      → before_try O repo dry_run s ≡ (ok tt, v)
      → (dynamic_validation O repo dry_run s).1
        ≡ (remove (validate_candidate O repo (candidate_of O repo) dry_run v).1).1
  unfolding dynamic_validation within_try
  dynamic_validation-cleanup s v plain begun =
      rw (dynamic_validation, plain, begun)
        (cleaned-state (validate_candidate O repo (candidate_of O repo) dry_run v))
