-- ===== src/Salt/Results/Laws.antt =====
-- Which targets are listed as failed.
use cortx_prvsnr.Prelude.{String, ◌≡◌, ◌↔◌, ◌⊎◌, inl, inr, refl, ap, true, false}
use cortx_prvsnr.Prelude.{Bool-cases, arith, ◌==◌, eq_iff}
use cortx_prvsnr.Exec.{ok, ok_injective}
use cortx_prvsnr.Fallible.{>>=-ok}
use cortx_prvsnr.Json.{Json, null, boolean, number, text, array, object, Fields, end, field}
use cortx_prvsnr.Json.{contains_key, truthy, is_none}
use cortx_prvsnr.Json.Laws.{contains_key-put}
use cortx_prvsnr.Salt.Results.Failed.{HasField, here, later}
use cortx_prvsnr.Salt.Results.Failed.{Tells, answer, Failed, lost}
use cortx_prvsnr.Salt.Results.{Parsed, Read}
use cortx_prvsnr.Salt.Results.{failure_of, noted, ret_of, read_job, read_jobs, client_result}
use cortx_prvsnr.Salt.Results.Tells.{tells_of, failure-Tells}

noted-contains :
    (target key : String) (fails : Json) (failed : Fields)
    → (contains_key key (noted target fails failed) ≡ true)
      ↔ ((contains_key key failed ≡ true) ⊎ ((target ≡ key) × (truthy fails ≡ true)))
unfolding noted
noted-contains target key fails failed =
    ground (arith, eq_iff target key, contains_key-put target key fails failed)

kept :
    {fun target key : String} {v : Json} {before after : Fields}
    → before ≡ after
    → (Failed fun v → true ≡ false)
    → (contains_key key after ≡ true)
      ↔ ((contains_key key before ≡ true) ⊎ ((target ≡ key) × Failed fun v))
kept same never =
    rw (← same) (λ p. inl p, λ q. elim q [ inl p ↦ p | inr f ↦ ground (arith, never f.1) ])

-- A return of `None` tells nothing.
tells_none : {fun : String} {ret : Json} → is_none ret ≡ true → Tells fun ret → true ≡ false
unfolding is_none truthy
tells_none {ret = null} n (answer other said) = ground arith
tells_none {ret = boolean b} n t = ground arith
tells_none {ret = number m} n t = ground arith
tells_none {ret = text s} n t = ground arith
tells_none {ret = array vs} n t = ground arith
tells_none {ret = object fs} n t = ground arith

no_return :
    {fun : String} {job : Fields}
    → is_none (ret_of job) ≡ true
    → Failed fun (object job)
    → true ≡ false
no_return n f = tells_none n (tells_of f)

-- One more target: its failures are noted, and the others stay.
read_job-failed :
    (fun target key : String) (v : Json) (r next : Read)
    → read_job fun target v r ≡ ok next
    → (contains_key key next.failed ≡ true)
      ↔ ((contains_key key r.failed ≡ true) ⊎ ((target ≡ key) × Failed fun v))
unfolding read_job
read_job-failed fun target key (object job) r next h = elim (Bool-cases (is_none (ret_of job))) [
  | inl none ↦ kept (ap (λ (x : Read). x.failed) (ok_injective (rw none at h))) (no_return none)
  | inr there ↦
      let (fails, is_fails, h₁) = >>=-ok (failure_of fun job (ret_of job)) _ next (rw there at h) in
      let same = ap (λ (x : Read). x.failed) (ok_injective h₁) in
      let noted_is = noted-contains target key fails r.failed in
      let told_is = failure-Tells fun job fails is_fails in
      rw (← same) (
        λ p. elim (noted_is.0 p) [ inl q ↦ inl q | inr (e, t) ↦ inr (e, told_is.0 t) ],
        λ p. elim p [ inl q ↦ noted_is.1 (inl q) | inr (e, f) ↦ noted_is.1 (inr (e, told_is.1 f)) ],
      )
]
read_job-failed fun target key (boolean false) r next h =
    let same = ap (λ (x : Read). x.failed) (ok_injective h) in
    let added = contains_key-put target key (text "no connection to minion") r.failed in
    rw (← same, added)
      (
        λ p. elim (Bool-cases (target == key)) [
          | inl at ↦ inr ((eq_iff target key).0 at, lost)
          | inr other ↦ inl (rw other at p)
        ],
        λ q. elim q [
          | inl p ↦ ground (arith, p)
          | inr (e, f) ↦ let at : (target == key) ≡ true = (eq_iff target key).1 e in rw at refl
        ],
      )
read_job-failed fun target key (boolean true) r next h =
    kept (ap (λ (x : Read). x.failed) (ok_injective h)) (λ f. elim f [ ])
read_job-failed fun target key null r next h =
    kept (ap (λ (x : Read). x.failed) (ok_injective h)) (λ f. elim f [ ])
read_job-failed fun target key (number n) r next h =
    kept (ap (λ (x : Read). x.failed) (ok_injective h)) (λ f. elim f [ ])
read_job-failed fun target key (text t) r next h =
    kept (ap (λ (x : Read). x.failed) (ok_injective h)) (λ f. elim f [ ])
read_job-failed fun target key (array vs) r next h =
    kept (ap (λ (x : Read). x.failed) (ok_injective h)) (λ f. elim f [ ])

field_of :
    {key target : String} {v job : Json} {jobs : Fields}
    → HasField key v (field target job jobs)
    → ((target ≡ key) × (v ≡ job)) ⊎ HasField key v jobs
field_of here = inl (refl, refl)
field_of (later f) = inr f

-- The loop: a target is listed exactly where it was before, or where some job of it failed.
read_jobs-failed :
    (fun key : String) (jobs : Fields) (r last : Read)
    → read_jobs fun jobs r ≡ ok last
    → (contains_key key last.failed ≡ true)
      ↔ ((contains_key key r.failed ≡ true) ⊎ ((v : Json) × HasField key v jobs × Failed fun v))
unfolding read_jobs
read_jobs-failed fun key end r last h =
    let same = ap (λ (x : Read). x.failed) (ok_injective h) in
    rw (← same) (λ p. inl p, λ q. elim q [ inl p ↦ p | inr (v, f, t) ↦ elim f [ ] ])
read_jobs-failed fun key (field target job jobs) r last h =
    let (next, is_next, h₁) = >>=-ok (read_job fun target job r) _ last h in
    let first = read_job-failed fun target key job r next is_next in
    let rest = read_jobs-failed fun key jobs next last h₁ in
    (
      λ p. elim (rest.0 p) [
        | inl q ↦ elim (first.0 q) [ inl t ↦ inl t | inr (e, f) ↦ inr (job, rw e here, f) ]
        | inr (v, f, t) ↦ inr (v, later f, t)
      ],
      λ q. rest.1 (elim q [
        | inl p ↦ inl (first.1 (inl p))
        | inr (v, f, t) ↦ elim (field_of f) [
          | inl (e, same) ↦ inl (first.1 (inr (e, rw (← same) t)))
          | inr f' ↦ inr (v, f', t)
        ]
      ]),
    )

-- The results of a call list a target as failed exactly where the minion of that target has not
-- answered, or its job has a return code other than 0 together with a return that tells of a
-- failure: a failed task of a state, or else anything that is not empty.
pub client_result-Failed :
    (fun key : String) (jobs : Fields) (p : Parsed)
    → client_result fun (object jobs) ≡ ok p
    → (contains_key key p.fails ≡ true) ↔ ((v : Json) × HasField key v jobs × Failed fun v)
unfolding client_result contains_key
client_result-Failed fun key jobs p h =
    let (last, is_last, h₁) = >>=-ok (read_jobs fun jobs _) _ p h in
    let same = ap (λ (x : Parsed). x.fails) (ok_injective h₁) in
    let read = read_jobs-failed fun key jobs _ last is_last in
    rw (← same) (
      λ q. elim (read.0 q) [ inl none ↦ ground (arith, none) | inr found ↦ found ],
      λ found. read.1 (inr found),
    )
