-- ===== src/Imports/Service/Access.antt =====
-- Who submits a job.
use mathlib.Core.Path.{subst}
use super_boss.Base.{
  ◌≡◌, refl, inl, inr, true, Option, none, some, Uuid, Time, Bool-cases, Option-cases, ◌==◌, ==_iff,
}
use super_boss.Base.Lists.{contains}
use super_boss.Core.Actors.{Actor, imports_submit}
use super_boss.Core.Exec.{Result, ok, err, is_ok}
use super_boss.Imports.Jobs.{ImportJob, ImportTables, get_job}
use super_boss.Imports.Evaluation.{ImportTools}
use super_boss.Imports.Service.{
  preflight_submit, submit, submit_locked, own_job, device_has, deny_job, preflighted,
}

module _ (tools : ImportTools) (actor : Actor) (job_id request_id : Uuid) where
  -- what a submission that succeeded found under the lock
  abbrev Owns : ImportTables → Type 0
  Owns t =
      (job : ImportJob) × (get_job job_id t ≡ some job)
      × (job.device_id ≡ actor.subject_id)
      × (contains job.project_id actor.project_ids ≡ true)

  preflighted_state :
      (o : Option ImportJob) (t : ImportTables)
      → is_ok (preflighted tools actor job_id request_id o t).0 ≡ true
      → (preflighted tools actor job_id request_id o t).1 ≡ t
  unfolding deny_job
  preflighted_state none t done = cc
  preflighted_state (some job) t done =
      elim (Bool-cases (contains job.project_id actor.project_ids)) [
        | inl e ↦ rw e refl
        | inr e ↦ absurd (cc (rw e at done))
      ]

  preflight_ok :
      (t : ImportTables)
      → is_ok (preflight_submit tools actor job_id request_id t).0 ≡ true
      → (device_has actor imports_submit ≡ true)
        × ((preflight_submit tools actor job_id request_id t).1 ≡ t)
  unfolding preflight_submit deny_job
  preflight_ok t done = elim (Bool-cases (device_has actor imports_submit)) [
    | inl e ↦ (e, rw e (preflighted_state (own_job actor (get_job job_id t)) t (rw e at done)))
    | inr e ↦ absurd (cc (rw e at done))
  ]

  own :
      (o : Option ImportJob) (job : ImportJob)
      → own_job actor o ≡ some job
      → (o ≡ some job) × (job.device_id ≡ actor.subject_id)
  own none job e = cc
  own (some j) job e = elim (Bool-cases (j.device_id == actor.subject_id)) [
    | inl d ↦
        let same : j ≡ job = cc (rw d at e) in
        (rw same refl, rw⁻¹ same ((==_iff j.device_id actor.subject_id).0 d))
    | inr d ↦ absurd (cc (rw d at e))
  ]

  locked_ok :
      (target : Uuid) (now : Time) (t : ImportTables)
      → is_ok
          (submit_locked tools actor job_id request_id now target
            (own_job actor (get_job job_id t))
            t).0
        ≡ true
      → Owns t
  unfolding deny_job
  locked_ok target now t done = elim (Option-cases (own_job actor (get_job job_id t))) [
    | inl e ↦ absurd (cc (rw e at done))
    | inr (job, e) ↦
        let (found, mine) = own (get_job job_id t) job e in
        elim (Bool-cases (contains job.project_id actor.project_ids)) [
          | inl c ↦ (job, found, mine, c)
          | inr c ↦ elim (Bool-cases (job.project_id == target)) [
            | inl s ↦ absurd (cc (rw (e, c, s) at done))
            | inr s ↦ absurd (cc (rw (e, c, s) at done))
          ]
        ]
  ]

  -- A submission succeeds only for a device with the submit scope whose own job it is, in a
  -- project of the device, as the tables stand when the job is locked.
  pub submit_authorized :
      (meanwhile : ImportTables → ImportTables) (now : Time) (t : ImportTables)
      → is_ok (submit tools actor job_id request_id meanwhile now t).0 ≡ true
      → (device_has actor imports_submit ≡ true)
        × (job : ImportJob) × (get_job job_id (meanwhile t) ≡ some job)
        × (job.device_id ≡ actor.subject_id)
        × (contains job.project_id actor.project_ids ≡ true)
  unfolding submit
  submit_authorized meanwhile now t done =
      let (has, (job, found, mine, inside)) =
        go (preflight_submit tools actor job_id request_id t) refl in
      (has, job, found, mine, inside)
    where
      go :
          (r : Result Uuid × ImportTables)
          → preflight_submit tools actor job_id request_id t ≡ r
          → (device_has actor imports_submit ≡ true) × (Owns (meanwhile t))
      go (err e, s) eq = absurd (cc (rw eq at done))
      go (ok target, s) eq =
          let (has, same) = preflight_ok t (rw eq refl) in
          let here : s ≡ t = (rw eq at same) in
          (
            has,
            subst (λ x. Owns (meanwhile x)) here
                (locked_ok target now (meanwhile s) (rw eq at done)),
          )
