-- ===== src/Jobs/Audit.antt =====
-- What the jobs tables keep: a true and legal audit trail, and one open assignment for each job.
pub mod Store
pub mod Service
pub mod Laws
use motivra.Prelude.{
  ℕ, suc, ◌+◌, ◌≤◌, ◌≡◌, ◌≢◌, refl, sym, ap, ◌∙◌, Bool, true, false, ◌&&◌, List, [], ◌∷◌, Option,
  none, some, arith, ◌==◌, ==_iff, if◌then◌else◌, nat_eq,
}
use motivra.Prelude.Exec.{ok, err}
use motivra.Prelude.Exec.Steps.{Kept}
use motivra.Prelude.Table.{find-cons, update, find-update}
use motivra.Jobs.Status.{JobStatus, can_transition_job}
use motivra.Jobs.World.{
  Uuid, RequestStatus, AssignmentStatus, ServiceRequest, Job, JobAssignment, JobTransition,
  JobsWorld,
}
use motivra.Jobs.Store.{
  request_id, may_claim, claim_request, job_id, find_job, is_open, retire_open, takes, take_open,
}

-- Where the trail leaves a job: at the newest entry's status, or at CREATED.
unfoldable pub trail_status : Uuid → List JobTransition → JobStatus
trail_status id [] = JobStatus.created
trail_status id (t ∷ ts) = if t.job_id == id then t.to_status else trail_status id ts

abbrev pub row_status : Option Job → JobStatus
row_status none = JobStatus.created
row_status (some j) = j.status

-- Each entry starts where the entries before it left its job, and `CanTransition` accepts it.
pub data LegalTrail : List JobTransition → Type 0 where
  start : LegalTrail []
  entry :
      {t : JobTransition} {ts : List JobTransition}
      → t.from_status ≡ trail_status t.job_id ts
      → can_transition_job t.from_status t.to_status ≡ ok tt
      → LegalTrail ts
      → LegalTrail (t ∷ ts)

unfoldable pub count_open : Uuid → List JobAssignment → ℕ
count_open id [] = 0
count_open id (a ∷ as') =
    let rest = count_open id as' in if a.job_id == id && is_open a.status then suc rest else rest

abbrev made_from : Option Uuid → Uuid → Bool
made_from none id = false
made_from (some r) id = r == id

-- How many jobs came of a request.
unfoldable pub count_made : Uuid → List Job → ℕ
count_made id [] = 0
count_made id (j ∷ js) =
    let rest = count_made id js in if made_from j.service_request_id id then suc rest else rest

-- A request that can be claimed has no job, and each has at most one.
pub record Converted (rs : List ServiceRequest) (js : List Job) : Type 0 where
  pub once : (id : Uuid) → count_made id js ≤ 1
  pub unclaimed : (id : Uuid) → may_claim (some id) rs ≡ true → count_made id js ≡ 0

pub record JobsSound (w : JobsWorld) : Type 0 where
  pub legal : LegalTrail w.transitions
  pub current : (id : Uuid) → trail_status id w.transitions ≡ row_status (find_job id w.jobs)
  pub single : (id : Uuid) → count_open id w.assignments ≤ 1
  pub converted : Converted w.requests w.jobs

count_made-update :
    (id k : Uuid) (f : Job → Job) (js : List Job)
    → ((j : Job) → (f j).service_request_id ≡ j.service_request_id)
    → count_made k (update job_id id f js) ≡ count_made k js
unfolding count_made update
count_made-update id k f [] same = refl
count_made-update id k f (j ∷ js) same = ground (arith, same j, count_made-update id k f js same)

update-Converted :
    (id : Uuid) (f : Job → Job) (rs : List ServiceRequest) (js : List Job)
    → ((j : Job) → (f j).service_request_id ≡ j.service_request_id)
    → Converted rs js
    → Converted rs (update job_id id f js)
update-Converted id f rs js same h = record {
  once = λ k. omega (arith, count_made-update id k f js same, h.once k);
  unclaimed = λ k c. count_made-update id k f js same ∙ h.unclaimed k c;
}

-- A claimed request cannot be claimed again, and the others are as before.
claim_request-claims :
    (id k : Uuid) (rs : List ServiceRequest)
    → may_claim (some k) (claim_request (some id) rs) ≡ true
    → (id ≢ k) × (may_claim (some k) rs ≡ true)
claim_request-claims id k rs h = ground (
  arith,
  h,
  find-update request_id (λ r. record r { status = RequestStatus.converted }) (λ r. refl) k id rs,
  ==_iff id k,
)

insert-Converted :
    (j : Job) (rs : List ServiceRequest) (js : List Job)
    → may_claim j.service_request_id rs ≡ true
    → Converted rs js
    → Converted (claim_request j.service_request_id rs) (j ∷ js)
unfolding count_made
insert-Converted j rs js claim h = record {
  once = λ k. made_once j.service_request_id claim k;
  unclaimed = λ k c. left j.service_request_id k c;
}
  where
    made_once :
        (r : Option Uuid)
        → may_claim r rs ≡ true
        → (k : Uuid) → (if made_from r k then suc (count_made k js) else count_made k js) ≤ 1
    made_once none c k = h.once k
    made_once (some r) c k = ground (arith, ==_iff r k, h.once k, h.unclaimed r c)

    left :
        (r : Option Uuid) (k : Uuid)
        → may_claim (some k) (claim_request r rs) ≡ true
        → (if made_from r k then suc (count_made k js) else count_made k js) ≡ 0
    left none k c = h.unclaimed k c
    left (some r) k c =
        let (other, free) = claim_request-claims r k rs c in
        ground (arith, other, ==_iff r k, h.unclaimed k free)

-- A change of status with its entry, and the assignments that it leaves.
pub move-JobsSound :
    (id : Uuid) (f : Job → Job) (t : JobTransition) (j : Job) (as' : List JobAssignment) (n : ℕ)
    (w : JobsWorld)
    → ((j : Job) → (f j).id ≡ j.id)
    → ((j : Job) → (f j).service_request_id ≡ j.service_request_id)
    → find_job id w.jobs ≡ some j
    → t.job_id ≡ id
    → t.from_status ≡ j.status
    → (f j).status ≡ t.to_status
    → can_transition_job t.from_status t.to_status ≡ ok tt
    → ((k : Uuid) → count_open k as' ≤ 1)
    → Kept JobsSound w (record w {
      assignments = as';
      jobs = update job_id id f w.jobs;
      transitions = t ∷ w.transitions;
      next_id = n;
    })
unfolding trail_status
move-JobsSound id f t j as' n w keeps source found of from to step single h = record {
  legal =
      entry
        (from
          ∙ sym (ap row_status found)
          ∙ sym (h.current id)
          ∙ ap (λ k. trail_status k w.transitions) (sym of))
        step h.legal;
  current = λ k.
      ground
        (arith, find-update job_id f keeps k id w.jobs, ==_iff id k, h.current k, found, of, to);
  single = single;
  converted = update-Converted id f w.requests w.jobs source h.converted;
}

pub insert-JobsSound :
    (j : Job) (w : JobsWorld)
    → j.status ≡ JobStatus.created
    → may_claim j.service_request_id w.requests ≡ true
    → find_job j.id w.jobs ≡ none
    → Kept JobsSound w
        (record w { requests = claim_request j.service_request_id w.requests; jobs = j ∷ w.jobs })
insert-JobsSound j w created claim new h = record {
  legal = h.legal;
  current =
      λ k. ground (arith, find-cons job_id k j w.jobs, ==_iff j.id k, h.current k, created, new);
  single = h.single;
  converted = insert-Converted j w.requests w.jobs claim h.converted;
}

pub count_open-retire :
    (id k : Uuid) (as' : List JobAssignment)
    → count_open k (retire_open id as') ≡ (if id == k then 0 else count_open k as')
unfolding count_open retire_open
count_open-retire id k [] = ground arith
count_open-retire id k (a ∷ as') = ground (arith, count_open-retire id k as')

pub count_open-take :
    (id technician k : Uuid) (now : ℕ) (as' : List JobAssignment)
    → count_open k (take_open id technician now as') ≤ count_open k as'
unfolding count_open take_open
count_open-take id technician k now [] = omega arith
count_open-take id technician k now (a ∷ as') =
    ground (arith, count_open-take id technician k now as')
