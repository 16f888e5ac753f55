-- ===== src/Jobs/Audit/Store.antt =====
-- The store's calls keep the jobs tables sound, if the service has checked the move before.
use motivra.Prelude.{
  ◌≤◌, ◌≡◌, refl, sym, ap, ◌∙◌, Bool, true, false, List, [], ◌∷◌, Option, none, some, arith, ◌==◌,
  ==_iff, nat_eq,
}
use motivra.Prelude.Text.{Text}
use motivra.Prelude.Exec.{ok, ◌>>=◌, pure, find_or_raise}
use motivra.Prelude.Exec.Steps.{
  Preorder, Steps, Any, Kept, Kept-Preorder, Steps-pure, Steps-bind, Steps-if, Steps-require,
  Steps-check, Steps-find, Steps-find_or_raise, Steps-read, Steps-write, Steps-modify,
}
use motivra.Prelude.Exec.Runs.{
  Returns, bind-Returns, find_or_raise-Returns, require-Returns, modify-Returns, Steps-after,
}
use motivra.Prelude.Table.{find_key, find-update}
use motivra.Jobs.Status.{JobStatus, job_status_eq, can_transition_job}
use motivra.Jobs.World.{
  Uuid, nil_uuid, Job, JobAssignment, ReadScope, JobsError, database, JobsWorld, Action, failing,
  round_trip, fresh_id,
}
use motivra.Jobs.Store.{
  job_id, find_job, scoped_job, get_job, get_request, create_job, default_status, missing,
  update_job_status, assign_technician, accept_assignment, retire_open,
}
use motivra.Jobs.Audit.{
  JobsSound, move-JobsSound, insert-JobsSound, count_open, count_open-retire, count_open-take,
}

pub sound : Preorder (Kept JobsSound)
sound = Kept-Preorder JobsSound

abbrev pub Keeps : {A : Type 0} → (JobsWorld → Type 0) → Action A → Type 0
Keeps P m = Steps P (Kept JobsSound) m

-- The job `id` is `j`.
abbrev pub Has : Uuid → Job → JobsWorld → Type 0
Has id j w = find_job id w.jobs ≡ some j

-- A write elsewhere.
pub same-JobsSound :
    (v w : JobsWorld)
    → v.requests ≡ w.requests
    → v.jobs ≡ w.jobs
    → v.transitions ≡ w.transitions
    → v.assignments ≡ w.assignments
    → Kept JobsSound v w
same-JobsSound v w o p q r h = record {
  legal = rw q at h.legal;
  current = λ id. rw (p, q) at h.current id;
  single = λ id. rw r at h.single id;
  converted = rw (o, p) at h.converted;
}

pub round_trip-Keeps : (P : JobsWorld → Type 0) (e : JobsError) → Keeps P (round_trip e)
unfolding round_trip
round_trip-Keeps P e = record { at = λ w _. go w w.faults }
  where
    go : (w : JobsWorld) (fs : List Bool) → Kept JobsSound w (failing fs e w).1
    go w [] = λ h. h
    go w (true ∷ fs) = same-JobsSound w _ refl refl refl refl
    go w (false ∷ fs) = same-JobsSound w _ refl refl refl refl

pub round_trip-Returns :
    (e : JobsError) (w : JobsWorld) (u : Unit {0}) (t : JobsWorld)
    → Returns (round_trip e) w u t
    → t ≡ record w { faults = t.faults }
unfolding round_trip
round_trip-Returns e w u t h = go w.faults refl h
  where
    go :
        (fs : List Bool)
        → w.faults ≡ fs
        → failing fs e w ≡ (ok u, t)
        → t ≡ record w { faults = t.faults }
    go [] q h = ground (arith, q, h)
    go (true ∷ fs) q h = ground (arith, h)
    go (false ∷ fs) q h = ground (arith, h)

round_trip-Has :
    (e : JobsError) (id : Uuid) (j : Job) (w : JobsWorld) (u : Unit {0}) (t : JobsWorld)
    → Has id j w
    → Returns (round_trip e) w u t
    → Has id j t
round_trip-Has e id j w u t h r = ap (λ w. find_job id w.jobs) (round_trip-Returns e w u t r) ∙ h

pub get_request-Keeps : (id : Uuid) (scope : ReadScope) → Keeps Any (get_request id scope)
unfolding get_request
get_request-Keeps id scope =
    Steps-bind sound Any _ _ (round_trip-Keeps Any database)
      (λ _. Steps-find_or_raise sound Any _ _)

pub get_job-Keeps : (id : Uuid) (scope : ReadScope) → Keeps Any (get_job id scope)
unfolding get_job
get_job-Keeps id scope =
    Steps-bind sound Any _ _ (round_trip-Keeps Any database)
      (λ _. Steps-require sound Any _ _ _ (λ _. Steps-find_or_raise sound Any _ _))

scoped_job-some :
    (scope : ReadScope) (x : Option Job) (j : Job) → scoped_job scope x ≡ some j → x ≡ some j
unfolding scoped_job
scoped_job-some scope none j h = ground (arith, h)
scoped_job-some scope (some i) j h = ground (arith, h)

-- The job that a read returned is the one in the table.
pub get_job-Returns :
    (id : Uuid) (scope : ReadScope) (w : JobsWorld) (j : Job) (t : JobsWorld)
    → Returns (get_job id scope) w j t
    → Has id j t
unfolding get_job
get_job-Returns id scope w j t h =
    let a = bind-Returns _ _ w j t h in
    let b = bind-Returns _ _ a.between j t a.second in
    let (found, same) = find_or_raise-Returns _ _ b.between j t b.second in
    ap (λ w. find_job id w.jobs) same ∙ scoped_job-some scope (find_job id b.between.jobs) j found

missing_sound : (x : Option Job) → missing x ≡ true → x ≡ none
missing_sound x h = ground arith

pub create_job-Keeps : (j : Job) → j.status ≡ JobStatus.created → Keeps Any (create_job j)
unfolding create_job job_status_eq fresh_id
create_job-Keeps j created =
    Steps-bind sound Any _ _
      (Steps-if (j.id == nil_uuid) fresh_id (pure j.id) (λ _. fresh_id-Keeps)
        (λ _. Steps-pure sound Any j.id))
      λ id. Steps-bind sound Any _ _ (round_trip-Keeps Any database) λ _.
        Steps-read sound Any _ _ λ now. Steps-check sound _ _ _ _ (
          Steps-require sound _ _ _ _ λ _. Steps-check sound _ _ _ _ (
            Steps-write sound _ _ _
              (λ w ((_, claim), new). insert-JobsSound _ w is_created claim (missing_sound _ new))
              (Steps-pure sound Any _)))
  where
    is_created : default_status j.status ≡ JobStatus.created
    is_created = rw created refl

    fresh_id-Keeps : Keeps Any fresh_id
    fresh_id-Keeps = record { at = λ w _. same-JobsSound w _ refl refl refl refl }

module _ (id : Uuid) (j : Job) where
  -- The call of the store on a job that is as the service has read it.
  with_job :
      {A : Type 0} (e : JobsError) (f : Job → Action A)
      → ((i : Job) → j ≡ i → Keeps (Has id j) (f i))
      → Keeps
          (Has id j)
          (round_trip database >>= λ _. find_or_raise (λ w. find_job id w.jobs) e >>= f)
  with_job e f k =
      Steps-after sound (Has id j) _ _ (λ _ w. Has id j w) (round_trip-Keeps (Has id j) database)
        (λ w u t h r. round_trip-Has database id j w u t h r)
        λ _.
          Steps-find sound (Has id j) _ _ _
            λ i. record { at = λ w h. (k i (same_job i w h.0 h.1)).at w h.0 }
    where
      same_job : (i : Job) (w : JobsWorld) → Has id j w → Has id i w → j ≡ i
      same_job i w p q = ground (arith, p, q)

  pub update_job_status-Keeps :
      (to : JobStatus) (actor : Option Uuid) (reason : Text)
      → can_transition_job j.status to ≡ ok tt
      → Keeps (Has id j) (update_job_status id to actor reason)
  unfolding update_job_status
  update_job_status-Keeps to actor reason legal = with_job _ _ λ i e.
      Steps-require sound _ _ _ _ λ _. Steps-modify sound _ _ (λ w h s.
        move-JobsSound id (λ j. record j { status = to; updated_at = w.clock }) _ j w.assignments
          w.next_id w (λ j. refl) (λ j. refl) h
          (ap (λ i. i.id) (sym e) ∙ find_key job_id id w.jobs j h) (ap (λ i. i.status) (sym e)) refl
          (ap (λ i. can_transition_job i.status to) (sym e) ∙ legal) s.single s)

  -- The row that an assignment adds is the only open one of the job.
  one_open :
      (a : JobAssignment) (k : Uuid) (w : JobsWorld)
      → a.job_id ≡ id
      → JobsSound w
      → count_open k (a ∷ retire_open id w.assignments) ≤ 1
  unfolding count_open
  one_open a k w of s =
      ground (arith, count_open-retire id k w.assignments, of, ==_iff id k, s.single k)

  pub assign_technician-Keeps :
      (technician : Uuid) (by : Option Uuid)
      → can_transition_job j.status JobStatus.assigned ≡ ok tt
      → Keeps (Has id j) (assign_technician id technician by)
  unfolding assign_technician
  assign_technician-Keeps technician by legal = with_job _ _ λ i e. Steps-modify sound _ _ (λ w h s.
      move-JobsSound id
        (λ j. record j {
          status = JobStatus.assigned;
          technician_id = some technician;
          updated_at = w.clock;
        })
        _ j _ _ w (λ j. refl) (λ j. refl) h (ap (λ i. i.id) (sym e) ∙ find_key job_id id w.jobs j h)
        (ap (λ i. i.status) (sym e)) refl
        (ap (λ i. can_transition_job i.status JobStatus.assigned) (sym e) ∙ legal)
        (λ k. one_open _ k w refl s) s)

  pub accept_assignment-Keeps :
      (technician : Uuid)
      → can_transition_job j.status JobStatus.accepted ≡ ok tt
      → Keeps (Has id j) (accept_assignment id technician)
  unfolding accept_assignment
  accept_assignment-Keeps technician legal = with_job _ _ λ i e. Steps-check sound _ _ _ _ (
      Steps-modify sound _ _ (λ w (h, _) s.
        move-JobsSound id (λ j. record j { status = JobStatus.accepted; updated_at = w.clock }) _ j
          _ w.next_id w (λ j. refl) (λ j. refl) h
          (ap (λ i. i.id) (sym e) ∙ find_key job_id id w.jobs j h) (ap (λ i. i.status) (sym e)) refl
          (ap (λ i. can_transition_job i.status JobStatus.accepted) (sym e) ∙ legal)
          (λ k. omega (arith, count_open-take id technician k w.clock w.assignments, s.single k))
          s))

  -- After a change of status that worked, the job has the new one.
  pub update_job_status-Returns :
      (to : JobStatus) (actor : Option Uuid) (reason : Text) (w : JobsWorld) (u : Unit {0})
      (t : JobsWorld)
      → Has id j w
      → Returns (update_job_status id to actor reason) w u t
      → (i : Job) × Has id i t × (i.status ≡ to)
  unfolding update_job_status
  update_job_status-Returns to actor reason w u t found h =
      let a = bind-Returns _ _ w u t h in
      let b = bind-Returns _ _ a.between u t a.second in
      let c = bind-Returns _ _ b.between u t b.second in
      let (_, same) = find_or_raise-Returns _ _ a.between b.value b.between b.first in
      let (_, same') = require-Returns _ _ b.between c.value c.between c.first in
      let wrote = modify-Returns _ c.between u t c.second in
      let there : Has id j c.between =
        ap (λ w. find_job id w.jobs) (same' ∙ same)
        ∙ round_trip-Has database id j w a.value a.between found a.first in
      (
        record j { status = to; updated_at = c.between.clock },
        ap (λ w. find_job id w.jobs) wrote
            ∙ ground (
              arith,
              find-update job_id (λ j. record j { status = to; updated_at = c.between.clock })
                  (λ j. refl) id id c.between.jobs,
              ==_iff id id,
              there,
            ),
        refl,
      )
