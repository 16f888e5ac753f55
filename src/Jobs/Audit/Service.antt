-- ===== src/Jobs/Audit/Service.antt =====
-- The calls of the jobs service keep the tables sound.
use motivra.Prelude.{◌≡◌, refl, ap, ◌∙◌, Bool, true, false, ◌∷◌, Option, arith, if◌then◌else◌}
use motivra.Prelude.Text.{Text}
use motivra.Prelude.Exec.{Result, ok, err, ◌>>=◌, pure, modify}
use motivra.Prelude.Exec.Steps.{
  Any, Steps-pure, Steps-bind, Steps-if, Steps-require, Steps-require_only, Steps-modify,
  Steps-weaken,
}
use motivra.Prelude.Exec.Runs.{
  Returns, bind-Returns, require-Returns, pure-Returns, modify-Returns, Steps-after,
}
use motivra.Jobs.Status.{JobStatus, JobConflict, can_transition_job}
use motivra.Jobs.World.{Uuid, Job, ReadScope, publish_failed, JobsPayload, JobsWorld, round_trip}
use motivra.Jobs.Store.{find_job}
use motivra.Jobs.Service.{
  JobsService, actor_of, publish_job_event, create_job_from_request, is_ok, legal_move,
  transition_job, dispatch_job, reassign_job, assign_by_status, assign_job, accept_job,
}
use motivra.Jobs.Audit.Store.{
  sound, Keeps, Has, same-JobsSound, round_trip-Keeps, round_trip-Returns, get_request-Keeps,
  get_job-Keeps, get_job-Returns, create_job-Keeps, update_job_status-Keeps,
  update_job_status-Returns, assign_technician-Keeps, accept_assignment-Keeps,
}

is_ok_legal : (r : Result JobConflict (Unit {0})) → is_ok r ≡ true → r ≡ ok tt
is_ok_legal (ok _) h = refl
is_ok_legal (err _) h = ground (arith, h)

module _ (s : JobsService) where
  publish-Keeps :
      (P : JobsWorld → Type 0) (id : Uuid) (actor tenant : Option Uuid) (p : JobsPayload)
      → Keeps P (publish_job_event s id actor tenant p)
  unfolding publish_job_event
  publish-Keeps P id actor tenant p =
      Steps-if s.has_publisher _ _
        (λ _.
          Steps-bind sound P _ _ (round_trip-Keeps P publish_failed)
            (λ _. Steps-modify sound Any _ (λ w _. same-JobsSound w _ refl refl refl refl)))
        (λ _. Steps-pure sound P tt)

  publish-Returns :
      (id : Uuid) (actor tenant : Option Uuid) (p : JobsPayload) (w : JobsWorld) (u : Unit {0})
      (t : JobsWorld)
      → Returns (publish_job_event s id actor tenant p) w u t
      → t.jobs ≡ w.jobs
  unfolding publish_job_event
  publish-Returns id actor tenant p w u t h = go s.has_publisher h
    where
      go :
          (b : Bool)
          → (if b
                then (round_trip publish_failed >>= λ _. modify (λ w. record w {
                  outbox =
                      record {
                        aggregate_id = id;
                        actor = actor_of actor;
                        tenant_id = tenant;
                        payload = p;
                      }
                      ∷ w.outbox;
                }))
                else pure tt)
              w
            ≡ (ok u, t)
          → t.jobs ≡ w.jobs
      go false h = ap (λ w. w.jobs) (pure-Returns _ w u t h).1
      go true h =
          let b = bind-Returns _ _ w u t h in
          ap (λ w. w.jobs) (modify-Returns _ b.between u t b.second)
          ∙ ap (λ w. w.jobs) (round_trip-Returns _ w b.value b.between b.first)

  pub create_job_from_request-Keeps :
      (id : Uuid) (scope : ReadScope) → Keeps Any (create_job_from_request s id scope)
  unfolding create_job_from_request
  create_job_from_request-Keeps id scope =
      Steps-bind sound Any _ _ (get_request-Keeps id scope) λ r. Steps-require sound Any _ _ _ λ _.
        Steps-bind sound Any _ _ (create_job-Keeps _ refl)
          λ j. Steps-bind sound Any _ _ (publish-Keeps Any _ _ _ _) λ _. Steps-pure sound Any _

  pub transition_job-Keeps :
      (id : Uuid) (to : JobStatus) (actor : Option Uuid) (reason : Text) (scope : ReadScope)
      → Keeps Any (transition_job s id to actor reason scope)
  unfolding transition_job legal_move
  transition_job-Keeps id to actor reason scope =
      Steps-after sound Any _ _ (λ j w. Has id j w) (get_job-Keeps id scope)
        (λ w j t _ r. get_job-Returns id scope w j t r)
        λ j. Steps-require sound _ _ _ _ λ checked.
          Steps-bind sound _ _ _
            (update_job_status-Keeps id j to actor reason
              (is_ok_legal (can_transition_job j.status to) checked))
            (λ _. publish-Keeps Any _ _ _ _)

  transition_job-Returns :
      (id : Uuid) (to : JobStatus) (actor : Option Uuid) (reason : Text) (scope : ReadScope)
      (w : JobsWorld) (u : Unit {0}) (t : JobsWorld)
      → Returns (transition_job s id to actor reason scope) w u t
      → (i : Job) × Has id i t × (i.status ≡ to)
  unfolding transition_job legal_move
  transition_job-Returns id to actor reason scope w u t h =
      let a = bind-Returns _ _ w u t h in
      let b = bind-Returns _ _ a.between u t a.second in
      let c = bind-Returns _ _ b.between u t b.second in
      let (_, same) = require-Returns _ _ a.between b.value b.between b.first in
      let (i, found, status) =
        update_job_status-Returns id a.value to actor reason b.between c.value c.between
          (ap (λ w. find_job id w.jobs) same ∙ get_job-Returns id scope w a.value a.between a.first)
          c.first in
      (
        i,
        ap (λ jobs. find_job id jobs) (publish-Returns _ _ _ _ c.between u t c.second) ∙ found,
        status,
      )

  dispatch_job-Keeps :
      (j i : Job) (id technician : Uuid) (by : Option Uuid)
      → i.status ≡ JobStatus.dispatching
      → Keeps (Has id i) (dispatch_job s j id technician by)
  unfolding dispatch_job can_transition_job
  dispatch_job-Keeps j i id technician by h =
      Steps-bind sound _ _ _
        (assign_technician-Keeps id i technician by
          (ap (λ s. can_transition_job s JobStatus.assigned) h))
        (λ _. publish-Keeps Any _ _ _ _)

  reassign_job-Keeps :
      (P : JobsWorld → Type 0) (j : Job) (id technician : Uuid) (by : Option Uuid)
      (scope : ReadScope)
      → Keeps P (reassign_job s j id technician by scope)
  unfolding reassign_job
  reassign_job-Keeps P j id technician by scope = Steps-require sound _ _ _ _ λ _.
      Steps-after sound P _ _ (λ _ w. (i : Job) × Has id i w × (i.status ≡ JobStatus.dispatching))
        (Steps-weaken _ (transition_job-Keeps id _ by _ scope))
        (λ w u t _ r. transition_job-Returns id _ by _ scope w u t r)
        λ _. record {
          at = λ w (i, found, h). (dispatch_job-Keeps j i id technician by h).at w found;
        }

  assign_by_status-Keeps :
      (j : Job) (status : JobStatus) (id technician : Uuid) (by : Option Uuid) (scope : ReadScope)
      → j.status ≡ status
      → Keeps (Has id j) (assign_by_status s j status id technician by scope)
  unfolding legal_move
  assign_by_status-Keeps j JobStatus.dispatching id technician by scope h =
      dispatch_job-Keeps j j id technician by h
  assign_by_status-Keeps j JobStatus.assigned id technician by scope h =
      reassign_job-Keeps _ j id technician by scope
  assign_by_status-Keeps j status id technician by scope h = Steps-require_only sound _ _ _

  pub assign_job-Keeps :
      (id technician : Uuid) (by : Option Uuid) (scope : ReadScope)
      → Keeps Any (assign_job s id technician by scope)
  unfolding assign_job
  assign_job-Keeps id technician by scope =
      Steps-after sound Any _ _ (λ j w. Has id j w) (get_job-Keeps id scope)
        (λ w j t _ r. get_job-Returns id scope w j t r)
        (λ j. assign_by_status-Keeps j j.status id technician by scope refl)

  pub accept_job-Keeps :
      (id technician : Uuid) (scope : ReadScope) → Keeps Any (accept_job s id technician scope)
  unfolding accept_job legal_move
  accept_job-Keeps id technician scope =
      Steps-after sound Any _ _ (λ j w. Has id j w) (get_job-Keeps id scope)
        (λ w j t _ r. get_job-Returns id scope w j t r)
        λ j. Steps-require sound _ _ _ _ λ checked. Steps-require sound _ _ _ _ λ _.
          Steps-bind sound _ _ _
            (accept_assignment-Keeps id j technician
              (is_ok_legal (can_transition_job j.status JobStatus.accepted) checked))
            (λ _. publish-Keeps Any _ _ _ _)
