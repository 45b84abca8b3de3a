-- ===== src/Jobs/Ticks.antt =====
-- What a tick of packages/asas-jobs/src/asas_jobs/scheduler.py promises.
use asas.Base.{
  ℕ, ◌+◌, ◌≤◌, ◌<◌, ◌≡◌, refl, subst, String, Bool, true, false, Option, none, List, [], ◌∷◌, ◌++◌,
  arith, ◌==◌, if◌then◌else◌, update_where, count_where, first_where, inl, inr, ◌⊎◌, Bool-cases,
  Option-cases, length, count_where-append, count_where_mono, count_where-update, first_where-count,
  Fields, eq_iff, same_num_iff,
}
use asas.Jobs.Model.{JobSchedule}
use asas.Jobs.Queue.{new_job}
use asas.Jobs.Reclaim.{has_active, active_of}
use asas.Jobs.Scheduler.{
  Store, due_schedules, unmoved, advance, has_schedule_id, stamp, materialize, tick_one, bump,
  tick_each, tick_schedules, ensure_schedule, after_conflict, converge, converge_row, new_schedule,
  schedules_kind,
}

-- At most one schedule has an id.
abbrev pub HasUniqueSchedules : List JobSchedule → Type 0
HasUniqueSchedules ss = (id : ℕ) → count_where (has_schedule_id id) ss ≤ 1

unmoved-le-id :
    (snap : JobSchedule) (ss : List JobSchedule)
    → count_where (unmoved snap) ss ≤ count_where (has_schedule_id snap.id) ss
unmoved-le-id snap ss =
    count_where_mono (unmoved snap) (has_schedule_id snap.id) ss (λ s h. ground arith)

-- Once its row has moved past the snapshot, no row matches the snapshot.
moved_on :
    (snap : JobSchedule) (now : ℕ) (ss : List JobSchedule)
    → snap.next_run_at ≤ now
    → 0 < snap.every_seconds
    → count_where (unmoved snap) (update_where (unmoved snap) (advance snap now) ss) ≡ 0
unfolding count_where update_where advance
moved_on snap now [] due pos = refl
moved_on snap now (s ∷ ss) due pos = ground (arith, moved_on snap now ss due pos)

stamp-unmoved :
    (snap : JobSchedule) (id now : ℕ) (ss : List JobSchedule)
    → count_where (unmoved snap) (update_where (has_schedule_id id) (stamp now) ss)
      ≡ count_where (unmoved snap) ss
unfolding stamp
stamp-unmoved snap id now ss =
    count_where-update (unmoved snap) (has_schedule_id id) (stamp now) ss (λ s h. refl)

-- A due schedule with a positive interval is ticked once: after a turn that won its CAS, whether it
-- fired or skipped an overlapping run, a turn of any instance on the same snapshot does nothing.
pub tick_once :
    (st : Store) (snap : JobSchedule) (now now' : ℕ)
    → count_where (unmoved snap) st.schedules ≡ 1
    → snap.next_run_at ≤ now
    → 0 < snap.every_seconds
    → tick_one (tick_one st snap now).0 snap now' ≡ ((tick_one st snap now).0, false)
unfolding tick_one
tick_once st snap now now' won due pos =
    let gone = moved_on snap now st.schedules due pos in
    ground (
      arith,
      won,
      gone,
      stamp-unmoved snap snap.id now (update_where (unmoved snap) (advance snap now) st.schedules),
    )

-- A turn that fires adds exactly one job, of the schedule's kind and due at once; a turn that does
-- not fire adds none.
pub tick_one-jobs :
    (st : Store) (snap : JobSchedule) (now : ℕ)
    → (((tick_one st snap now).1 ≡ true)
        × ((tick_one st snap now).0.jobs ≡ st.jobs ++ materialize snap st.next_id now ∷ [])
        × ((snap.no_overlap ≡ true) → has_active st.jobs snap.id ≡ false))
      ⊎ (((tick_one st snap now).1 ≡ false) × ((tick_one st snap now).0.jobs ≡ st.jobs))
unfolding tick_one
tick_one-jobs st snap now = ground arith

new_active :
    (snap : JobSchedule) (id now k : ℕ)
    → count_where (active_of k) (materialize snap id now ∷ []) ≡ (if snap.id == k then 1 else 0)
unfolding count_where materialize new_job
new_active snap id now k = ground arith

-- A turn of a schedule that forbids overlap leaves no schedule with two active jobs, if none had two
-- before.
pub tick_one-no_overlap :
    (st : Store) (snap : JobSchedule) (now : ℕ)
    → snap.no_overlap ≡ true
    → ((id : ℕ) → count_where (active_of id) st.jobs ≤ 1)
    → (id : ℕ) → count_where (active_of id) (tick_one st snap now).0.jobs ≤ 1
unfolding has_active
tick_one-no_overlap st snap now flag h id = elim (tick_one-jobs st snap now) [
  | inl (fired, jobs, free) ↦ rw jobs (elim (Bool-cases (snap.id == id)) [
    | inl same ↦
        let idle : count_where (active_of snap.id) st.jobs ≡ 0 =
          first_where-count (active_of snap.id) st.jobs (ground (arith, free flag)) in
        let idle' : count_where (active_of id) st.jobs ≡ 0 =
          subst (λ k. count_where (active_of k) st.jobs ≡ 0) (ground arith) idle in
        ground (
          arith,
          idle',
          same,
          new_active snap st.next_id now id,
          count_where-append (active_of id) st.jobs (materialize snap st.next_id now ∷ []),
        )
    | inr other ↦ ground (
      arith,
      other,
      h id,
      new_active snap st.next_id now id,
      count_where-append (active_of id) st.jobs (materialize snap st.next_id now ∷ []),
    )
  ])
  | inr (skipped, jobs) ↦ rw jobs (h id)
]

tick_each-le :
    (rival : ℕ → Store → Store) (st : Store) (snaps : List JobSchedule) (now n : ℕ)
    → (tick_each rival st snaps now n).1 ≤ n + length snaps
unfolding tick_each
tick_each-le rival st [] now n = omega arith
tick_each-le rival st (snap ∷ snaps) now n =
    let (st', fired) = tick_one (rival (length snaps) st) snap now in
    ground (arith, tick_each-le rival st' snaps now (bump fired n))

-- However the other instances interleave, a tick enqueues at most one job for each schedule that was
-- due: downtime never produces a burst.
pub tick_schedules-le :
    (rival : ℕ → Store → Store) (st : Store) (now : ℕ)
    → (tick_schedules rival st now).1 ≤ length (due_schedules now st.schedules)
unfolding tick_schedules
tick_schedules-le rival st now =
    omega (arith, tick_each-le rival st (due_schedules now st.schedules) now 0)

-- At most one schedule serves a kind for an organisation.
abbrev pub HasUniqueKinds : List JobSchedule → Type 0
HasUniqueKinds ss = (kind : String) (org : Option ℕ) → count_where (schedules_kind kind org) ss ≤ 1

converge-kinds :
    (st : Store) (s : JobSchedule) (every : ℕ) (flag : Bool)
    → HasUniqueKinds st.schedules
    → HasUniqueKinds (converge_row st s every flag).0.schedules
unfolding converge_row converge
converge-kinds st s every flag h = λ kind org. ground (
  arith,
  h kind org,
  count_where-update (schedules_kind kind org) (has_schedule_id s.id) (converge every flag)
      st.schedules (λ x k. refl),
)

kind_parts :
    (kind kind' : String) (org org' : Option ℕ) (payload : Fields) (every : ℕ) (flag : Bool)
    (id now : ℕ)
    → schedules_kind kind org (new_schedule kind' org' payload every flag id now) ≡ true
    → (kind' ≡ kind) × (org' ≡ org)
unfolding new_schedule
kind_parts kind kind' org org' payload every flag id now h =
    ground (arith, eq_iff kind' kind, same_num_iff org' org)

seed-kinds :
    (ss : List JobSchedule) (kind : String) (org : Option ℕ) (payload : Fields) (every : ℕ)
    (flag : Bool) (id now : ℕ)
    → HasUniqueKinds ss
    → first_where (schedules_kind kind org) ss ≡ none
    → HasUniqueKinds (ss ++ new_schedule kind org payload every flag id now ∷ [])
unfolding count_where
seed-kinds ss kind org payload every flag id now h free = λ k o.
    let s = new_schedule kind org payload every flag id now in
    elim (Bool-cases (schedules_kind k o s)) [
      | inl same ↦
          let (a, b) = kind_parts k kind o org payload every flag id now same in
          let none_there : count_where (schedules_kind k o) ss ≡ 0 =
            subst (λ x. count_where (schedules_kind k x) ss ≡ 0) b
              (subst (λ x. count_where (schedules_kind x org) ss ≡ 0) a
                (first_where-count (schedules_kind kind org) ss free)) in
          ground (arith, none_there, count_where-append (schedules_kind k o) ss (s ∷ []))
      | inr other ↦
          ground (arith, other, h k o, count_where-append (schedules_kind k o) ss (s ∷ []))
    ]

after_conflict-kinds :
    (st : Store) (kind : String) (org : Option ℕ) (every : ℕ) (flag : Bool)
    → HasUniqueKinds st.schedules
    → HasUniqueKinds (after_conflict st kind org every flag).0.schedules
unfolding after_conflict
after_conflict-kinds st kind org every flag h =
    elim (Option-cases (first_where (schedules_kind kind org) st.schedules)) [
      | inl e ↦ rw (e, after_conflict) h
      | inr (s, e) ↦ rw (e, after_conflict) (converge-kinds st s every flag h)
    ]

-- Seeding is idempotent across instances: if what other instances commit between the look-up and the
-- insert, and after a conflict, leaves one schedule to a (kind, organisation), so does `ensure_schedule`.
pub ensure_schedule_unique :
    (rival retry : Store → Store) (st : Store) (kind : String) (org : Option ℕ) (payload : Fields)
    (every : ℕ) (flag : Bool) (now : ℕ)
    → HasUniqueKinds st.schedules
    → HasUniqueKinds (rival st).schedules
    → HasUniqueKinds (retry (rival st)).schedules
    → HasUniqueKinds (ensure_schedule rival retry st kind org payload every flag now).0.schedules
unfolding ensure_schedule
ensure_schedule_unique rival retry st kind org payload every flag now h k l =
    elim (Bool-cases (every == 0)) [
      | inl bad ↦ rw bad h
      | inr ok_ ↦ elim (Option-cases (first_where (schedules_kind kind org) st.schedules)) [
        | inr (s, e) ↦ rw (ok_, e) (converge-kinds st s every flag h)
        | inl e ↦ elim (Option-cases (first_where (schedules_kind kind org) (rival st).schedules)) [
          | inr (s, q) ↦
              rw (ok_, e, q) (after_conflict-kinds (retry (rival st)) kind org every flag l)
          | inl q ↦
              rw (ok_, e, q)
                (seed-kinds (rival st).schedules kind org payload every flag (rival st).next_id now
                  k q)
        ]
      ]
    ]
