-- ===== src/Common/Schedule.antt =====
-- services/core_api/apps/common/management/commands/seed_beat_schedule.py, on the two tables of the
-- scheduler that it writes. The name of a periodic task is unique; a schedule may stand there twice.
use mathlib.Core.Path.{subst}
use orbit_commerce_platform.Prelude.{
  ◌≡◌, ◌∷◌, ◌&&◌, [], refl, some, Bool, ℕ, List, Text, codes, false, text_eq, Bool-cases,
  if◌then◌else◌, Option, ◌||◌, none, inl, inr, ap, text_eq_refl, true, some_injective, none-ne-some,
}

pub record Crontab : Type 0 where
  pub minute : Text
  pub hour : Text
  pub day_of_week : Text
  pub day_of_month : Text
  pub month_of_year : Text

pub record CrontabSchedule : Type 0 where
  pub id : ℕ
  pub crontab : Crontab

pub record PeriodicTask : Type 0 where
  pub name : Text
  pub crontab : ℕ
  pub task : Text

pub record Schedules : Type 0 where
  pub schedules : List CrontabSchedule
  pub periodic_tasks : List PeriodicTask

abbrev pub at_one : Crontab
at_one = record {
  minute = codes "0";
  hour = codes "1";
  day_of_week = codes "*";
  day_of_month = codes "*";
  month_of_year = codes "*";
}

abbrev pub report_name : Text
report_name = codes "Daily sales report"

abbrev pub report_task : Text
report_task = codes "apps.orders.tasks.generate_daily_sales_report"

unfoldable pub same_crontab : Crontab → Crontab → Bool
same_crontab a b =
    text_eq a.minute b.minute
    && text_eq a.hour b.hour
    && text_eq a.day_of_week b.day_of_week
    && text_eq a.day_of_month b.day_of_month
    && text_eq a.month_of_year b.month_of_year

-- The keys of the schedules with these columns.
unfoldable pub keys_of : Crontab → List CrontabSchedule → List ℕ
unfolding same_crontab
keys_of c [] = []
keys_of c (s ∷ rest) = if same_crontab s.crontab c then s.id ∷ keys_of c rest else keys_of c rest

unfoldable pub has_task : Text → List PeriodicTask → Bool
has_task name [] = false
has_task name (t ∷ rest) = text_eq t.name name || has_task name rest

-- `task.crontab = schedule`, `task.task = ...`, `task.save()`
unfoldable pub save_task : ℕ → List PeriodicTask → List PeriodicTask
save_task key [] = []
save_task key (t ∷ rest) =
    (if text_eq t.name report_name then record t { crontab = key; task = report_task } else t)
    ∷ save_task key rest

unfoldable pub seed_task : ℕ → List PeriodicTask → List PeriodicTask
unfolding has_task save_task
seed_task key tasks =
    if has_task report_name tasks
    then save_task key tasks
    else record { name = report_name; crontab = key; task = report_task } ∷ tasks

-- After the lookup of the schedule: `none` is `MultipleObjectsReturned`.
unfoldable pub seed_found : ℕ → List ℕ → Schedules → Option Schedules
unfolding seed_task
seed_found fresh [] s = some (record {
  schedules = record { id = fresh; crontab = at_one } ∷ s.schedules;
  periodic_tasks = seed_task fresh s.periodic_tasks;
})
seed_found fresh (key ∷ []) s = some (record s { periodic_tasks = seed_task key s.periodic_tasks })
seed_found fresh (key ∷ other ∷ rest) s = none

-- `Command.handle`
unfoldable pub handle : ℕ → Schedules → Option Schedules
unfolding seed_found keys_of
handle fresh s = seed_found fresh (keys_of at_one s.schedules) s

has_task-save_task :
    (key : ℕ) (tasks : List PeriodicTask)
    → has_task report_name (save_task key tasks) ≡ has_task report_name tasks
unfolding has_task save_task
has_task-save_task key [] = refl
has_task-save_task key (t ∷ rest) = elim (Bool-cases (text_eq t.name report_name)) [
  | inl same ↦ rw (same, same) refl
  | inr other ↦ rw (other, other) (has_task-save_task key rest)
]

save_task-save_task :
    (key : ℕ) (tasks : List PeriodicTask)
    → save_task key (save_task key tasks) ≡ save_task key tasks
unfolding save_task
save_task-save_task key [] = refl
save_task-save_task key (t ∷ rest) = elim (Bool-cases (text_eq t.name report_name)) [
  | inl same ↦
      rw (same, same)
        (ap (λ l. record t { crontab = key; task = report_task } ∷ l)
          (save_task-save_task key rest))
  | inr other ↦ rw (other, other) (ap (λ l. t ∷ l) (save_task-save_task key rest))
]

true-or : true ≡ false → ⊥
true-or h = cc

same_crontab_refl : (c : Crontab) → same_crontab c c ≡ true
unfolding same_crontab
same_crontab_refl c =
    rw
      (
        text_eq_refl c.minute,
        text_eq_refl c.hour,
        text_eq_refl c.day_of_week,
        text_eq_refl c.day_of_month,
        text_eq_refl c.month_of_year,
      )
      refl

save_task-absent :
    (key : ℕ) (tasks : List PeriodicTask)
    → has_task report_name tasks ≡ false
    → save_task key tasks ≡ tasks
unfolding save_task has_task
save_task-absent key [] absent = refl
save_task-absent key (t ∷ rest) absent = elim (Bool-cases (text_eq t.name report_name)) [
  | inl same ↦ absurd (true-or (rw same at absent))
  | inr other ↦ rw other (ap (λ l. t ∷ l) (save_task-absent key rest (rw other at absent)))
]

seed_task-seed_task :
    (key : ℕ) (tasks : List PeriodicTask)
    → seed_task key (seed_task key tasks) ≡ seed_task key tasks
unfolding seed_task has_task save_task
seed_task-seed_task key tasks = elim (Bool-cases (has_task report_name tasks)) [
  | inl there ↦ rw (there, has_task-save_task key tasks, there) (save_task-save_task key tasks)
  | inr absent ↦
      rw (absent, text_eq_refl report_name)
        (ap (λ l. record { name = report_name; crontab = key; task = report_task } ∷ l)
          (save_task-absent key tasks absent))
]

found_again :
    (fresh later : ℕ) (keys : List ℕ) (s s' : Schedules)
    → keys_of at_one s.schedules ≡ keys
    → seed_found fresh keys s ≡ some s'
    → handle later s' ≡ some s'
unfolding handle seed_found keys_of
found_again fresh later [] s s' at done =
    subst (λ t. handle later t ≡ some t) (some_injective done)
      (rw (same_crontab_refl at_one, at)
        (ap
          (λ tasks. some (record {
            schedules = record { id = fresh; crontab = at_one } ∷ s.schedules;
            periodic_tasks = tasks;
          }))
          (seed_task-seed_task fresh s.periodic_tasks)))
found_again fresh later (key ∷ []) s s' at done =
    subst (λ t. handle later t ≡ some t) (some_injective done)
      (rw at (
        ap (λ tasks. some (record s { periodic_tasks = tasks }))
          (seed_task-seed_task key s.periodic_tasks)))
found_again fresh later (key ∷ other ∷ rest) s s' at done = absurd (none-ne-some done)

-- A second run of the command changes nothing.
pub handle_twice :
    (fresh later : ℕ) (s s' : Schedules) → handle fresh s ≡ some s' → handle later s' ≡ some s'
unfolding handle
handle_twice fresh later s s' done = found_again fresh later _ s s' refl done
