-- ===== src/Notifications/Lifecycle/Connected.antt =====
-- The flag of the consumer behind the health answer, and the phases in which its task can stay.
use orbit_commerce_platform.Notifications.Lifecycle.{
  Consumer, happens, health, Phase, Event, consuming, ended, all_happen, begin_task, close_task,
  Store, stop_consumer, scheduled, start_once, leave_task, new_consumer, run_end, start_consumer,
  run_start, run_leave, closing, begins, abandoned, unreachable, closes, Stop, Start, no_task,
  returns, breaks, connects, starts, leaves, raises, cancelled_before, stops,
}
use mathlib.Core.Path.{subst}
use orbit_commerce_platform.Prelude.{
  ◌⊎◌, inl, inr, ap, ◌≢◌, ◌∙◌, Bool, List, [], ◌∷◌, ◌≡◌, ◌↔◌, true, false, sym, refl,
}

-- The phases in which the flag is set.
flag_in : Phase → Bool
flag_in consuming = true
flag_in closing = true
flag_in abandoned = true
flag_in _ = false

abbrev IsTrue : Consumer → Type 0
IsTrue c = c.connected ≡ flag_in c.task

begin_task-IsTrue :
    (o : Start) (t : Phase) (c : Consumer) → c.task ≡ t → IsTrue c → IsTrue (begin_task o t c)
unfolding begin_task run_start flag_in
begin_task-IsTrue connects scheduled c at h = refl
begin_task-IsTrue unreachable scheduled c at h = refl
begin_task-IsTrue raises scheduled c at h = h ∙ ap flag_in at
begin_task-IsTrue cancelled_before scheduled c at h = h ∙ ap flag_in at
begin_task-IsTrue o no_task c at h = h
begin_task-IsTrue o consuming c at h = h
begin_task-IsTrue o closing c at h = h
begin_task-IsTrue o ended c at h = h
begin_task-IsTrue o abandoned c at h = h

leave_task-IsTrue : (t : Phase) (c : Consumer) → c.task ≡ t → IsTrue c → IsTrue (leave_task t c)
unfolding leave_task run_leave flag_in
leave_task-IsTrue consuming c at h = h ∙ ap flag_in at
leave_task-IsTrue no_task c at h = h
leave_task-IsTrue scheduled c at h = h
leave_task-IsTrue closing c at h = h
leave_task-IsTrue ended c at h = h
leave_task-IsTrue abandoned c at h = h

close_task-IsTrue :
    (o : Stop) (t : Phase) (c : Consumer) → c.task ≡ t → IsTrue c → IsTrue (close_task o t c)
unfolding close_task run_end flag_in
close_task-IsTrue returns closing c at h = refl
close_task-IsTrue breaks closing c at h = h ∙ ap flag_in at
close_task-IsTrue o no_task c at h = h
close_task-IsTrue o scheduled c at h = h
close_task-IsTrue o consuming c at h = h
close_task-IsTrue o ended c at h = h
close_task-IsTrue o abandoned c at h = h

start_once-IsTrue : (t : Phase) (c : Consumer) → c.task ≡ t → IsTrue c → IsTrue (start_once t c)
unfolding start_once start_consumer flag_in
start_once-IsTrue no_task c at h = h ∙ ap flag_in at
start_once-IsTrue scheduled c at h = h
start_once-IsTrue consuming c at h = h
start_once-IsTrue closing c at h = h
start_once-IsTrue ended c at h = h
start_once-IsTrue abandoned c at h = h

happens-IsTrue : (e : Event) (c : Consumer) → IsTrue c → IsTrue (happens e c)
unfolding happens stop_consumer
happens-IsTrue starts c h = start_once-IsTrue c.task c refl h
happens-IsTrue (begins o) c h = begin_task-IsTrue o c.task c refl h
happens-IsTrue leaves c h = leave_task-IsTrue c.task c refl h
happens-IsTrue (closes o) c h = close_task-IsTrue o c.task c refl h
happens-IsTrue stops c h = h

all_happen-IsTrue : (es : List Event) (c : Consumer) → IsTrue c → IsTrue (all_happen es c)
all_happen-IsTrue [] c h = h
all_happen-IsTrue (e ∷ es) c h = all_happen-IsTrue es (happens e c) (happens-IsTrue e c h)

no_flag : false ≢ true
no_flag h = cc

flag_phases : (t : Phase) → flag_in t ≡ true → (t ≡ consuming) ⊎ ((t ≡ closing) ⊎ (t ≡ abandoned))
unfolding flag_in
flag_phases no_task h = absurd (no_flag h)
flag_phases scheduled h = absurd (no_flag h)
flag_phases consuming h = inl refl
flag_phases closing h = inr (inl refl)
flag_phases ended h = absurd (no_flag h)
flag_phases abandoned h = inr (inr refl)

phases_flag : (t : Phase) → (t ≡ consuming) ⊎ ((t ≡ closing) ⊎ (t ≡ abandoned)) → flag_in t ≡ true
unfolding flag_in
phases_flag t (inl at) = ap flag_in at
phases_flag t (inr (inl at)) = ap flag_in at
phases_flag t (inr (inr at)) = ap flag_in at

-- Nothing happens any more to a task that has ended, in whichever way.
abbrev IsLast : Phase → Type 0
IsLast t = (t ≡ ended) ⊎ (t ≡ abandoned)

abbrev Frozen : Phase → Bool → Consumer → Type 0
Frozen t b c = (c.task ≡ t) × (c.connected ≡ b)

frozen :
    (t : Phase) (b : Bool) (e : Event) (c : Consumer)
    → IsLast t
    → Frozen t b c
    → Frozen t b (happens e c)
unfolding happens stop_consumer start_once begin_task leave_task close_task
frozen t b starts c (inl last) h = subst (λ x. Frozen t b (start_once x c)) (sym (h.0 ∙ last)) h
frozen t b starts c (inr last) h = subst (λ x. Frozen t b (start_once x c)) (sym (h.0 ∙ last)) h
frozen t b (begins o) c (inl last) h =
    subst (λ x. Frozen t b (begin_task o x c)) (sym (h.0 ∙ last)) h
frozen t b (begins o) c (inr last) h =
    subst (λ x. Frozen t b (begin_task o x c)) (sym (h.0 ∙ last)) h
frozen t b leaves c (inl last) h = subst (λ x. Frozen t b (leave_task x c)) (sym (h.0 ∙ last)) h
frozen t b leaves c (inr last) h = subst (λ x. Frozen t b (leave_task x c)) (sym (h.0 ∙ last)) h
frozen t b (closes o) c (inl last) h =
    subst (λ x. Frozen t b (close_task o x c)) (sym (h.0 ∙ last)) h
frozen t b (closes o) c (inr last) h =
    subst (λ x. Frozen t b (close_task o x c)) (sym (h.0 ∙ last)) h
frozen t b stops c last h = h

final :
    (t : Phase) (b : Bool) (es : List Event) (c : Consumer)
    → IsLast t
    → Frozen t b c
    → Frozen t b (all_happen es c)
final t b [] c last h = h
final t b (e ∷ es) c last h = final t b es (happens e c) last (frozen t b e c last h)

abandoned_now : (c : Consumer) → c.task ≡ closing → (happens (closes breaks) c).task ≡ abandoned
unfolding happens close_task run_end
abandoned_now c at = subst (λ t. (close_task breaks t c).task ≡ abandoned) (sym at) refl

-- Whatever happens to a new consumer, in any order, the health answer says that Kafka is connected
-- exactly while the task is in its loop, while it waits for the client's stop after the loop, and
-- if that stop was broken off. And if the stop breaks off, by an exception or a cancellation while
-- the task waits for it, the answer says connected for good, whatever happens later, though the
-- loop has ended.
pub health_tells :
    (es : List Event) (store : Store) (answers : Bool)
    → (((health store answers (all_happen es new_consumer)).kafka_connected ≡ true) ↔ (
        ((all_happen es new_consumer).task ≡ consuming)
        ⊎ (((all_happen es new_consumer).task ≡ closing)
            ⊎ ((all_happen es new_consumer).task ≡ abandoned))))
      × ((all_happen es new_consumer).task ≡ closing
          → (later : List Event)
          → let c = all_happen later (happens (closes breaks) (all_happen es new_consumer)) in
            (c.task ≡ abandoned) × ((health store answers c).kafka_connected ≡ true))
unfolding health flag_in
health_tells es store answers =
    let c = all_happen es new_consumer in
    let told : IsTrue c = all_happen-IsTrue es new_consumer refl in
    (
      (λ h. flag_phases c.task (sym told ∙ h), λ at. told ∙ phases_flag c.task at),
      λ at later.
          let gone = abandoned_now c at in
          let broken = happens (closes breaks) c in
          final abandoned true later broken (inr refl)
            (gone, happens-IsTrue (closes breaks) c told ∙ ap flag_in gone),
    )

ended_now :
    (c : Consumer) → c.task ≡ scheduled → Frozen ended false (happens (begins unreachable) c)
unfolding happens begin_task run_start
ended_now c at = subst (λ t. Frozen ended false (begin_task unreachable t c)) (sym at) (refl, refl)

-- A consumer whose broker cannot be reached when it begins never consumes, whatever happens later:
-- nothing tries again.
pub unreachable_is_final :
    (c : Consumer) (es : List Event)
    → c.task ≡ scheduled
    → (all_happen (begins unreachable ∷ es) c).task ≡ ended
      × ((all_happen (begins unreachable ∷ es) c).connected ≡ false)
unreachable_is_final c es scheduled_now =
    final ended false es _ (inl refl) (ended_now c scheduled_now)
