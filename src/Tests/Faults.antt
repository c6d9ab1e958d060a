-- ===== src/Tests/Faults.antt =====
-- Redis fails at an `ltrim`, and answers again for the next message.
use orbit_commerce_platform.Notifications.Consumer.{
  get, run_loop, starts_with, or_default, recipient_for, truthy,
}
use orbit_commerce_platform.Notifications.Consumer.Faults.{
  run_faulty, no_fault, route, ltrim_fails, append_until,
}
use orbit_commerce_platform.Notifications.Consumer.Faults.Capped.{Left, run_faulty-Left}
use orbit_commerce_platform.Notifications.Store.Memory.{memory_redis-IsRedis}
use orbit_commerce_platform.Notifications.Consumer.Faults.Stops.{fault_stops, run_faulty-run_loop}
use orbit_commerce_platform.Tests.Notifications.{
  feed, takes, written, quiet, paid_message, listed_message, paid_note,
}
use orbit_commerce_platform.Prelude.{◌≡◌, ◌∷◌, ◌++◌, [], codes, false, refl, arith, map, text_eq}

fault_stops_example :
    run_faulty feed 600 takes written
      ([] ++ (ltrim_fails, paid_message) ∷ (no_fault, paid_message) ∷ [])
      quiet
    ≡ (
      false,
      record quiet {
        history =
            append_until feed 600 takes written ltrim_fails 7 (codes "c1") paid_note quiet.history;
      },
    )
unfolding run_faulty route get starts_with or_default recipient_for truthy text_eq
fault_stops_example =
    fault_stops feed 600 takes written ltrim_fails paid_message ((no_fault, paid_message) ∷ [])
      (codes "c1") paid_note refl (λ h. cc) [] quiet quiet refl

run_faulty-run_loop_example :
    run_faulty feed 600 takes written (map (λ m. (no_fault, m)) (paid_message ∷ [])) quiet
    ≡ run_loop feed 600 takes written (paid_message ∷ []) quiet
run_faulty-run_loop_example = run_faulty-run_loop feed 600 takes written (paid_message ∷ []) quiet

run_faulty-Left_example : Left feed memory_redis-IsRedis 600 takes written 0 9 (
    run_faulty feed 600 takes written
      ((no_fault, paid_message) ∷ (ltrim_fails, listed_message) ∷ [])
      quiet)
run_faulty-Left_example =
    run_faulty-Left feed memory_redis-IsRedis 600 takes written
      ((no_fault, paid_message) ∷ (ltrim_fails, listed_message) ∷ []) 0 9 quiet
      (omega arith, (omega arith, omega arith)) (λ t le k. omega arith)
