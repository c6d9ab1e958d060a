-- ===== src/Tests/Tasks.antt =====
-- The tasks that the order of two mugs queues, and one of too many posters.
use orbit_commerce_platform.Orders.Services.{place_order}
use orbit_commerce_platform.Tests.Data.{two_mugs, shop}
use orbit_commerce_platform.Catalog.Models.{Uuid}
use orbit_commerce_platform.Platform.Env.{
  Task, send_order_confirmation_email, broadcast_order_update,
}
use orbit_commerce_platform.Platform.Memory.{memory, memory-IsDatabase}
use orbit_commerce_platform.Orders.Tasks.{tasks_after_placement, Notified}
use orbit_commerce_platform.Prelude.{◌∷◌, [], List, Text, codes, true, refl, ◌+◌}

abbrev key_text : Uuid → Text
key_text u = (48 + u) ∷ []

abbrev mail_of : Uuid → Text
mail_of u = codes "ann@example.com"

abbrev three_tasks : List Task
three_tasks =
    send_order_confirmation_email 77 ∷ broadcast_order_update 77 ∷ broadcast_order_update 77 ∷ []

tasks_after_placement_example :
    Notified key_text mail_of memory true 77 memory-IsDatabase 3 two_mugs shop refl refl three_tasks
      (place_order 77 3 two_mugs shop)
tasks_after_placement_example =
    tasks_after_placement key_text mail_of memory true 77 memory-IsDatabase 3 two_mugs shop refl
      refl three_tasks (refl, (refl, (refl, tt)))
