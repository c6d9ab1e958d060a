-- ===== src/Tests/Accounts.antt =====
-- users/managers.py, common/views.py, orders/tasks.py and consumers.py, and the command that seeds
-- the schedule
use orbit_commerce_platform.Common.Schedule.{
  handle, Schedules, keys_of, at_one, report_name, seed_found, seed_task, save_task, has_task,
  same_crontab, report_task,
}
use orbit_commerce_platform.Orders.Services.{order_event_payload}
use orbit_commerce_platform.Tests.Data.{shop, no_row}
use orbit_commerce_platform.Platform.Memory.{memory, update}
use orbit_commerce_platform.Orders.Models.{Order, paid, pending}
use orbit_commerce_platform.Catalog.Models.{Uuid}
use orbit_commerce_platform.Orders.Live.{
  ChannelLayer, IsLayer, order_update, Channel, user_group, join, leave, update_reaches_owner,
}
use orbit_commerce_platform.Platform.Exec.{World}
use orbit_commerce_platform.Users.Managers.{
  User, create_superuser, ExtraFields, build_user, created,
}
use orbit_commerce_platform.Prelude.{
  pos, Text, Bool, ◌≡◌, ◌↔◌, ◌∷◌, [], ◌&&◌, ◌||◌, ◌==◌, not, refl, false, true, none, codes,
  text_eq, some, pos,
}

abbrev nothing_given : ExtraFields
nothing_given = record {
  first_name = none;
  last_name = none;
  role = none;
  is_active = none;
  is_staff = none;
  is_superuser = none;
}

abbrev same_text : Text → Text
same_text t = t

abbrev root : User
root =
    build_user same_text same_text 3 7 (codes "r@x") (codes "pw")
      (record nothing_given { is_staff = some true; is_superuser = some true })

made_root :
    (create_superuser same_text same_text 3 7 (codes "r@x") (codes "pw") nothing_given []).0
    ≡ created root
unfolding create_superuser build_user
made_root = refl

-- Groups as the membership that they give.
abbrev layer : ChannelLayer
layer = record {
  Groups = Text → Channel → Bool;
  member = λ g c s. s g c;
  group_add = λ g c s h d. (text_eq g h && c == d) || s h d;
  group_discard = λ g c s h d. s h d && not (text_eq g h && c == d);
}

layer-IsLayer : IsLayer layer
layer-IsLayer = record { member-add = λ g h c d s. refl; member-discard = λ g h c d s. refl }

abbrev no_groups : layer.Groups
no_groups g c = false

abbrev one_code : Uuid → Text
one_code k = k ∷ []

abbrev order_of_3 : Order
order_of_3 = record {
  customer = 3;
  status = paid;
  total_amount = pos 5;
  created_at = 1;
  updated_at = 1;
}

abbrev with_order : World memory
with_order = record shop {
  rows = record (shop.rows) { orders = update 77 (some order_of_3) no_row };
}

update_reaches_owner_example :
    (order_update one_code memory true with_order.rows 77
      ≡ some (user_group one_code 3, order_event_payload 77 order_of_3))
    × ((layer.member (user_group one_code 3) 5 (join one_code layer (some 3) 5 no_groups).1 ≡ true)
        ↔ (order_of_3.customer ≡ 3))
    × (layer.member (user_group one_code 3) 5 (
          leave one_code layer
            (join one_code layer (some 3) 5 no_groups).0
            5
            (join one_code layer (some 3) 5 no_groups).1)
        ≡ false)
update_reaches_owner_example =
    update_reaches_owner one_code layer layer-IsLayer (λ u v h. cc) memory with_order.rows 77 3
      order_of_3 5 no_groups refl (λ g. refl)

abbrev unpaid_order : Order
unpaid_order = record order_of_3 { status = pending }

-- The command finds no schedule, and one whose task runs at another time.
abbrev old_tasks : Schedules
old_tasks = record {
  schedules = record { id = 3; crontab = record at_one { hour = codes "2" } } ∷ [];
  periodic_tasks = record { name = report_name; crontab = 3; task = codes "old" } ∷ [];
}

seeded :
    handle 7 old_tasks
    ≡ some (record {
      schedules = record { id = 7; crontab = at_one } ∷ old_tasks.schedules;
      periodic_tasks = record { name = report_name; crontab = 7; task = report_task } ∷ [];
    })
unfolding handle keys_of seed_found seed_task save_task has_task same_crontab text_eq
seeded = refl
