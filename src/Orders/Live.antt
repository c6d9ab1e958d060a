-- ===== src/Orders/Live.antt =====
-- services/core_api/apps/orders/tasks.py and consumers.py: the order's status on the customer's
-- sockets. The channel layer is the parameter `ChannelLayer`.
use orbit_commerce_platform.Common.Kafka.{Payload}
use orbit_commerce_platform.Orders.Models.{Order}
use orbit_commerce_platform.Platform.Env.{Env}
use orbit_commerce_platform.Orders.Services.{order_event_payload}
use orbit_commerce_platform.Catalog.Models.{Uuid}
use orbit_commerce_platform.Prelude.{
  ◌∙◌, sym, ℕ, Text, Bool, Option, ◌≡◌, ◌&&◌, ◌||◌, ◌++◌, ◌==◌, not, text_eq, some, codes, none,
  if◌then◌else◌, false, true, ◌↔◌, arith, Bool-cases, ap, text_eq_refl, inl, ==_refl, append-cancel,
  refl, text_eq_sound, inr,
}

abbrev pub Channel : Type 0
Channel = ℕ

gone : (a : Bool) → ((a || false) && not a) ≡ false
gone a = ground arith

-- Groups of channels; `member` is who a message to a group reaches.
pub record ChannelLayer : Type 1 where
  pub Groups : Type 0
  pub member : Text → Channel → Groups → Bool
  pub group_add : Text → Channel → Groups → Groups
  pub group_discard : Text → Channel → Groups → Groups

pub record IsLayer (l : ChannelLayer) : Type 0 where
  pub member-add :
      (g h : Text) (c d : Channel) (s : l.Groups)
      → l.member h d (l.group_add g c s) ≡ ((text_eq g h && c == d) || l.member h d s)
  pub member-discard :
      (g h : Text) (c d : Channel) (s : l.Groups)
      → l.member h d (l.group_discard g c s) ≡ (l.member h d s && not (text_eq g h && c == d))

-- A connection: `group_name` is set once a user has joined, `closed` is the code of a refusal.
pub record Connection : Type 0 where
  pub group_name : Option Text
  pub closed : Option ℕ

module _ (str : Uuid → Text) where
  unfoldable pub user_group : Uuid → Text
  user_group id = codes "orders_" ++ str id

  module _ (l : ChannelLayer) where
    -- `OrderStatusConsumer.connect`; `none` is a user who is not authenticated.
    unfoldable pub join : Option Uuid → Channel → l.Groups → Connection × l.Groups
    unfolding user_group
    join none channel s = (record { group_name = none; closed = some 4001 }, s)
    join (some user) channel s = (
      record { group_name = some (user_group user); closed = none },
      l.group_add (user_group user) channel s,
    )

    pub leave_group : Option Text → Channel → l.Groups → l.Groups
    leave_group none channel s = s
    leave_group (some group) channel s = l.group_discard group channel s

    -- `OrderStatusConsumer.disconnect`
    unfoldable pub leave : Connection → Channel → l.Groups → l.Groups
    unfolding leave_group
    leave connection channel s = leave_group connection.group_name channel s

  -- `broadcast_order_update`: the group and the order that go to `group_send`, if any.
  unfoldable pub update_of : Bool → Uuid → Option Order → Option (Text × Payload)
  unfolding user_group order_event_payload
  update_of layer id none = none
  update_of layer id (some o) =
      if layer then some (user_group o.customer, order_event_payload id o) else none

  unfoldable pub order_update : (e : Env) → Bool → e.Rows → Uuid → Option (Text × Payload)
  unfolding update_of
  order_update e layer rows id = update_of layer id (e.order rows id)

  same_group :
      (distinct : (u v : Uuid) → str u ≡ str v → u ≡ v) (user owner : Uuid) (channel : Channel)
      → ((text_eq (user_group user) (user_group owner) && channel == channel) || false) ≡ true
      → owner ≡ user
  unfolding user_group
  same_group distinct user owner channel h =
      elim (Bool-cases (text_eq (user_group user) (user_group owner))) [
        | inl same ↦
            sym (distinct user owner (append-cancel (codes "orders_") _ _ (text_eq_sound _ _ same)))
        | inr apart ↦ ground arith
      ]

  module _ (l : ChannelLayer) (laws : IsLayer l) where
    -- A customer's connection that has joined gets the update of an order exactly if the order is
    -- the customer's, as long as it was in no group before; once it has left, it gets none.
    -- Different users are written differently.
    pub update_reaches_owner :
        (distinct : (u v : Uuid) → str u ≡ str v → u ≡ v) (e : Env) (rows : e.Rows) (id user : Uuid)
        (o : Order) (channel : Channel) (s : l.Groups)
        → e.order rows id ≡ some o
        → ((g : Text) → l.member g channel s ≡ false)
        → (order_update e true rows id ≡ some (user_group o.customer, order_event_payload id o))
          × ((l.member (user_group o.customer) channel (join l (some user) channel s).1 ≡ true)
              ↔ (o.customer ≡ user))
          × (l.member
                (user_group o.customer)
                channel
                (leave l (join l (some user) channel s).0 channel (join l (some user) channel s).1)
              ≡ false)
    unfolding order_update update_of join leave leave_group
    update_reaches_owner distinct e rows id user o channel s found new =
        let mine : Text = user_group user in
        let theirs : Text = user_group o.customer in
        (
          rw found refl,
          (
            λ h. same_group distinct user o.customer channel (
                sym (
                  laws.member-add mine theirs channel channel s
                  ∙ ap (λ b. (text_eq mine theirs && channel == channel) || b) (new theirs))
                ∙ h),
            λ same.
                laws.member-add mine theirs channel channel s
                ∙ rw (same, text_eq_refl mine, ==_refl channel) refl,
          ),
          laws.member-discard mine theirs channel channel (l.group_add mine channel s)
              ∙ rw (laws.member-add mine theirs channel channel s, new theirs) (gone _),
        )
