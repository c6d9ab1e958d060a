-- ===== src/Notifications/Settings.antt =====
-- services/notification_service/app/core/config.py: the topics of the consumer.
use orbit_commerce_platform.Prelude.{
  Text, List, [], ◌∷◌, ◌≡◌, ◌≢◌, codes, All, map, strip, split_text, Lacks, join_texts, ap,
  split_text-join_texts, ◌∙◌, refl,
}

-- `if t.strip()` in a comprehension whose entries are `t.strip()`.
unfoldable pub add_topic : Text → List Text → List Text
add_topic [] topics = topics
add_topic (c ∷ t) topics = (c ∷ t) ∷ topics

unfoldable pub topics_of : List Text → List Text
unfolding add_topic
topics_of [] = []
topics_of (t ∷ ts) = add_topic (strip t) (topics_of ts)

-- `Settings.kafka_topic_list`
unfoldable pub kafka_topic_list : Text → List Text
unfolding topics_of split_text
kafka_topic_list kafka_topics = topics_of (split_text 44 kafka_topics)

-- The default of `kafka_topics`.
abbrev pub default_topics : Text
default_topics = codes "order-events,inventory-events"

kept : (u : Text) (us : List Text) → u ≢ [] → add_topic u us ≡ u ∷ us
unfolding add_topic
kept [] us ne = absurd (ne refl)
kept (c ∷ u) us ne = refl

topics_of-strip :
    (raw topics : List Text)
    → map strip raw ≡ topics
    → All (λ t. t ≢ []) topics
    → topics_of raw ≡ topics
unfolding topics_of add_topic
topics_of-strip [] topics same full = same
topics_of-strip (t ∷ raw) [] same full = cc
topics_of-strip (t ∷ raw) (u ∷ us) same (nonempty, full) =
    let here : strip t ≡ u = cc in
    let later : topics_of raw ≡ us = topics_of-strip raw us (cc) full in
    rw (here, later) (kept u us nonempty)

-- Topics that are written with commas between them, and with any spaces around each of them, are
-- read back in their order, if no topic is empty or holds a comma.
pub kafka_topic_list-join_texts :
    (t : Text) (raw topics : List Text)
    → Lacks 44 t
    → All (Lacks 44) raw
    → map strip (t ∷ raw) ≡ topics
    → All (λ u. u ≢ []) topics
    → kafka_topic_list (join_texts 44 t raw) ≡ topics
unfolding kafka_topic_list
kafka_topic_list-join_texts t raw topics ht hs same full =
    ap topics_of (split_text-join_texts 44 t raw ht hs) ∙ topics_of-strip (t ∷ raw) topics same full

added : (t : Text) (ts : List Text) → All (λ u. u ≢ []) ts → All (λ u. u ≢ []) (add_topic t ts)
unfolding add_topic
added [] ts h = h
added (c ∷ t) ts h = (λ e. cc, h)

topics_nonempty : (raw : List Text) → All (λ u. u ≢ []) (topics_of raw)
unfolding topics_of add_topic
topics_nonempty [] = tt
topics_nonempty (t ∷ raw) = added (strip t) (topics_of raw) (topics_nonempty raw)

-- The consumer never subscribes to an empty topic.
pub kafka_topic_list_nonempty : (s : Text) → All (λ u. u ≢ []) (kafka_topic_list s)
unfolding kafka_topic_list
kafka_topic_list_nonempty s = topics_nonempty (split_text 44 s)
