-- ===== src/Client/Tasks.antt =====
-- The memory that the requests of source/client.c keep from one attempt to the next: the arguments of
-- the tasks of a subscribe and an unsubscribe, and the topics that the subscriptions point to. A
-- pointer is a number, and 0 is the null pointer.
use aws_c_mqtt.Base.{ℕ, Bool, List, [], ◌==◌, if◌then◌else◌}
use aws_c_mqtt.FixedHeader.{zero_header}
use aws_c_mqtt.Packets.Subscribe.{SubscribePacket}
use aws_c_mqtt.Packets.Unsubscribe.{UnsubscribePacket}
use aws_c_mqtt.TopicTree.Action.{AString}

-- `struct aws_mqtt_topic_subscription`: its callbacks and user data are pointers.
pub record TopicSubscription : Type 0 where
  pub topic : List ℕ
  pub qos : ℕ
  pub on_publish : ℕ
  pub on_cleanup : ℕ
  pub on_publish_ud : ℕ

-- `struct subscribe_task_topic`, at its address.
pub record TaskTopic : Type 0 where
  pub address : ℕ
  pub request : TopicSubscription
  pub filter : AString

-- `struct subscribe_task_arg`. The list of pointers to topics is the list of the topics.
pub record SubscribeTask : Type 0 where
  pub topics : List TaskTopic
  pub subscribe : SubscribePacket
  pub tree_updated : Bool

-- `struct unsubscribe_task_arg`
pub record UnsubscribeTask : Type 0 where
  pub filter : List ℕ
  pub unsubscribe : UnsubscribePacket
  pub tree_updated : Bool

-- What is at an address.
pub record Memory : Type 0 where
  pub topics : ℕ → TaskTopic
  pub subscribes : ℕ → SubscribeTask
  pub unsubscribes : ℕ → UnsubscribeTask

abbrev pub zero_subscribe : SubscribePacket
zero_subscribe = record { fixed_header = zero_header; packet_identifier = 0; topic_filters = [] }

abbrev pub zero_unsubscribe : UnsubscribePacket
zero_unsubscribe = record { fixed_header = zero_header; packet_identifier = 0; topic_filters = [] }

abbrev pub write_at {ℓ} : {A : Type ℓ} → ℕ → A → (ℕ → A) → ℕ → A
write_at address a old at = if at == address then a else old at

abbrev pub write_topic : TaskTopic → Memory → Memory
write_topic topic m = record m { topics = write_at topic.address topic m.topics }

abbrev pub write_subscribe : ℕ → SubscribeTask → Memory → Memory
write_subscribe address task m = record m { subscribes = write_at address task m.subscribes }

abbrev pub write_unsubscribe : ℕ → UnsubscribeTask → Memory → Memory
write_unsubscribe address task m = record m { unsubscribes = write_at address task m.unsubscribes }
