-- ===== src/UserCalls.antt =====
-- The calls of the user that create requests (source/client.c): subscribe, unsubscribe, publish, ping.
-- What they allocate is at an address, which is null where there is no memory. What a call releases on
-- an error is left in memory, and not used again.
pub mod Subscribed
pub mod Pinged
pub mod Refused
use aws_c_mqtt.Base.{
  ℕ, Bool, true, false, not, List, [], ◌∷◌, ◌++◌, Option, none, some, if◌then◌else◌, ◌==◌, ◌||◌,
}
use aws_c_mqtt.Bytes.{ByteOps}
use aws_c_mqtt.Topics.{SplitOps, is_valid_topic, is_valid_topic_filter}
use aws_c_mqtt.Client.Tasks.{
  TopicSubscription, TaskTopic, SubscribeTask, UnsubscribeTask, Memory, zero_subscribe,
  zero_unsubscribe, write_topic, write_subscribe, write_unsubscribe,
}
use aws_c_mqtt.Client.{Connection, ChannelOps, schedule_next_ping}
use aws_c_mqtt.Requests
use aws_c_mqtt.Requests.{TaskStatus, run_ready, canceled, create_request}
use aws_c_mqtt.Sending.{PublishTask, publish_send, pingreq_send}
use aws_c_mqtt.Subscribing
use aws_c_mqtt.Subscribing.{subscribe_send, unsubscribe_send}

-- The addresses of what a subscribe allocates.
pub record Allocated : Type 0 where
  pub task_arg : ℕ
  pub task_topic : ℕ
  pub filter : ℕ

-- `if (!pointer)`
abbrev pub is_null : ℕ → Bool
is_null pointer = pointer == 0

-- The topic of a subscribe: its topic is that of the string `filter`.
abbrev pub new_topic : Allocated → TopicSubscription → TaskTopic
new_topic at request = record {
  address = at.task_topic;
  request = request;
  filter = record { pointer = at.filter; bytes = request.topic };
}

abbrev pub new_subscribe : List TaskTopic → SubscribeTask
new_subscribe topics = record { topics = topics; subscribe = zero_subscribe; tree_updated = false }

abbrev pub new_unsubscribe : List ℕ → UnsubscribeTask
new_unsubscribe filter = record {
  filter = filter;
  unsubscribe = zero_unsubscribe;
  tree_updated = false;
}

module _ (around : Subscribing.Surroundings) (pool : Requests.Surroundings) where
  abbrev pub with_subscribe : Allocated → TopicSubscription → Connection → Connection
  with_subscribe at request c = record c {
    memory =
        write_subscribe at.task_arg (new_subscribe (new_topic at request ∷ []))
          (write_topic (new_topic at request) c.memory);
  }

  -- `aws_mqtt_client_connection_subscribe`: the message id, or 0.
  unfoldable pub connection_subscribe : Allocated → TopicSubscription → Connection → ℕ × Connection
  connection_subscribe at request c =
      if not (is_valid_topic_filter around.split request.topic)
        || is_null at.task_arg
        || is_null at.task_topic
        || is_null at.filter
      then (0, c)
      else create_request around.channel (subscribe_send around at.task_arg) pool true
          (with_subscribe at request c)

  abbrev pub with_unsubscribe : ℕ → List ℕ → Connection → Connection
  with_unsubscribe task_arg filter c = record c {
    memory = write_unsubscribe task_arg (new_unsubscribe filter) c.memory;
  }

  -- `aws_mqtt_client_connection_unsubscribe`
  unfoldable pub connection_unsubscribe : ℕ → List ℕ → Connection → ℕ × Connection
  connection_unsubscribe task_arg filter c =
      if not (is_valid_topic_filter around.split filter) || is_null task_arg
      then (0, c)
      else create_request around.channel (unsubscribe_send around task_arg) pool true
          (with_unsubscribe task_arg filter c)

  -- `aws_mqtt_client_connection_publish`
  unfoldable pub connection_publish : ℕ → PublishTask → Connection → ℕ × Connection
  connection_publish task_arg task c =
      if not (is_valid_topic around.split task.topic) || is_null task_arg
      then (0, c)
      else create_request around.channel (publish_send around.io around.channel task) pool true c

  -- `aws_mqtt_client_connection_ping`, which always succeeds.
  unfoldable pub connection_ping : Connection → Connection
  connection_ping c =
      (create_request around.channel (pingreq_send around.io around.channel) pool false c).1

  -- `s_on_time_to_ping` of source/client_channel_handler.c.
  unfoldable pub on_time_to_ping : TaskStatus → Connection → Connection
  on_time_to_ping canceled c = c
  on_time_to_ping run_ready c = schedule_next_ping (connection_ping c)
