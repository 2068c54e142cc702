-- ===== src/UserCalls/Refused.antt =====
-- Calls of the user that are refused (source/client.c).
use aws_c_mqtt.Base.{ℕ, ◌≤◌, ◌<◌, ◌≡◌, refl, Bool, true, false, List, length, arith}
use aws_c_mqtt.Topics.{
  SplitOps, IsSplitOps, slash, plus, hash, is_valid_topic, is_valid_topic_filter,
}
use aws_c_mqtt.Topics.Wildcards.{IsFree, IsFilter, is_valid_topic_lem, is_valid_topic_filter_lem}
use aws_c_mqtt.Client.Tasks.{TopicSubscription}
use aws_c_mqtt.Client.{Connection}
use aws_c_mqtt.Requests
use aws_c_mqtt.Sending.{PublishTask}
use aws_c_mqtt.Subscribing
use aws_c_mqtt.UserCalls.{
  Allocated, connection_subscribe, connection_unsubscribe, connection_publish,
}

-- What MQTT asks of a topic filter, and of a topic name.
abbrev pub IsTopicFilter : SplitOps → List ℕ → Type 0
IsTopicFilter ops filter =
    (1 ≤ length filter)
    × (length filter < 65536)
    × IsFree 0 filter
    × IsFilter (ops.split filter slash)

abbrev pub IsTopicName : List ℕ → Type 0
IsTopicName topic =
    (1 ≤ length topic)
    × (length topic < 65536)
    × IsFree 0 topic
    × IsFree plus topic
    × IsFree hash topic

module _ (around : Subscribing.Surroundings) (law : IsSplitOps around.split)
    (pool : Requests.Surroundings) where
  invalid_filter :
      (filter : List ℕ)
      → ¬ IsTopicFilter around.split filter
      → is_valid_topic_filter around.split filter ≡ false
  invalid_filter filter h = step (is_valid_topic_filter around.split filter) refl
    where
      step :
          (b : Bool)
          → is_valid_topic_filter around.split filter ≡ b
          → is_valid_topic_filter around.split filter ≡ false
      step true e = absurd (h ((is_valid_topic_filter_lem around.split law filter).0 e))
      step false e = e

  invalid_topic_name :
      (topic : List ℕ) → ¬ IsTopicName topic → is_valid_topic around.split topic ≡ false
  invalid_topic_name topic h = step (is_valid_topic around.split topic) refl
    where
      step :
          (b : Bool)
          → is_valid_topic around.split topic ≡ b
          → is_valid_topic around.split topic ≡ false
      step true e = absurd (h ((is_valid_topic_lem around.split law topic).0 e))
      step false e = e

  -- A subscribe or an unsubscribe of a topic filter that is none by MQTT (empty, longer than 65535 bytes, with
  -- a null byte, or with a wildcard out of place), and a publish to a topic name that is none (so,
  -- or with a wildcard at all), return 0 and leave the connection as it is, whatever memory there is.
  pub calls_refused :
      (at : Allocated) (request : TopicSubscription) (task_arg : ℕ) (task : PublishTask)
      (c : Connection)
      → ¬ IsTopicFilter around.split request.topic
      → ¬ IsTopicName task.topic
      → (connection_subscribe around pool at request c ≡ (0, c))
        × (connection_unsubscribe around pool task_arg request.topic c ≡ (0, c))
        × (connection_publish around pool task_arg task c ≡ (0, c))
  unfolding connection_subscribe connection_unsubscribe connection_publish
  calls_refused at request task_arg task c bad_filter bad_topic =
      let f = invalid_filter request.topic bad_filter in
      let t = invalid_topic_name task.topic bad_topic in
      (ground (arith, f), ground (arith, f), ground (arith, t))
