-- ===== src/Tests/Stream.antt =====
-- Messages of a server, cut in several ways, and the handlers at concrete packets.
use aws_c_mqtt.Base.{◌≡◌, ◌≢◌, refl, true, false, [], ◌∷◌, ◌++◌, length, arith, some}
use aws_c_mqtt.Bytes.{ok, err, ◌>>◌, out_of_fuel, short_buffer}
use aws_c_mqtt.Bytes.Simple.{simple, simple-IsByteOps}
use aws_c_mqtt.FixedHeader.{bad_flags, has_flags}
use aws_c_mqtt.FixedHeader.Wire.{header_bytes}
use aws_c_mqtt.Packets.Connack.{connack_init, connack_bytes, connack_init-IsConnack}
use aws_c_mqtt.Client.{
  Connection, ChannelOps, Deliver, send_message, emit, zero_buf, connecting, state_number,
}
use aws_c_mqtt.Client.Tasks.{TaskTopic, Memory, zero_subscribe, zero_unsubscribe}
use aws_c_mqtt.TopicTree.{topic_tree_init}
use aws_c_mqtt.Channel.{
  Message, read_packets, Process, process_read_message, finish_message, set_pending,
}
use aws_c_mqtt.Channel.Termination.{read_packets-ne-out_of_fuel}
use aws_c_mqtt.Channel.Framing.{Frame, IsFrame, frame_bytes, stream, process_all}
use aws_c_mqtt.Channel.Messages.{
  keep, answers, given_back, process_read_message_whole, process_read_message_cut,
}
use aws_c_mqtt.Channel.Resume.{
  handled, kept_byte, process_read_message_rest, process_read_message_incomplete,
  process_read_message_split_header,
}
use aws_c_mqtt.Handlers.{packet_handler_connack}
use aws_c_mqtt.Handlers.Answers.{accepted, packet_handler_connack_lem}
use aws_c_mqtt.Tests.{empty_buffer}

abbrev pub open_channel : ChannelOps
open_channel = record {
  acquire_message = λ n. some empty_buffer;
  can_send = λ bs. true;
  current_clock_time = 5;
  can_allocate = λ n. true;
}

abbrev no_topic : TaskTopic
no_topic = record {
  address = 0;
  request = record { topic = []; qos = 0; on_publish = 0; on_cleanup = 0; on_publish_ud = 0 };
  filter = record { pointer = 0; bytes = [] };
}

abbrev no_memory : Memory
no_memory = record {
  topics = λ a. no_topic;
  subscribes = λ a. record { topics = []; subscribe = zero_subscribe; tree_updated = false };
  unsubscribes = λ a. record { filter = []; unsubscribe = zero_unsubscribe; tree_updated = false };
}

abbrev pub idle : Connection
idle = record {
  state = connecting;
  connection_count = 0;
  keep_alive_time_secs = 60;
  has_slot = true;
  has_on_resumed = true;
  has_on_connection_complete = true;
  outstanding_requests = [];
  pending_requests = 3 ∷ 4 ∷ [];
  last_pingresp_timestamp = 0;
  request_timeout_ns = 3000000000;
  pending_packet = zero_buf;
  subscriptions = topic_tree_init;
  memory = no_memory;
  events = [];
}

-- Each packet is recorded with its type.
abbrev recorder : Process
recorder = λ type packet c. ok tt (emit (send_message (type ∷ packet)) c)

-- Each packet is refused.
abbrev refusal : Process
refusal = λ type packet c. err short_buffer c

-- A PINGRESP.
abbrev ping : Frame
ping = record { header = record { packet_type = 13; remaining_length = 0; flags = 0 }; body = [] }

-- A PUBACK.
abbrev puback : Frame
puback = record {
  header = record { packet_type = 4; remaining_length = 2; flags = 0 };
  body = 0 ∷ 7 ∷ [];
}

ping-IsFrame : IsFrame ping
unfolding bad_flags has_flags
ping-IsFrame = ground arith

puback-IsFrame : IsFrame puback
unfolding bad_flags has_flags
puback-IsFrame = ground arith

abbrev two_packets : Message
two_packets = record { is_application_data = true; message_data = stream (ping ∷ puback ∷ []) }

process_read_message_whole_example :
    process_read_message simple open_channel recorder two_packets idle
    ≡ given_back (length (stream (ping ∷ puback ∷ []))) (answers recorder (ping ∷ puback ∷ []) idle)
process_read_message_whole_example =
    process_read_message_whole simple simple-IsByteOps open_channel recorder ping (puback ∷ []) idle
      ping-IsFrame (puback-IsFrame, tt) refl

-- The PUBACK is cut in the middle of its identifier.
abbrev cut_message : Message
cut_message = record {
  is_application_data = true;
  message_data = stream (ping ∷ []) ++ (header_bytes puback.header ++ (0 ∷ []));
}

process_read_message_cut_example :
    process_read_message simple open_channel recorder cut_message idle
    ≡ ((process_all simple open_channel recorder (ping ∷ [])
            >> keep (header_bytes puback.header ++ (0 ∷ [])) (length (frame_bytes puback)))
          >> finish_message simple open_channel recorder cut_message)
        idle
process_read_message_cut_example =
    process_read_message_cut simple simple-IsByteOps open_channel recorder (ping ∷ []) puback
      (0 ∷ []) (7 ∷ []) idle (ping-IsFrame, tt) puback-IsFrame refl (omega arith) refl refl

abbrev waiting : Connection
waiting =
    set_pending
      (record {
        buffer = header_bytes puback.header ++ (0 ∷ []);
        capacity = length (frame_bytes puback);
      })
      idle

abbrev last_message : Message
last_message = record { is_application_data = true; message_data = (7 ∷ []) ++ stream (ping ∷ []) }

process_read_message_rest_example :
    process_read_message simple open_channel recorder last_message waiting
    ≡ ((handled recorder puback >> process_all simple open_channel recorder (ping ∷ []))
          >> finish_message simple open_channel recorder last_message)
        (set_pending
          (record { buffer = frame_bytes puback; capacity = length (frame_bytes puback) })
          waiting)
process_read_message_rest_example =
    process_read_message_rest simple simple-IsByteOps open_channel recorder puback (0 ∷ []) (7 ∷ [])
      (ping ∷ []) waiting puback-IsFrame (ping-IsFrame, tt) refl (omega arith) refl

abbrev half : Connection
half = set_pending (record { buffer = 64 ∷ 2 ∷ []; capacity = 4 }) idle

process_read_message_incomplete_example :
    process_read_message simple open_channel recorder
      (record { is_application_data = true; message_data = 0 ∷ [] })
      half
    ≡ ok tt (set_pending (record { buffer = 64 ∷ 2 ∷ 0 ∷ []; capacity = 4 }) half)
process_read_message_incomplete_example =
    process_read_message_incomplete simple simple-IsByteOps open_channel recorder
      (record { is_application_data = true; message_data = 0 ∷ [] }) (64 ∷ 2 ∷ []) 4 half refl
      (omega arith) (omega arith) refl (omega arith) (omega arith)

process_read_message_split_header_example :
    (process_read_message simple open_channel refusal
        (record { is_application_data = true; message_data = 64 ∷ [] })
        idle
      ≡ ok tt (kept_byte 64 idle))
    × (process_read_message simple open_channel refusal
          (record { is_application_data = true; message_data = 2 ∷ 0 ∷ 7 ∷ [] })
          (kept_byte 64 idle)
        ≡ err short_buffer (set_pending zero_buf (kept_byte 64 idle)))
process_read_message_split_header_example =
    process_read_message_split_header simple simple-IsByteOps open_channel refusal 64
      (record { is_application_data = true; message_data = 2 ∷ 0 ∷ 7 ∷ [] }) idle
      (kept_byte 64 idle) short_buffer refl refl refl (omega arith) refl

abbrev deliver : Deliver
deliver p c = ok tt c

packet_handler_connack_lem_example :
    packet_handler_connack simple open_channel (connack_bytes (connack_init false 0)) idle
    ≡ ok tt (accepted (connack_init false 0) idle)
unfolding state_number connack_init
packet_handler_connack_lem_example =
    packet_handler_connack_lem simple simple-IsByteOps open_channel (connack_init false 0) idle
      (connack_init-IsConnack false 0)

-- A PINGRESP and the first byte of a PUBACK.
read_packets-ne-out_of_fuel_example :
    read_packets simple open_channel recorder 3 (208 ∷ 0 ∷ 64 ∷ []) idle ≢ err out_of_fuel idle
read_packets-ne-out_of_fuel_example =
    read_packets-ne-out_of_fuel simple simple-IsByteOps open_channel recorder 3 (208 ∷ 0 ∷ 64 ∷ [])
      idle idle (omega arith, (omega arith, (omega arith, tt))) (omega arith) (omega arith)
