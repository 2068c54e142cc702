-- ===== src/Lib.antt =====
-- The MQTT 3.1.1 client library aws-c-mqtt: its packet codecs, the validation of topics, what its channel
-- handler does with the bytes that arrive, its tree of subscriptions, its requests, and the life of its
-- connection.
--
-- A fixed header (source/fixed_header.c) is the type and the flags of a packet and its remaining
-- length. The packets (source/packets.c) are read and written through it: each packet type has an init
-- routine that sets the fixed header, an encoder that appends to a byte buffer and a decoder that takes
-- bytes off the front of a cursor. The channel handler (source/client_channel_handler.c) cuts packets
-- out of the messages that arrive, keeps a part of a packet until the rest is there, and hands each
-- packet to the handler of its type, which changes the connection, calls the user back, and answers.
-- Topics and topic filters of the user are validated (source/mqtt.c). The subscriptions of a connection
-- are a tree with a node for each part of a topic filter (source/topic_tree.c): a transaction leaves
-- actions, which are committed or rolled back, and a publish walks down the tree. A request of the user
-- is outstanding until it is sent and, where it asks for that, acknowledged; its task sends it again. When
-- the channel is shut down, the client (source/client.c) tells the user or reconnects.
--
-- Files and what they model:
--   Base         Boolean tests, lists and bit operations, over the native natural numbers
--   Bytes        a byte buffer (aws_byte_buf) and a cursor (aws_byte_cursor) as lists of bytes, the
--                error codes of include/aws/mqtt/mqtt.h, and the chaining of calls that return
--                AWS_OP_SUCCESS or AWS_OP_ERR. The calls of aws-c-common are the record ByteOps, and
--                what is relied on of them is IsByteOps; Bytes.Simple keeps these promises
--   PacketType   enum aws_mqtt_packet_type of include/aws/mqtt/private/fixed_header.h
--   FixedHeader  source/fixed_header.c: aws_mqtt_fixed_header_encode is fixed_header_encode,
--                aws_mqtt_fixed_header_decode is fixed_header_decode, and so on
--   Packets      source/packets.c: Field holds s_encode_buffer and s_decode_buffer, Ack, Connack,
--                Connection, Publish, Connect, Subscribe and Unsubscribe a packet each, with the
--                names of the source without aws_mqtt_packet_. Filters holds the loops of Subscribe
--                and Unsubscribe, over the record ArrayOps for aws_array_list_push_back. RoundTrips
--                takes each packet through its encoder and its decoder
--   Topics       source/mqtt.c: s_is_valid_topic is is_valid. aws_byte_cursor_next_split of aws-c-common
--                is the record SplitOps; Wildcards says what a topic and a topic filter are
--   TopicTree    the nodes of source/topic_tree.c and include/aws/mqtt/private/topic_tree.h, and how they
--                are found, made and destroyed. Action is what inserting and removing leave in a
--                transaction, Commit and Transaction how that is committed and rolled back, Publish
--                aws_mqtt_topic_tree_publish. Fields and Subscriptions say what is found at a path of
--                parts; Insert, Remove and Subscribe what the operations do to that; Matching and
--                Deliveries which subscriptions a publish reaches; Owners which trees have their
--                strings in order
--   Client       the connection of include/aws/mqtt/private/client_impl.h as far as the channel
--                handler and the requests keep it; mqtt_request_complete and mqtt_disconnect_impl. What
--                happens outside the connection is a list of events in their order. Tasks is the
--                memory that requests keep between attempts: subscribe_task_arg, subscribe_task_topic
--                and unsubscribe_task_arg of source/client.c, by their addresses
--   Requests     mqtt_create_request and s_request_timeout_task of source/client_channel_handler.c, over
--                any routine that sends a request. Ids is the search for a message id, Table what is
--                found in the table of requests, Tasks what a task does, Runs every order of calls,
--                Connected a request that is created while the connection is up
--   Session      the state of the connection in source/client.c: connect, reconnect and disconnect,
--                s_attempt_reconect is attempt_reconnect, s_mqtt_client_shutdown is client_shutdown.
--                What is not under the connection's control at a call is a record World. BackOff is the
--                time between attempts, Shutdown where a connection is left
--   Sending      s_pingreq_send and s_publish_send of source/client.c, as routines that send a request:
--                Chunks is the loop that cuts a payload into messages, Keeps what stays as it is
--   Options      the options of a connection in source/client.c: set_will, set_login, and the CONNECT that
--                s_mqtt_client_init (client_init) makes of them; Packet is what that CONNECT carries, Sent
--                that it is sent
--   Subscribing  s_subscribe_send and s_unsubscribe_send of source/client.c over the packets, the topic
--                tree and the channel. Attempts and Outcomes are what holds whichever call fails, Trees
--                and Unsubscribes what becomes of the tree; Filling, Messages, Sends and
--                UnsubscribePackets what is sent; Replay every order of attempts against a table of
--                subscriptions. Delivering is s_on_publish_client_wrapper, with the delivery to the tree
--                that Handlers takes: a PUBLISH that arrives, up to the callbacks of the user
--   UserCalls    aws_mqtt_client_connection_subscribe, _unsubscribe, _publish and _ping of source/client.c
--                over Requests, and s_on_time_to_ping of source/client_channel_handler.c. Subscribed
--                and Pinged are the calls while the connection is up, Refused those with a bad topic
--   Closing      s_shutdown and s_mqtt_disconnect_task of source/client_channel_handler.c
--   Handlers     source/client_channel_handler.c from s_packet_handler_default to
--                s_process_mqtt_packet. A handler takes the delivery to the topic tree as an operation
--                on the connection, and the channel as the record ChannelOps
--   Channel      s_process_read_message, over any packet handler: process_mqtt_packet of Handlers is
--                the one of the source. Framing is the loop over a message, Messages and Resume are
--                whole messages without and with a pending packet, Termination is the loop on any bytes
--   Tests        the theorems at concrete packets
--
-- In the tree a hash table is the list of its entries, in the order of iteration, and a pointer to a node
-- is the path of parts that leads to it. Pointers to strings, callbacks and user data are numbers, 0 for
-- null. There is memory for every node: where s_topic_node_new gets none, the source leaves an entry with
-- a null node in the table, which is not modelled. The topic of a node is an offset in its string. The
-- strings that are destroyed and the user data that is cleaned up are logged in their order. A key is
-- kept as its bytes, where the source has a cursor into the string of a node, which must not have been
-- destroyed: TopicTree.Owners says which trees have their strings in order and which filters can be
-- removed from them, and the theorems on removals are about those. A SUBSCRIBE is encoded from cursors
-- into the strings of its topics too, and where one of them was destroyed the attempt ends with the
-- error use_after_free: the source has no result there. Addresses of strings are not used again.
--
-- A size_t wraps around at 2 ^ 64 and a uint8_t at 256, written out with %. AWS_ASSERT is nothing, as in
-- a release build. A decoder changes the packet that it is given: it takes the old packet and returns
-- the new one, so a field that is not read keeps its old value. On an error the changes to the packet
-- are dropped, and the cursor stands where the C code leaves it. A callback of the user is an event: it
-- is not run, so it does not call the library again.
--
-- The decoder of the remaining length has four rounds as its fuel, which the multiplier bounds in the
-- source too. The loop over the filters has one round more than there are bytes left, and the loop over
-- a message as many rounds as the message has bytes: every round takes a byte at least or ends. A run
-- out of fuel would be the error out_of_fuel. The search for a message id has 2 ^ 16 rounds, after
-- which every number of 16 bits has been tried, and the chunks of a publish have two rounds more than
-- the payload has bytes, each of which sends a byte at least but perhaps the first.
--
-- An attempt to subscribe or unsubscribe works on a packet, a transaction and a connection, and each call
-- that fails ends it with what it left, as the jump to handle_error does. The arguments of its task stay
-- in memory for the next attempt. The length of the static list of actions is the number of topics.
--
-- Not modelled: aws_mqtt_client_connection_subscribe_multiple of source/client.c, whose list of topics
-- holds pointers to structures of another type, so that what it does is not defined; the functions that
-- complete a request, which hand on to a callback of the user and release memory; the copies of values
-- that making a connection and connecting take, and what they release; the library's start
-- (source/mqtt.c), locks, logging, and memory that is released.
pub mod Base
pub mod Bytes
pub mod PacketType
pub mod FixedHeader
pub mod Packets
pub mod Topics
pub mod TopicTree
pub mod Client
pub mod Requests
pub mod Session
pub mod Sending
pub mod Handlers
pub mod Channel
pub mod Options
pub mod Subscribing
pub mod UserCalls
pub mod Closing
pub mod Tests
