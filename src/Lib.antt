-- ===== src/Lib.antt =====
-- The part of the zoal-atc plugin that decides: what reaches the ATC console, what reaches the
-- in-sim panel, and when. X-Plane, sockets, audio devices and threads are around it and not in it;
-- where a part calls them, what they answer is an argument.
--
-- The parts and how they meet. The panel posts a JSON message; the GUI proxy reads it, answers it
-- locally or queues a frame for the console, and remembers the request until its answer, its
-- deadline or the loss of the console settles it. Frames from the console go through the proxy
-- first; answers and events become envelopes for the panel. All these texts are read and written by
-- the same few JSON functions. The push-to-talk controller turns a button into numbered
-- transmissions. The bounded queue sits between either producer and the socket. The reconnect gate
-- paces the dials to an endpoint that the file of settings names, and the WebSocket client dials it,
-- introduces the plugin, and carries the texts as frames.
--
--   Common    bytes for `std::string`, lists and tests on native numbers, decimal numbers.
--   Queue     include/zoal_atc/transport/bounded_queue.hpp, push_bounded; its while loop is
--             structural recursion on the queue.
--   Gate      include/zoal_atc/transport/reconnect_gate.hpp, class ReconnectGate: ready,
--             note_failure, note_success, reset and remaining_ms under their names, the three
--             private fields as a record.
--   Ptt       src/ptt/push_to_talk_controller.cpp with include/zoal_atc/ptt/ptt_event.hpp and
--             audio_recorder.hpp: PushToTalkController is `Controller`; command_begin, command_end,
--             tick, reset_fault and finish_recording keep their names and return the new state and
--             the effects in order (starts and stops of the recorder, events for the sink). Call is
--             a call of one of them, and `step` and `run` make one or several.
--   Json      src/transport/json_util.cpp: skip_ws, parse_string_at, skip_value, json_raw_field,
--             json_unquote and json_escape; in Json/Search the readers that look for a key anywhere. A
--             position in the text is the rest of the text.
--   Frames    src/gui/gui_frames.cpp: all builders and parsers, with the records of
--             include/zoal_atc/gui/gui_frames.hpp.
--   Bridge    src/gui/gui_bridge.cpp, class GuiBridge. State has the members as a record, Settle the
--             private operations (`settle` is settle_locked, and so on), Handlers the public ones;
--             on_socket_frame is split into on_response and on_event. Call is a public call.
--   Endpoint  src/transport/endpoint_config.cpp: the URL (parse_websocket_url and its helpers) in
--             Endpoint, the file of settings (apply_config_text, upsert_config_value) in
--             Endpoint/Settings. EndpointConfigResult is `Parsed`, an error text or a value.
--   Transcript  src/stt/transcript_frame.cpp, with the records of
--             include/zoal_atc/stt/transcriber.hpp; how a `double` is printed is a parameter.
--   Sink      src/transport/async_websocket_ptt_sink.cpp, class AsyncWebSocketPttSink: publish and
--             publish_text are `publish` on either kind of QueuedMessage, stop and set_transcriber
--             keep their names, `work` is one round of run and `recognise` one of run_transcription.
--             Frames sent and failures reported are effects.
--
--   Base64    src/transport/base64.cpp: base64_encode.
--   WebSocket  src/transport/websocket_client.cpp, class WebSocketClient. Frame has the bytes of a
--             frame, Client the state with recv_exact, send_all_locked and send_text_locked, Receive
--             the loop of receive_text, Dial the handshake, the hello and connect_locked, Calls the
--             public calls. A failed WebSocketStatus is `failure` with its message. What the socket
--             is connected to is a `Link`, the bytes that will arrive in segments of any size and
--             the answers of `send`; the answers of the name service and of `connect`, the clock and
--             the random numbers are arguments of a call.
--
--   Navdata   src/navdata/navdata_service.cpp: the frames and parse_navdata_request in Navdata,
--             `getline` and the fields of a line in Lines, the blocks of apt.dat and the rows of the
--             files of fixes in Blocks, NavdataPublisher in Publisher. The callback of
--             scan_airport_blocks is the list of the blocks that it is given. `by_hash_` is a list
--             with the newest entry in front. A `double` and its arithmetic (`Geometry`), the hash
--             and what the files hold are arguments.
--   Panel     src/gui/panel_paths.cpp. A `string_view` whose ends are cut by a loop is a function by recursion;
--             `split_last`, of Endpoint, is find_last_of.
--   Speech    src/transport/speech_text.cpp: radio_text, whose loop is take_chars, and expand_word.
--   Md5       src/navdata/md5.cpp: md5_hex and process_block, the loop over a block's 64 rounds and that
--             over the blocks with the number of those left as what they recurse on.
--   Notification  src/gui/notification.cpp, with NotificationController; reset is
--             `reset_commanded`. The seconds, a `double`, are an argument.
--
-- Each part's Tests module runs it at concrete inputs.
--
-- Bounds and fuel. Integers of 64 bits wrap where the code adds to them: request ids, sequence
-- numbers, deadlines and the gate's retry time carry `% 2 ^ 64`, and a theorem that needs them not
-- to wrap says so. The gate's delay doubles to 60000 at most before its ceiling, and a port's value
-- is cut off above 65535, so these two never wrap. skip_nested and raw_fields run on fuel: each
-- round uses up at least one character, and the fuel is one more than the characters there are.
-- recv_exact and send_all_locked take a byte at least in each round and have a round for each byte;
-- the loop of receive_text takes two at least and has a round more than there are bytes to arrive;
-- the reads of a handshake's response are as many as its three seconds leave room for.
-- value_loop steps over a quoted key in each round and has a round for each character and one more.
-- decimal_loop has the number itself plus one as fuel, and each round divides by ten.
--
-- The lock of GuiBridge is held for the whole of each operation, so that an operation is one step and
-- any interleaving of the threads is a list of calls; submit takes it up to three times, first only to
-- copy the local handler, which is installed once at start-up, and is one step as well. The
-- unordered map of pending requests is an association list: the two loops over it sort the ids
-- before they act. `std::isspace`, `std::isdigit` and `std::tolower` are those of the "C" locale.
--
-- Not modelled, though it is logic of the plugin: telemetry and traffic, and the voice
-- catalogue. Glue to X-Plane, Skyscript, miniaudio, whisper.cpp and sherpa-onnx is
-- left out, since their code is not in the repository, and so are the walks over the file system, the
-- panel's TypeScript and the build. What a local handler of the proxy does besides answering (it may
-- write the file of settings) is not modelled either.
pub mod Common
pub mod Queue
pub mod Gate
pub mod Panel
pub mod Ptt
pub mod Json
pub mod Frames
pub mod Bridge
pub mod Endpoint
pub mod Speech
pub mod Transcript
pub mod Sink
pub mod Base64
pub mod WebSocket
pub mod Md5
pub mod Navdata
pub mod Notification
