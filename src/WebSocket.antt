-- ===== src/WebSocket.antt =====
-- src/transport/websocket_client.cpp: the plugin's connection to the console. The client's lock is
-- held through each operation except between the reads of receive_text; a call of `close` from
-- another thread in between ends the arriving bytes, which the model's links may do anywhere.
pub mod Frame
pub mod Link
pub mod Client
pub mod Receive
pub mod Dial
pub mod Exact
pub mod Masks
pub mod Wires
pub mod Outcomes
pub mod Inbox
pub mod States
pub mod Calls
pub mod Pacing
pub mod Greeting
pub mod Introduction
mod Tests
