-- ===== src/Bridge/State.antt =====
-- The bridge's data: include/zoal_atc/gui/gui_bridge.hpp.
use zoal_atc.Common.{
  ℕ, ◌+◌, ◌%◌, ◌^◌, Bool, false, List, [], ◌∷◌, Option, none, some, ◌==◌, leb, if◌then◌else◌, Bytes,
  codes,
}
use zoal_atc.Frames.{GuiEvent}

pub record JsMessage : Type 0 where
  pub channel : Bytes
  pub payload : Bytes

pub record LocalAnswer : Type 0 where
  pub ok : Bool
  pub payload_json : Bytes
  pub error : Bytes

pub record GuiBridgeConfig : Type 0 where
  pub request_timeout_ms : ℕ
  pub max_pending : ℕ
  pub max_js_queue : ℕ
  pub topics : List Bytes
  -- `none` is an empty `std::function`.
  pub local_action : Option (Bytes → Bytes → Option LocalAnswer)

pub record SubmitResult : Type 0 where
  pub accepted : Bool
  pub request_id : ℕ
  pub ack_json : Bytes

pub record Pending : Type 0 where
  pub id : ℕ
  pub deadline_ms : ℕ
  pub internal : Bool

pub record GuiBridge : Type 0 where
  pub config : GuiBridgeConfig
  pub next_request_id : ℕ
  pub pending : List Pending
  pub subscribe_request_id : ℕ
  pub connected : Bool
  pub subscribed : Bool
  pub panel_attached : Bool
  pub panel_visible : Bool
  pub socket_frames : List Bytes
  pub js_queue : List JsMessage
  pub notify_queue : List GuiEvent
  pub cache : List GuiEvent
  pub dropped_events : ℕ

abbrev pub console_event_channel : Bytes
console_event_channel = codes "console.event"

abbrev pub new_bridge : GuiBridgeConfig → GuiBridge
new_bridge config = record {
  config = config;
  next_request_id = 1;
  pending = [];
  subscribe_request_id = 0;
  connected = false;
  subscribed = false;
  panel_attached = false;
  panel_visible = false;
  socket_frames = [];
  js_queue = [];
  notify_queue = [];
  cache = [];
  dropped_events = 0;
}

-- `++n` and `n + m` in uint64.
abbrev pub next64 : ℕ → ℕ
next64 n = (n + 1) % 2 ^ 64

abbrev pub add64 : ℕ → ℕ → ℕ
add64 a b = (a + b) % 2 ^ 64

-- `pending_` as an association list: the order of an `unordered_map` is seen nowhere, since the two
-- loops over it sort the ids they find.
unfoldable pub find_pending : ℕ → List Pending → Option Pending
find_pending id [] = none
find_pending id (p ∷ ps) = if p.id == id then some p else find_pending id ps

unfoldable pub erase_pending : ℕ → List Pending → List Pending
erase_pending id [] = []
erase_pending id (p ∷ ps) = if p.id == id then erase_pending id ps else p ∷ erase_pending id ps

-- `pending_[id] = Pending{…}`.
unfoldable pub put_pending : Pending → List Pending → List Pending
unfolding erase_pending
put_pending p ps = p ∷ erase_pending p.id ps

unfoldable pub insert_id : ℕ → List ℕ → List ℕ
insert_id n [] = n ∷ []
insert_id n (m ∷ ms) = if leb n m then n ∷ m ∷ ms else m ∷ insert_id n ms

-- `std::sort`.
unfoldable pub sort_ids : List ℕ → List ℕ
unfolding insert_id
sort_ids [] = []
sort_ids (n ∷ ns) = insert_id n (sort_ids ns)

unfoldable pub all_ids : List Pending → List ℕ
all_ids [] = []
all_ids (p ∷ ps) = p.id ∷ all_ids ps

-- Those whose deadline has come.
unfoldable pub expired_ids : ℕ → List Pending → List ℕ
expired_ids now_ms [] = []
expired_ids now_ms (p ∷ ps) =
    if leb p.deadline_ms now_ms then p.id ∷ expired_ids now_ms ps else expired_ids now_ms ps
