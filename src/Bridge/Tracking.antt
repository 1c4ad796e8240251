-- ===== src/Bridge/Tracking.antt =====
-- The bookkeeping of requests: ids, the bridge's own subscribe, the cap, and the connection.
use mathlib.Core.Path.{subst}
use zoal_atc.Common.{
  ℕ, suc, ◌≤◌, ◌<◌, ◌≡◌, refl, ap, sym, ◌∙◌, inl, inr, Bool, true, false, not, List, [], ◌∷◌, none,
  arith, Bool-cases, ◌==◌, if◌then◌else◌, if_both, Bytes, All,
}
use zoal_atc.Frames.{GuiResponse, GuiEvent, build_js_event}
use zoal_atc.Bridge.State.{Pending, GuiBridge, find_pending, erase_pending}
use zoal_atc.Bridge.Settle.{enqueue_js, enqueue_status, replay_events, replay, settle}
use zoal_atc.Bridge.Pending.{Distinct}

-- The bridge without its queues and what the panel sees.
abbrev pub core : GuiBridge → GuiBridge
core b = record b {
  panel_attached = false;
  panel_visible = false;
  socket_frames = [];
  js_queue = [];
  notify_queue = [];
  cache = [];
  dropped_events = 0;
}

pub enqueue_js-core : (b : GuiBridge) (payload : Bytes) → core (enqueue_js b payload) ≡ core b
unfolding enqueue_js
enqueue_js-core b payload = ground arith

pub enqueue_status-core : (b : GuiBridge) → core (enqueue_status b) ≡ core b
unfolding enqueue_status
enqueue_status-core b = enqueue_js-core b _

replay_events-core :
    (events : List GuiEvent) (b : GuiBridge) → core (replay_events events b) ≡ core b
unfolding replay_events
replay_events-core [] b = refl
replay_events-core (event ∷ events) b =
    replay_events-core events (enqueue_js b (build_js_event event)) ∙ enqueue_js-core b _

pub replay-core : (b : GuiBridge) → core (replay b) ≡ core b
unfolding replay
replay-core b = replay_events-core b.cache (enqueue_status b) ∙ enqueue_status-core b

-- The requests of the panel, as against the bridge's own.
abbrev pub externals : List Pending → ℕ
externals [] = 0
externals (p ∷ ps) = if p.internal then externals ps else suc (externals ps)

-- Ids are positive, below the next one and distinct; the bridge's own request is the subscribe that
-- it awaits; the panel's requests stay within the cap; and without a connection nothing is pending
-- and nothing subscribed.
pub record IsTracked (b : GuiBridge) : Type 0 where
  pub ids : All (λ p. (0 < p.id) × (p.id < b.next_request_id)) b.pending
  pub distinct : Distinct b.pending
  pub own : All (λ p. p.internal ≡ true → p.id ≡ b.subscribe_request_id) b.pending
  pub external : externals b.pending ≤ b.config.max_pending
  pub offline : b.connected ≡ false → (b.pending ≡ []) × (b.subscribed ≡ false)
  pub positive : 0 < b.next_request_id

-- It speaks of the core alone.
to_core : {b : GuiBridge} → IsTracked b → IsTracked (core b)
to_core v = record {
  ids = v.ids;
  distinct = v.distinct;
  own = v.own;
  external = v.external;
  offline = v.offline;
  positive = v.positive;
}

of_core : {b : GuiBridge} → IsTracked (core b) → IsTracked b
of_core v = record {
  ids = v.ids;
  distinct = v.distinct;
  own = v.own;
  external = v.external;
  offline = v.offline;
  positive = v.positive;
}

pub same_core : (b c : GuiBridge) → core c ≡ core b → IsTracked b → IsTracked c
same_core b c e v = of_core (subst IsTracked (sym e) (to_core v))

-- Erasing keeps what holds of the entries.
module _ (id : ℕ) where
  pub All-erase {κ} :
      (P : Pending → Type κ) (ps : List Pending) → All P ps → All P (erase_pending id ps)
  unfolding erase_pending
  All-erase P [] h = h
  All-erase P (p ∷ ps) (h, hs) =
      if_both (All P) (p.id == id) (All-erase P ps hs) (h, All-erase P ps hs)

  find-erase_ne :
      (x : ℕ) (ps : List Pending)
      → find_pending x ps ≡ none
      → find_pending x (erase_pending id ps) ≡ none
  unfolding erase_pending find_pending
  find-erase_ne x [] e = refl
  find-erase_ne x (p ∷ ps) e = ground (arith, find-erase_ne x ps)

  pub Distinct-erase : (ps : List Pending) → Distinct ps → Distinct (erase_pending id ps)
  unfolding erase_pending
  Distinct-erase [] d = d
  Distinct-erase (p ∷ ps) (fresh, d) =
      if_both Distinct (p.id == id) (Distinct-erase ps d)
        (find-erase_ne p.id ps fresh, Distinct-erase ps d)

  pub externals-erase : (ps : List Pending) → externals (erase_pending id ps) ≤ externals ps
  unfolding erase_pending
  externals-erase [] = omega arith
  externals-erase (p ∷ ps) = ground (arith, externals-erase ps)

pub erase-nil : (id : ℕ) → erase_pending id [] ≡ []
unfolding erase_pending
erase-nil id = refl

pub erased-IsTracked :
    (b : GuiBridge) (id : ℕ)
    → IsTracked b
    → IsTracked (record b { pending = erase_pending id b.pending })
erased-IsTracked b id v = record {
  ids = All-erase id _ b.pending v.ids;
  distinct = Distinct-erase id b.pending v.distinct;
  own = All-erase id _ b.pending v.own;
  external = omega (arith, externals-erase id b.pending, v.external);
  offline = λ e. (ap (erase_pending id) (v.offline e).0 ∙ erase-nil id, (v.offline e).1);
  positive = v.positive;
}

-- An entry under the subscribe's id is the only one of the bridge's own.
pub none_own :
    (ps : List Pending) (sub : ℕ)
    → All (λ p. p.internal ≡ true → p.id ≡ sub) ps
    → find_pending sub ps ≡ none
    → All (λ p. p.internal ≡ false) ps
unfolding find_pending
none_own [] sub h e = tt
none_own (p ∷ ps) sub (h, hs) e = (ground arith, none_own ps sub hs (ground arith))

pub own_of_none :
    (ps : List Pending) (sub : ℕ)
    → All (λ p. p.internal ≡ false) ps
    → All (λ p. p.internal ≡ true → p.id ≡ sub) ps
own_of_none [] sub h = tt
own_of_none (p ∷ ps) sub (h, hs) = (λ e. cc, own_of_none ps sub hs)

own_retired :
    (ps : List Pending) (sub id : ℕ)
    → All (λ p. p.internal ≡ true → p.id ≡ sub) ps
    → find_pending id ps ≡ none
    → All (λ p. p.internal ≡ true → p.id ≡ (if id == sub then 0 else sub)) ps
own_retired ps sub id h e = elim (Bool-cases (id == sub)) [
  | inl same ↦
      let i : id ≡ sub = ground arith in
      rw same (own_of_none ps 0 (none_own ps sub h (ap (λ (n : ℕ). find_pending n ps) (sym i) ∙ e)))
  | inr other ↦ rw other h
]

-- Settling an entry that was just erased: an answer of a console that is there, or a failure.
pub settle-IsTracked :
    (b : GuiBridge) (id : ℕ) (response : GuiResponse) (internal : Bool)
    → IsTracked b
    → find_pending id b.pending ≡ none
    → (b.connected ≡ false → response.ok ≡ false)
    → IsTracked (settle b id response internal)
unfolding settle
settle-IsTracked b id response internal v e off =
    if_both IsTracked internal
      (if_both IsTracked _ (same_core settled _ (enqueue_status-core _) settled-IsTracked)
        settled-IsTracked)
      (if_both IsTracked (not b.panel_attached) v (same_core b _ (enqueue_js-core b _) v))
  where
    settled : GuiBridge
    settled = record b {
      subscribe_request_id = if id == b.subscribe_request_id then 0 else b.subscribe_request_id;
      subscribed = response.ok;
    }

    own' : All (λ p. p.internal ≡ true → p.id ≡ settled.subscribe_request_id) b.pending
    own' = own_retired b.pending b.subscribe_request_id id v.own e

    settled-IsTracked : IsTracked settled
    settled-IsTracked = record {
      ids = v.ids;
      distinct = v.distinct;
      own = own';
      external = v.external;
      offline = λ o. ((v.offline o).0, off o);
      positive = v.positive;
    }
