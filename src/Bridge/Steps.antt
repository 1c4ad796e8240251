-- ===== src/Bridge/Steps.antt =====
-- The bookkeeping of `Tracking` under the single changes of src/gui/gui_bridge.cpp.
use zoal_atc.Common.{
  ℕ, ◌+◌, ◌≤◌, ◌<◌, ◌^◌, ◌≡◌, refl, ap, ◌∙◌, inl, inr, Bool, true, false, not, List, [], ◌∷◌, none,
  arith, Option-cases, Bool-cases, ◌==◌, leb, if◌then◌else◌, if_both, if_known, Bytes, length, All,
}
use zoal_atc.Frames.{PanelRequest, GuiResponse}
use zoal_atc.Bridge.State.{
  SubmitResult, Pending, GuiBridge, find_pending, erase_pending, put_pending, next64,
}
use zoal_atc.Bridge.Settle.{
  enqueue_js, enqueue_status, settle, settle_failed, settle_each, subscribe, failure,
}
use zoal_atc.Bridge.Handlers.{proxy}
use zoal_atc.Bridge.Pending.{Distinct, find-erase_self, erase_absent}
use zoal_atc.Bridge.Tracking.{
  core, externals, IsTracked, same_core, All-erase, Distinct-erase, externals-erase,
  erased-IsTracked, none_own, own_of_none, settle-IsTracked,
}

-- What a step of the bridge keeps, and that it hands out one id at most.
abbrev pub Keeps : GuiBridge → GuiBridge → Type 0
Keeps b c = IsTracked c × (c.next_request_id ≤ b.next_request_id + 1)

pub next64-suc : (n : ℕ) → n + 1 < 2 ^ 64 → next64 n ≡ n + 1
next64-suc n h = omega arith

-- The ids below the next one are below the one after it.
pub ids_later :
    (ps : List Pending) (n m : ℕ)
    → n ≤ m
    → All (λ p. (0 < p.id) × (p.id < n)) ps
    → All (λ p. (0 < p.id) × (p.id < m)) ps
ids_later [] n m h a = tt
ids_later (p ∷ ps) n m h (k, ks) = ((k.0, omega arith), ids_later ps n m h ks)

-- The next id is not pending yet.
find-next :
    (ps : List Pending) (n : ℕ) → All (λ p. (0 < p.id) × (p.id < n)) ps → find_pending n ps ≡ none
unfolding find_pending
find-next [] n h = refl
find-next (p ∷ ps) n (h, hs) = ground (arith, find-next ps n hs)

pub settle-next :
    (b : GuiBridge) (id : ℕ) (response : GuiResponse) (internal : Bool)
    → (settle b id response internal).next_request_id ≡ b.next_request_id
unfolding settle enqueue_status enqueue_js
settle-next b id response internal = ground arith

settle_failed-Keeps :
    (reason : Bytes) (b : GuiBridge) (id : ℕ)
    → IsTracked b
    → IsTracked (settle_failed reason b id)
      × ((settle_failed reason b id).next_request_id ≡ b.next_request_id)
unfolding settle_failed
settle_failed-Keeps reason b id v = elim (Option-cases (find_pending id b.pending)) [
  | inl e ↦ rw (e, settle_failed) (v, refl)
  | inr (p, e) ↦
      rw (e, settle_failed)
        (
          settle-IsTracked (record b { pending = erase_pending id b.pending }) id
              (failure id reason) p.internal (erased-IsTracked b id v)
              (find-erase_self id b.pending) (λ o. refl),
          settle-next (record b { pending = erase_pending id b.pending }) id (failure id reason)
              p.internal,
        )
]

pub settle_each-Keeps :
    (reason : Bytes) (ids : List ℕ) (b : GuiBridge)
    → IsTracked b
    → IsTracked (settle_each reason ids b)
      × ((settle_each reason ids b).next_request_id ≡ b.next_request_id)
unfolding settle_each
settle_each-Keeps reason [] b v = (v, refl)
settle_each-Keeps reason (id ∷ ids) b v =
    let (w, e) = settle_failed-Keeps reason b id v in
    let (x, f) = settle_each-Keeps reason ids (settle_failed reason b id) w in (x, f ∙ e)

-- A new entry under the next id.
added-IsTracked :
    (b : GuiBridge) (p : Pending) (ps : List Pending) (sub : ℕ) (frames : List Bytes)
    → IsTracked b
    → b.next_request_id + 1 < 2 ^ 64
    → b.connected ≡ true
    → p.id ≡ b.next_request_id
    → All (λ q. (0 < q.id) × (q.id < b.next_request_id)) ps
    → Distinct ps
    → All (λ q. q.internal ≡ true → q.id ≡ sub) (p ∷ ps)
    → externals (p ∷ ps) ≤ b.config.max_pending
    → Keeps b (record b {
      next_request_id = next64 b.next_request_id;
      subscribe_request_id = sub;
      pending = put_pending p ps;
      socket_frames = frames;
    })
unfolding put_pending
added-IsTracked b p ps sub frames v h on e ids distinct own ext =
    let absent : find_pending p.id ps ≡ none = rw e (find-next ps b.next_request_id ids) in
    rw (erase_absent p.id ps absent, next64-suc b.next_request_id h)
      (
        record {
          ids = ((omega (arith, v.positive), omega arith), ids_later ps _ _ (omega arith) ids);
          distinct = (absent, distinct);
          own = own;
          external = ext;
          offline = λ o. cc;
          positive = omega arith;
        },
        omega arith,
      )

find-zero :
    (ps : List Pending) (n : ℕ) → All (λ p. (0 < p.id) × (p.id < n)) ps → find_pending 0 ps ≡ none
unfolding find_pending
find-zero [] n h = refl
find-zero (p ∷ ps) n (h, hs) = ground (arith, find-zero ps n hs)

-- What `subscribe_locked` erases before it asks again.
abbrev retired : GuiBridge → List Pending
retired b =
    if b.subscribe_request_id == 0
    then b.pending
    else erase_pending b.subscribe_request_id b.pending

retired-foreign : (b : GuiBridge) → IsTracked b → All (λ p. p.internal ≡ false) (retired b)
retired-foreign b v = elim (Bool-cases (b.subscribe_request_id == 0)) [
  | inl z ↦
      let i : b.subscribe_request_id ≡ 0 = ground arith in
      rw z (
        none_own b.pending b.subscribe_request_id v.own (
          ap (λ (n : ℕ). find_pending n b.pending) i ∙ find-zero b.pending b.next_request_id v.ids))
  | inr z ↦ rw z (
      none_own (erase_pending b.subscribe_request_id b.pending) b.subscribe_request_id
        (All-erase b.subscribe_request_id _ b.pending v.own)
        (find-erase_self b.subscribe_request_id b.pending))
]

pub subscribe-Keeps :
    (b : GuiBridge) (now : ℕ)
    → IsTracked b
    → b.next_request_id + 1 < 2 ^ 64
    → b.connected ≡ true
    → Keeps b (subscribe b now)
unfolding subscribe
subscribe-Keeps b now v h on =
    added-IsTracked b _ (retired b) b.next_request_id _ v h on refl
      (if_both (All (λ q. (0 < q.id) × (q.id < b.next_request_id))) _ v.ids
        (All-erase b.subscribe_request_id _ b.pending v.ids))
      (if_both Distinct _ v.distinct (Distinct-erase b.subscribe_request_id b.pending v.distinct))
      ((λ e. refl), own_of_none (retired b) b.next_request_id (retired-foreign b v))
      (if_both (λ qs. externals qs ≤ b.config.max_pending) (b.subscribe_request_id == 0) v.external
        (omega (arith, externals-erase b.subscribe_request_id b.pending, v.external)))

externals-le : (ps : List Pending) → externals ps ≤ length ps
externals-le [] = omega arith
externals-le (p ∷ ps) = ground (arith, externals-le ps)

-- A step that leaves the requests as they are.
pub same : (b c : GuiBridge) → core c ≡ core b → IsTracked b → Keeps b c
same b c e v = (same_core b c e v, rw (ap (λ (d : GuiBridge). d.next_request_id) e) (omega arith))

pub proxy-Keeps :
    (b : GuiBridge) (request : PanelRequest) (now : ℕ)
    → IsTracked b
    → b.next_request_id + 1 < 2 ^ 64
    → Keeps b (proxy b request now).0
unfolding proxy
proxy-Keeps b request now v h =
    if_known {A = GuiBridge × SubmitResult} (λ r. Keeps b r.0) (not b.connected)
      (λ off. same b b refl v)
      (λ on.
        if_known {A = GuiBridge × SubmitResult} (λ r. Keeps b r.0)
          (leb b.config.max_pending (length b.pending)) (λ full. same b b refl v)
          (λ room.
            added-IsTracked b _ b.pending b.subscribe_request_id _ v h (ground arith) refl v.ids
              v.distinct ((λ e. cc), v.own)
              (let l = externals-le b.pending in
                let f : length b.pending < b.config.max_pending = ground arith in
                omega (arith, l, f))))
