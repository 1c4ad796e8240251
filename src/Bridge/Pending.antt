-- ===== src/Bridge/Pending.antt =====
-- The map of pending requests, and what the loops over it leave of it.
use zoal_atc.Common.{
  ℕ, ◌≡◌, refl, ap, sym, ◌∙◌, inl, inr, Bool, true, false, ◌||◌, List, [], ◌∷◌, none, arith,
  Option-cases, ==_self, ◌==◌, leb, if◌then◌else◌, Bytes,
}
use zoal_atc.Frames.{GuiResponse}
use zoal_atc.Bridge.State.{
  Pending, GuiBridge, find_pending, erase_pending, insert_id, sort_ids, all_ids, expired_ids,
}
use zoal_atc.Bridge.Settle.{enqueue_js, enqueue_status, settle, settle_failed, settle_each, failure}

-- No two entries have one id.
abbrev pub Distinct : List Pending → Type 0
Distinct [] = Unit
Distinct (p ∷ ps) = (find_pending p.id ps ≡ none) × Distinct ps

-- The requests whose deadline is still to come.
pub live : ℕ → List Pending → List Pending
live now [] = []
live now (p ∷ ps) = if leb p.deadline_ms now then live now ps else p ∷ live now ps

pub find-erase_self : (id : ℕ) (ps : List Pending) → find_pending id (erase_pending id ps) ≡ none
unfolding find_pending erase_pending
find-erase_self id [] = refl
find-erase_self id (p ∷ ps) = ground (arith, find-erase_self id ps)

pub erase_absent :
    (id : ℕ) (ps : List Pending) → find_pending id ps ≡ none → erase_pending id ps ≡ ps
unfolding find_pending erase_pending
erase_absent id [] e = refl
erase_absent id (p ∷ ps) e = ground (arith, erase_absent id ps)

abbrev has : ℕ → List ℕ → Bool
has n [] = false
has n (m ∷ ms) = m == n || has n ms

-- The entries whose ids are not in the list.
without : List ℕ → List Pending → List Pending
without ids [] = []
without ids (p ∷ ps) = if has p.id ids then without ids ps else p ∷ without ids ps

has-insert_id : (x n : ℕ) (ms : List ℕ) → has x (insert_id n ms) ≡ (n == x || has x ms)
unfolding insert_id
has-insert_id x n [] = refl
has-insert_id x n (m ∷ ms) = ground (arith, has-insert_id x n ms)

has-sort_ids : (x : ℕ) (ns : List ℕ) → has x (sort_ids ns) ≡ has x ns
unfolding sort_ids
has-sort_ids x [] = refl
has-sort_ids x (n ∷ ns) =
    has-insert_id x n (sort_ids ns) ∙ ap (λ (b : Bool). n == x || b) (has-sort_ids x ns)

without_cong :
    (is js : List ℕ) (ps : List Pending)
    → ((x : ℕ) → has x is ≡ has x js)
    → without is ps ≡ without js ps
unfolding without
without_cong is js [] h = refl
without_cong is js (p ∷ ps) h = rw (h p.id, without_cong is js ps h)

without-nil : (ps : List Pending) → without [] ps ≡ ps
unfolding without
without-nil [] = refl
without-nil (p ∷ ps) = rw (without-nil ps)

without-cons :
    (id : ℕ) (ids : List ℕ) (ps : List Pending)
    → without ids (erase_pending id ps) ≡ without (id ∷ ids) ps
unfolding without erase_pending
without-cons id ids [] = refl
without-cons id ids (p ∷ ps) = ground (arith, without-cons id ids ps)

-- Sending a message changes no request; nor does settling one.
pub enqueue_js-pending :
    (b : GuiBridge) (payload : Bytes) → (enqueue_js b payload).pending ≡ b.pending
unfolding enqueue_js
enqueue_js-pending b payload = ground arith

pub settle-pending :
    (b : GuiBridge) (id : ℕ) (response : GuiResponse) (internal : Bool)
    → (settle b id response internal).pending ≡ b.pending
unfolding settle enqueue_status enqueue_js
settle-pending b id response internal = ground arith

settle_failed-pending :
    (reason : Bytes) (b : GuiBridge) (id : ℕ)
    → (settle_failed reason b id).pending ≡ erase_pending id b.pending
unfolding settle_failed
settle_failed-pending reason b id = elim (Option-cases (find_pending id b.pending)) [
  | inl e ↦ rw (e, settle_failed) (sym (erase_absent id b.pending e))
  | inr (p, e) ↦ rw (e, settle_failed) (settle-pending _ id (failure id reason) p.internal)
]

settle_each-pending :
    (reason : Bytes) (ids : List ℕ) (b : GuiBridge)
    → (settle_each reason ids b).pending ≡ without ids b.pending
unfolding settle_each
settle_each-pending reason [] b = sym (without-nil b.pending)
settle_each-pending reason (id ∷ ids) b =
    settle_each-pending reason ids (settle_failed reason b id)
    ∙ ap (without ids) (settle_failed-pending reason b id)
    ∙ without-cons id ids b.pending

without-all_ids :
    (more : List ℕ) (ps : List Pending)
    → ((x : ℕ) → has x (all_ids ps) ≡ true → has x more ≡ true)
    → without more ps ≡ []
unfolding without all_ids
without-all_ids more [] h = refl
without-all_ids more (p ∷ ps) h =
    rw (h p.id (ground (arith, ==_self p.id))) (without-all_ids more ps (λ x e. h x (ground arith)))

-- All requests are gone after the loop of `fail_all_locked`.
pub settle_all-pending :
    (reason : Bytes) (b : GuiBridge)
    → (settle_each reason (sort_ids (all_ids b.pending)) b).pending ≡ []
settle_all-pending reason b =
    settle_each-pending reason (sort_ids (all_ids b.pending)) b
    ∙ without_cong (sort_ids (all_ids b.pending)) (all_ids b.pending) b.pending
        (λ x. has-sort_ids x (all_ids b.pending))
    ∙ without-all_ids (all_ids b.pending) b.pending (λ x e. e)

has-expired-absent :
    (x now : ℕ) (ps : List Pending) → find_pending x ps ≡ none → has x (expired_ids now ps) ≡ false
unfolding find_pending expired_ids
has-expired-absent x now [] e = refl
has-expired-absent x now (p ∷ ps) e = ground (arith, has-expired-absent x now ps)

without_skip :
    (x : ℕ) (ids : List ℕ) (ps : List Pending)
    → find_pending x ps ≡ none
    → without (x ∷ ids) ps ≡ without ids ps
unfolding without find_pending
without_skip x ids [] e = refl
without_skip x ids (p ∷ ps) e = ground (arith, without_skip x ids ps)

without-expired :
    (now : ℕ) (ps : List Pending) → Distinct ps → without (expired_ids now ps) ps ≡ live now ps
unfolding without expired_ids live
without-expired now [] d = refl
without-expired now (p ∷ ps) (fresh, d) = ground (
  arith,
  without-expired now ps d,
  has-expired-absent p.id now ps fresh,
  without_skip p.id (expired_ids now ps) ps fresh,
  ==_self p.id,
)

pub settle_expired-pending :
    (reason : Bytes) (b : GuiBridge) (now : ℕ)
    → Distinct b.pending
    → (settle_each reason (sort_ids (expired_ids now b.pending)) b).pending ≡ live now b.pending
settle_expired-pending reason b now d =
    settle_each-pending reason (sort_ids (expired_ids now b.pending)) b
    ∙ without_cong (sort_ids (expired_ids now b.pending)) (expired_ids now b.pending) b.pending
        (λ x. has-sort_ids x (expired_ids now b.pending))
    ∙ without-expired now b.pending d
