-- ===== src/EventQueue/Wire.antt =====
-- A batch of eventQueue.ts as eventHttp.ts reads it, and the ids that its answer settles.
use tapes_monorepo.Base.{
  ℕ, suc, ◌+◌, String, Bool, true, false, not, ◌&&◌, ◌||◌, List, [], ◌∷◌, ◌++◌, map, append_assoc,
  ◌⊎◌, inl, inr, Option, none, some, ◌≡◌, refl, sym, ◌∙◌, ap, arith, if◌then◌else◌, ◌==◌, nat_eq,
  text_eq, length, get_elem?, length-append, any, All, includes, includes-append, Float,
}
use tapes_monorepo.Json.{
  Json, Items, Fields, items, member, null, num, str, obj, nil, item, end, field,
}
use tapes_monorepo.EventStore.{PlaybackEvent, key_of, admit}
use tapes_monorepo.EventStore.Retry.{IsTaken}
use tapes_monorepo.EventQueue.{rejected_id, settle_rejected}
use tapes_monorepo.EventHttp.{
  RejectionReason, Rejection, Validated, event_ids, validate, judge, valid, invalid,
}

module _ (f : Float) (is_date : String → Bool) where
  open f use {Num, is_finite}

  -- `JSON.stringify` of a queued event: a member that is undefined is left out, and a number that
  -- is not finite is written as null.
  abbrev pub device_field : Option String → Fields Num
  device_field none = end
  device_field (some d) = field "deviceId" (str d) end

  unfoldable pub to_json : PlaybackEvent Num → Json Num
  to_json e = obj (
      field "id" (str e.id) (
        field "recordingUrl" (str e.recording_url) (
          field "type" (str "play") (
            field "completion" (if is_finite e.completion then num e.completion else null)
              (field "occurredAt" (str e.occurred_at) (device_field e.device_id))))))

  abbrev pub items_of : List (Json Num) → Items Num
  items_of [] = nil
  items_of (v ∷ vs) = item v (items_of vs)

  pub items-items_of : (vs : List (Json Num)) → items (items_of vs) ≡ vs
  unfolding items
  items-items_of [] = refl
  items-items_of (v ∷ vs) = ap (◌∷◌ v) (items-items_of vs)

  pub length-map : (es : List (PlaybackEvent Num)) → length (map to_json es) ≡ length es
  length-map [] = refl
  length-map (e ∷ es) = ap suc (length-map es)

  abbrev pub checked : PlaybackEvent Num → Validated Num
  checked e = validate f is_date (to_json e)

  pub id_of_valid : (e e' : PlaybackEvent Num) → checked e ≡ valid e' → e'.id ≡ e.id
  unfolding validate to_json member
  id_of_valid e e' h = ground arith

  pub id_of_invalid :
      (e : PlaybackEvent Num) (i : Option String) (r : RejectionReason)
      → checked e ≡ invalid i r
      → (i ≡ some e.id) ⊎ (i ≡ none)
  unfolding validate to_json member
  id_of_invalid e i r h = ground arith

  Validated-cases :
      (v : Validated Num)
      → ((e : PlaybackEvent Num) × (v ≡ valid e))
        ⊎ ((i : Option String) × (r : RejectionReason) × (v ≡ invalid i r))
  Validated-cases (valid e) = inl (e, refl)
  Validated-cases (invalid i r) = inr (i, r, refl)

  abbrev pub is_invalid : Validated Num → Bool
  is_invalid (valid e) = false
  is_invalid (invalid i r) = true

  get_elem?-middle :
      (pre post : List (PlaybackEvent Num)) (e : PlaybackEvent Num)
      → get_elem? (pre ++ e ∷ post) (length pre) ≡ some e
  get_elem?-middle [] post e = refl
  get_elem?-middle (x ∷ pre) post e = get_elem?-middle pre post e

  -- The id that a rejection stands for is the event's, with or without its own.
  rejected_id-middle :
      (full pre post : List (PlaybackEvent Num)) (e : PlaybackEvent Num) (i : Option String)
      (r : RejectionReason)
      → full ≡ pre ++ e ∷ post
      → checked e ≡ invalid i r
      → rejected_id full (record { index = length pre; id = i; reason = r; retryable = false })
        ≡ some e.id
  rejected_id-middle full pre post e i r split bad = ground (
    arith,
    id_of_invalid e i r bad,
    ap (λ xs. get_elem? xs (length pre)) split,
    get_elem?-middle pre post e,
  )

  module _ (is_known : String → Bool) where
    abbrev pub judged : ℕ → List (PlaybackEvent Num) → List (PlaybackEvent Num) × List Rejection
    judged index batch = judge f is_date is_known index (map to_json batch)

    -- Of a batch, the rejections settle the ids of the events that do not pass the checks.
    pub settle-judge :
        (full pre batch : List (PlaybackEvent Num)) (settled : List String) (id : String)
        → full ≡ pre ++ batch
        → includes (settle_rejected full (judged (length pre) batch).1 settled) id
          ≡ (includes settled id || any (λ e. e.id == id && is_invalid (checked e)) batch)
    unfolding judge settle_rejected
    settle-judge full pre [] settled id split = ground arith
    settle-judge full pre (e ∷ es) settled id split =
        let split' : full ≡ (pre ++ e ∷ []) ++ es = split ∙ sym (append_assoc pre (e ∷ []) es) in
        let next : length (pre ++ e ∷ []) ≡ length pre + 1 = length-append pre (e ∷ []) in
        let same = settle-judge full (pre ++ e ∷ []) es settled id split' in
        let more = settle-judge full (pre ++ e ∷ []) es (settled ++ e.id ∷ []) id split' in
        elim (Validated-cases (checked e)) [
          | inl (e', ok) ↦ ground (arith, ok, same, next)
          | inr (i, r, bad) ↦ ground (
            arith,
            bad,
            more,
            next,
            rejected_id-middle full pre es e i r split bad,
            includes-append settled (e.id ∷ []) id,
          )
        ]

    -- The event is in the host's index as the route normalises it, or it never passes the checks.
    abbrev pub is_safe : List String → PlaybackEvent Num → Bool
    is_safe seen e = elim (checked e) [ valid e' ↦ includes seen (key_of e') | invalid i r ↦ true ]

    abbrev pub is_accounted : List String → String → List (PlaybackEvent Num) → Bool
    is_accounted seen id = any (λ e. e.id == id && is_safe seen e)

    pub admit_ids :
        (now : ℕ) (es : List (PlaybackEvent Num)) (seen : List String) (id : String)
        → (includes (event_ids (admit now es seen).accepted) id
            || includes (admit now es seen).duplicates id)
          ≡ true
        → any (λ e. e.id == id && not (e.id == "")) es ≡ true
    unfolding admit
    admit_ids now [] seen id h = cc
    admit_ids now (e ∷ es) seen id h =
        ground (arith, admit_ids now es seen id, admit_ids now es (seen ++ key_of e ∷ []) id)

    pub any-IsTaken :
        (seen : List String) (es : List (PlaybackEvent Num)) (id : String)
        → All (IsTaken seen) es
        → any (λ e. e.id == id && not (e.id == "")) es ≡ true
        → any (λ e. e.id == id && includes seen (key_of e)) es ≡ true
    any-IsTaken seen [] id taken h = cc
    any-IsTaken seen (e ∷ es) id taken h = ground (arith, taken.0, any-IsTaken seen es id taken.1)

    pub judge_accounted :
        (seen : List String) (index : ℕ) (batch : List (PlaybackEvent Num)) (id : String)
        → any (λ e. e.id == id && includes seen (key_of e)) (judged index batch).0 ≡ true
        → is_accounted seen id batch ≡ true
    unfolding judge
    judge_accounted seen index [] id h = cc
    judge_accounted seen index (e ∷ es) id h = elim (Validated-cases (checked e)) [
      | inl (e', ok) ↦
          ground (arith, ok, id_of_valid e e' ok, judge_accounted seen (index + 1) es id)
      | inr (i, r, bad) ↦ ground (arith, bad, judge_accounted seen (index + 1) es id)
    ]

    pub invalid_accounted :
        (seen : List String) (batch : List (PlaybackEvent Num)) (id : String)
        → any (λ e. e.id == id && is_invalid (checked e)) batch ≡ true
        → is_accounted seen id batch ≡ true
    invalid_accounted seen [] id h = cc
    invalid_accounted seen (e ∷ es) id h = elim (Validated-cases (checked e)) [
      | inl (e', ok) ↦ ground (arith, ok, invalid_accounted seen es id)
      | inr (i, r, bad) ↦ ground (arith, bad, invalid_accounted seen es id)
    ]
