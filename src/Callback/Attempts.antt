-- ===== src/Callback/Attempts.antt =====
-- How a dispatch of a delivery ends: the number of attempts, the acknowledgement, and the row of the
-- delivery in the store.
use agent_task_platform.Prelude.{
  ℕ, zero, suc, ◌+◌, ◌-◌, ◌≤◌, ◌<◌, ◌≡◌, ◌≢◌, refl, sym, ap, ◌∙◌, true, false, none, some, arith,
  inl, inr, Option-cases, Bool-cases, eq_iff, string_eq, String, Bool, ◌==◌, if◌then◌else◌,
}
use agent_task_platform.Domain.Status.{CallbackStatus}
use agent_task_platform.Domain.Entities.{AgentRun, CallbackDelivery, Json, JsonFields}
use agent_task_platform.Table.{find-merge}
use agent_task_platform.Store.State.{Store, callback_key}
use agent_task_platform.Store.Runs.{get, update_if_current}
use agent_task_platform.Store.Callbacks
use agent_task_platform.Store.Callbacks.{save, update_run_with_callback}
use agent_task_platform.Callback.{Services, in_status}
use agent_task_platform.Callback.Deliver.{
  Network, Answer, raised, responded, request, validate_ack, answer_error, ack_status, is_received,
  delivered, settled, undelivered, record_delivered, record_failed, exhaust, attempts_loop,
  dispatch_delivery,
}

-- A body that acknowledges: its first field "ackStatus" is the text "RECEIVED".
pub data Acknowledges : JsonFields → Type 0 where
  here :
      (k : String) (v : Json) (rest : JsonFields)
      → k ≡ "ackStatus"
      → v ≡ Json.text "RECEIVED"
      → Acknowledges (JsonFields.field k v rest)
  there :
      (k : String) (v : Json) (rest : JsonFields)
      → k ≢ "ackStatus"
      → Acknowledges rest
      → Acknowledges (JsonFields.field k v rest)

-- The delivery is the row of its event, but for the time of the update.
pub record IsStored (d : CallbackDelivery) (s : Store) : Type 0 where
  pub time : ℕ
  pub row : Callbacks.get d.event_id s ≡ some (record d { update_time = time })

-- The delivery was sent to its URL at its last attempt, and the answer acknowledged it.
pub record IsReceived (net : Network) (d d' : CallbackDelivery) : Type 0 where
  pub request_sent : CallbackDelivery
  pub store : Store
  pub body : JsonFields
  pub same :
      (request_sent.event_id ≡ d.event_id)
      × (request_sent.url ≡ d.url)
      × (request_sent.payload ≡ d.payload)
  pub at_attempt : request_sent.attempts ≡ d'.attempts
  pub answer : (net.post request_sent store).0 ≡ responded (some (Json.object body))
  pub ack : Acknowledges body

-- The delivery `d` ends as `d'`: acknowledged within the rounds that were left, or failed with each of
-- them used up, or as it was when no round was left.
pub data Ended (net : Network) (rounds : ℕ) (d d' : CallbackDelivery) : Type 0 where
  acknowledged :
      IsReceived net d d'
      → d'.status ≡ CallbackStatus.delivered
      → d'.last_error ≡ none
      → d.attempts < d'.attempts
      → d'.attempts ≤ d.attempts + rounds
      → Ended net rounds d d'
  used_up :
      0 < rounds
      → d'.status ≡ CallbackStatus.failed
      → d'.attempts ≡ d.attempts + rounds
      → Ended net rounds d d'
  none_left : rounds ≡ 0 → d'.status ≡ d.status → d'.attempts ≡ d.attempts → Ended net rounds d d'

-- What the hooks do leaves the row of the delivery they are told of.
pub record Keeps (net : Network) : Type 0 where
  pub on_callback_end :
      (b : Bool) (d : CallbackDelivery) (s : Store)
      → Callbacks.get d.event_id (net.on_callback_end b d s).1 ≡ Callbacks.get d.event_id s

received_text : (o : Json) → is_received (some o) ≡ true → o ≡ Json.text "RECEIVED"
received_text (Json.text t) h = ap (λ u. Json.text u) ((eq_iff t "RECEIVED").0 h)
received_text _ h = cc

received_fields : (body : JsonFields) → is_received (ack_status body) ≡ true → Acknowledges body
received_fields JsonFields.end h = cc
received_fields (JsonFields.field k v rest) h = elim (Bool-cases (k == "ackStatus")) [
  | inl same ↦ here k v rest ((eq_iff k "ackStatus").0 same) (
      received_text v
        (ap (λ c. is_received (if c then some v else ack_status rest)) (sym same) ∙ h))
  | inr other ↦
      there k v rest (λ e. ground (arith, (eq_iff k "ackStatus").1 e, other))
        (received_fields rest
          (ap (λ c. is_received (if c then some v else ack_status rest)) (sym other) ∙ h))
]

answered :
    (net : Network) (a : Answer)
    → answer_error net a ≡ none
    → (body : JsonFields) × (a ≡ responded (some (Json.object body))) × Acknowledges body
unfolding validate_ack
answered net (raised t) h = cc
answered net (responded none) h = cc
answered net (responded (some (Json.object body))) h =
    elim (Bool-cases (is_received (ack_status body))) [
      | inl yes' ↦ (body, refl, received_fields body yes')
      | inr no' ↦ ground (arith, h, no')
    ]
answered net (responded (some _)) h = cc

request-answered :
    (sv : Services) (net : Network) (d : CallbackDelivery) (s : Store)
    → (request sv net d s).0 ≡ none
    → (body : JsonFields) × ((net.post d s).0 ≡ responded (some (Json.object body)))
      × Acknowledges body
unfolding request
request-answered sv net d s h = elim (Option-cases (sv.refuse_url d.url)) [
  | inl e ↦ answered net (net.post d s).0 (ground (arith, e, h))
  | inr (t, e) ↦ ground (arith, e, h)
]

save-IsStored : (d : CallbackDelivery) (s : Store) → IsStored d (save d s)
unfolding save
save-IsStored d s = record {
  time = s.clock;
  row =
      find-merge callback_key (record d { update_time = s.clock }) d.event_id s.callbacks
      ∙ rw ((eq_iff d.event_id d.event_id).1 refl) refl;
}

record_delivered-IsStored :
    (d : CallbackDelivery) (run : AgentRun) (s : Store)
    → IsStored (delivered d) (record_delivered d run s)
unfolding record_delivered update_run_with_callback
record_delivered-IsStored d run s =
    let swap = update_if_current (settled run s) (in_status run.status) s in
    let kept = save-IsStored (delivered d) swap.1 in
    elim (Bool-cases swap.0) [
      | inl e ↦ record { time = kept.time; row = rw (record_delivered, e) kept.row }
      | inr e ↦ record { time = kept.time; row = rw (record_delivered, e) kept.row }
    ]

-- The delivery at the next attempt, from one whose attempt has failed.
record Failed (d d1 : CallbackDelivery) : Type 0 where
  attempts : d1.attempts ≡ suc d.attempts
  status : d1.status ≡ CallbackStatus.failed
  same : (d1.event_id ≡ d.event_id) × (d1.url ≡ d.url) × (d1.payload ≡ d.payload)

later :
    (net : Network) (rounds : ℕ) (d d1 d' : CallbackDelivery)
    → Failed d d1
    → Ended net rounds d1 d'
    → Ended net (suc rounds) d d'
later net rounds d d1 d' f (acknowledged r a b c e) =
    acknowledged
      (record {
        request_sent = r.request_sent;
        store = r.store;
        body = r.body;
        same = (r.same.0 ∙ f.same.0, r.same.1 ∙ f.same.1, r.same.2 ∙ f.same.2);
        at_attempt = r.at_attempt;
        answer = r.answer;
        ack = r.ack;
      })
      a b (omega (arith, f.attempts, c)) (omega (arith, f.attempts, e))
later net rounds d d1 d' f (used_up a b c) = used_up (omega arith) b (omega (arith, f.attempts, c))
later net rounds d d1 d' f (none_left a b c) =
    used_up (omega arith) (b ∙ f.status) (omega (arith, f.attempts, a, c))

-- How a delivery ends, with its row and its owner.
pub record EndedIn (net : Network) (rounds : ℕ) (d d' : CallbackDelivery) (s : Store) : Type 0 where
  pub ended : Ended net rounds d d'
  pub event : d'.event_id ≡ d.event_id
  pub free : (d'.worker ≡ none) × (d'.lease_expire_time ≡ none)
  pub stored : IsStored d' s

module _ (sv : Services) (net : Network) (keep : Keeps net) where
  hook-IsStored :
      (b : Bool) (d : CallbackDelivery) (s : Store)
      → IsStored d s
      → IsStored d (net.on_callback_end b d s).1
  hook-IsStored b d s h = record { time = h.time; row = keep.on_callback_end b d s ∙ h.row }

  later_in :
      (rounds : ℕ) (d d1 : CallbackDelivery) (r : CallbackDelivery × Store)
      → Failed d d1
      → EndedIn net rounds d1 r.0 r.1
      → EndedIn net (suc rounds) d r.0 r.1
  later_in rounds d d1 r f h = record {
    ended = later net rounds d d1 r.0 f h.ended;
    event = h.event ∙ f.same.0;
    free = h.free;
    stored = h.stored;
  }

  attempts_loop-EndedIn :
      (rounds attempt : ℕ) (d : CallbackDelivery) (run : AgentRun) (s : Store)
      → attempt ≡ suc d.attempts
      → let r = attempts_loop rounds sv net attempt d run s in EndedIn net rounds d r.0 r.1
  unfolding attempts_loop exhaust undelivered delivered
  attempts_loop-EndedIn zero attempt d run s h = record {
    ended = none_left refl refl refl;
    event = refl;
    free = (refl, refl);
    stored = hook-IsStored false (exhaust d run s).0 (exhaust d run s).1 (save-IsStored _ _);
  }
  attempts_loop-EndedIn (suc rounds) attempt d run s h =
      let d1 = record d { attempts = attempt } in
      let (error, s1) = request sv net d1 s in
      let told = net.on_callback_end true (delivered d1) (record_delivered d1 run s1) in
      elim (Option-cases error) [
        | inl e ↦ elim (Option-cases told.0) [
          | inl f ↦
              let (body, answer, ack) = request-answered sv net d1 s e in
              rw (e, attempts_loop, f)
                (record {
                  ended =
                      acknowledged
                        (record {
                          request_sent = d1;
                          store = s;
                          body = body;
                          same = (refl, refl, refl);
                          at_attempt = refl;
                          answer = answer;
                          ack = ack;
                        })
                        refl refl (omega arith) (omega arith);
                  event = refl;
                  free = (refl, refl);
                  stored =
                      hook-IsStored true (delivered d1) (record_delivered d1 run s1)
                        (record_delivered-IsStored d1 run s1);
                })
          | inr (t, f) ↦
              let d2 = undelivered sv (delivered d1) attempt t told.1 in
              let r =
                attempts_loop rounds sv net (suc attempt) d2 (settled run s1)
                  (record_failed sv net d2 attempt (settled run s1) told.1) in
              rw (e, attempts_loop, f)
                (later_in rounds d d2 r
                  (record { attempts = h; status = refl; same = (refl, refl, refl) })
                  (attempts_loop-EndedIn rounds (suc attempt) d2 (settled run s1) _ refl))
        ]
        | inr (t, e) ↦
            let d2 = undelivered sv d1 attempt t s1 in
            let r =
              attempts_loop rounds sv net (suc attempt) d2 run
                (record_failed sv net d2 attempt run s1) in
            rw (e, attempts_loop)
              (later_in rounds d d2 r
                (record { attempts = h; status = refl; same = (refl, refl, refl) })
                (attempts_loop-EndedIn rounds (suc attempt) d2 run _ refl))
      ]

  -- A dispatch of a known run's delivery ends. It is delivered, at an attempt within the limit whose
  -- answer's first field "ackStatus" is "RECEIVED"; or every attempt that was left is used up and its
  -- status is failed; or no attempt was left and its status and attempts are as they were. In each case
  -- it has no owner, and the row of its event in the store is the delivery returned. The hooks that are
  -- told of the end are assumed to leave that row.
  pub dispatch_delivery-Ended :
      (d : CallbackDelivery) (s : Store) (run : AgentRun)
      → get d.run_id s ≡ some run
      → (d' : CallbackDelivery) × (s' : Store) × (dispatch_delivery sv net d s ≡ some (d', s'))
        × EndedIn net (sv.settings.max_attempts - d.attempts) d d' s'
  unfolding dispatch_delivery
  dispatch_delivery-Ended d s run h =
      let rounds = sv.settings.max_attempts - d.attempts in
      let r = attempts_loop rounds sv net (suc d.attempts) d run s in
      (
        r.0,
        r.1,
        rw (h, dispatch_delivery),
        attempts_loop-EndedIn rounds (suc d.attempts) d run s refl,
      )
