-- ===== src/Shim/Persistent/Delivery.antt =====
-- internal/shim/persistent.go: what becomes of the events that are handled one after the other.
use clai.Common.{
  ℕ, if◌then◌else◌, true, false, List, [], ◌∷◌, ◌++◌, take_last_short, Option, none, some, ◌≡◌,
  refl, ap, ◌∙◌, Bool-cases, inl, inr, append_assoc, Option-cases,
}
use clai.Shim.RingBuffer.{push}
use clai.Shim.RingBuffer.Refinement.{IsValid, contents, push-IsValid, contents-push, drain_all_lem}
use clai.Shim.Persistent.{
  Pointer, Error, is_broken_pipe, Call, dialled, dispatched, slept, Network, Runner, backoff_delays,
  close, send_oneshot, send_each, dispatch_each, reconnected, retry, try_reconnect,
  handle_broken_pipe, buffer_and_reconnect, after_dispatch, handle_on, handle_event,
}
use clai.Shim.Persistent.Accepted.{
  Attempt, sent, attempts, acknowledged, IsReliable, IsSettled, last, Redials, Takes,
  Takes-dispatched, Takes-redial, SameState-IsSettled, send_oneshot_lem, drained,
  drain_buffer_oneshot_lem, drain_buffer_lem, oneshot-IsSettled,
}

module _ {C : Type 0} (net : Network C) where
  -- A runner without a connection whose ring holds one event.
  record IsWaiting (r : Runner C) (ev : Pointer) : Type 0 where
    valid : IsValid none r.buf
    one_event : contents none r.buf ≡ ev ∷ []
    dispatcher : r.dispatcher ≡ none
    oneshot : r.oneshot ≡ false

  -- The runner after a dial that was answered so.
  abbrev after_dial : ℕ → Option C → Runner C → Runner C
  after_dial delay a r = record r { calls = dialled a ∷ slept delay ∷ r.calls }

  retry_answered :
      (delay : ℕ) (delays : List ℕ) (r : Runner C) (a : Option C)
      → net.dials (slept delay ∷ r.calls) ≡ a
      → retry net (delay ∷ delays) r
        ≡ reconnected net a (after_dial delay a r) (retry net delays (after_dial delay a r))
  unfolding retry
  retry_answered delay delays r a h =
      ap (λ o. reconnected net o (after_dial delay o r) (retry net delays (after_dial delay o r))) h

  retry_lem :
      (delays : List ℕ) (ev : Pointer) (r : Runner C)
      → IsWaiting r ev
      → Takes net (attempts r.calls) (retry net delays r).calls ev × IsSettled (retry net delays r)
  unfolding retry send_each dispatch_each
  retry_lem [] ev r w =
      let r₀ : Runner C = record r { oneshot = true } in
      let (t, same) = send_oneshot_lem net ev (drained net r₀) in
      rw (drain_buffer_oneshot_lem net r₀ (ev ∷ []) w.valid w.one_event) (
        t,
        SameState-IsSettled net (drained net r₀) _ same
            (oneshot-IsSettled net r₀ refl w.dispatcher w.valid),
      )
  retry_lem (delay ∷ delays) ev r w = elim (Option-cases (net.dials (slept delay ∷ r.calls))) [
    | inl away ↦
        let r₁ : Runner C = record r { calls = dialled none ∷ slept delay ∷ r.calls } in
        let (t, settled) = retry_lem delays ev r₁ (record {
          valid = w.valid;
          one_event = w.one_event;
          dispatcher = w.dispatcher;
          oneshot = w.oneshot;
        }) in
        rw (retry_answered delay delays r none away)
          (Takes-redial net (attempts r.calls) _ ev t, settled)
    | inr (c, found) ↦
        let r₁ : Runner C = record r {
          calls = dialled (some c) ∷ slept delay ∷ r.calls;
          dispatcher = some c;
        } in
        let (_, e, v') = drain_all_lem none r.buf w.valid in
        rw
          (
            retry_answered delay delays r (some c) found,
            drain_buffer_lem net r₁ c (ev ∷ []) refl w.valid w.one_event,
          )
          (
            Takes-dispatched net (slept delay ∷ r.calls) _ c ev refl,
            record { valid = v'; empty = e; mode = inr (w.oneshot, (c, refl)) },
          )
  ]

  pushed :
      (r : Runner C) (ev : Pointer)
      → IsSettled r
      → IsValid none (push none r.buf ev) × (contents none (push none r.buf ev) ≡ ev ∷ [])
  pushed r ev v = (
    push-IsValid none r.buf ev v.valid,
    rw (contents-push none r.buf ev v.valid, v.empty)
        (take_last_short r.buf.cap (ev ∷ []) v.valid.cap_pos),
  )

  module _ (c : C) (ev : Pointer) where
    broken_pipe_lem :
        (r : Runner C)
        → r.dispatcher ≡ some c
        → IsSettled r
        → Takes net (attempts r.calls) (handle_broken_pipe net ev r).calls ev
          × IsSettled (handle_broken_pipe net ev r)
    unfolding handle_broken_pipe send_each
    broken_pipe_lem r d v =
        let r₁ : Runner C = record (close net c r) { dispatcher = none; oneshot = true } in
        let (t, same) = send_oneshot_lem net ev (drained net r₁) in
        rw (d, drain_buffer_oneshot_lem net r₁ [] v.valid v.empty)
          (
            t,
            SameState-IsSettled net (drained net r₁) _ same
                (oneshot-IsSettled net r₁ refl refl v.valid),
          )

    reconnect_lem :
        (r : Runner C)
        → r.dispatcher ≡ some c
        → r.oneshot ≡ false
        → IsSettled r
        → Takes net (attempts r.calls) (buffer_and_reconnect net ev r).calls ev
          × IsSettled (buffer_and_reconnect net ev r)
    unfolding buffer_and_reconnect try_reconnect
    reconnect_lem r d o v =
        let (valid, one_event) = pushed r ev v in
        let r₁ : Runner C = record (close net c r) {
          dispatcher = none;
          buf = push none r.buf ev;
        } in
        rw d (
          retry_lem backoff_delays ev r₁
            (record { valid = valid; one_event = one_event; dispatcher = refl; oneshot = o }))

  -- The attempts for one event: failed dials, if any, and then a last one or a dispatch; before
  -- them there may be one dispatch that returned an error.
  pub data Tries (ev : Pointer) : List Attempt → Type 0 where
    first : {l : List Attempt} → Redials net ev l → Tries ev l
    again : (e : Error) {l : List Attempt} → Redials net ev l → Tries ev (sent ev (some e) ∷ l)

  -- What was attempted after `before` was for the event, and ended well if the network is reliable.
  pub record Handles (before : List Attempt) (after : List (Call C)) (ev : Pointer) : Type 0 where
    pub tries : List Attempt
    pub adds : attempts after ≡ before ++ tries
    pub bounded : Tries ev tries
    pub sure : IsReliable net → acknowledged tries ≡ ev ∷ []

  Takes-Handles :
      (before : List Attempt) (after : List (Call C)) (ev : Pointer)
      → Takes net before after ev
      → Handles before after ev
  Takes-Handles before after ev t = record {
    tries = t.tries;
    adds = t.adds;
    bounded = first t.redials;
    sure = t.sure;
  }

  Takes-refused :
      (before : List Attempt) (after : List (Call C)) (ev : Pointer) (e : Error)
      → Takes net (before ++ sent ev (some e) ∷ []) after ev
      → Handles before after ev
  Takes-refused before after ev e t = record {
    tries = sent ev (some e) ∷ t.tries;
    adds = t.adds ∙ append_assoc before (sent ev (some e) ∷ []) t.tries;
    bounded = again e t.redials;
    sure = t.sure;
  }

  alone :
      (ev : Pointer) (r : Runner C)
      → r.oneshot ≡ true
      → handle_event net ev r ≡ send_oneshot net ev r
  unfolding handle_event
  alone ev r o = ap (λ b. if b then send_oneshot net ev r else handle_on net r.dispatcher ev r) o

  together :
      (ev : Pointer) (r : Runner C) (c : C) (err : Option Error)
      → r.oneshot ≡ false
      → r.dispatcher ≡ some c
      → net.dispatches r.calls c ev ≡ err
      → handle_event net ev r
        ≡ after_dispatch net ev err (record r { calls = dispatched c ev err ∷ r.calls })
  unfolding handle_event
  together ev r c err o d e =
      ap (λ b. if b then send_oneshot net ev r else handle_on net r.dispatcher ev r) o
      ∙ ap (λ m. handle_on net m ev r) d
      ∙ ap (λ x. after_dispatch net ev x (record r { calls = dispatched c ev x ∷ r.calls })) e

  -- `handleEvent` dispatches the event at most twice, and leaves nothing in the ring.
  pub handle_event_lem :
      (ev : Pointer) (r : Runner C)
      → IsSettled r
      → Handles (attempts r.calls) (handle_event net ev r).calls ev
        × IsSettled (handle_event net ev r)
  handle_event_lem ev r v = elim v.mode [
    | inl (o, d) ↦
        let (t, same) = send_oneshot_lem net ev r in
        rw (alone ev r o) (Takes-Handles _ _ ev t, SameState-IsSettled net r _ same v)
    | inr (o, (c, d)) ↦
        let answered : (err : Option Error) → Runner C =
          λ err. record r { calls = dispatched c ev err ∷ r.calls } in
        let kept : (err : Option Error) → IsSettled (answered err) =
          λ err. record { valid = v.valid; empty = v.empty; mode = v.mode } in
        elim (Option-cases (net.dispatches r.calls c ev)) [
          | inl ok ↦ rw (together ev r c none o d ok) (
            record {
              tries = sent ev none ∷ [];
              adds = refl;
              bounded = first (last none);
              sure = λ _. refl;
            },
            kept none,
          )
          | inr (e, bad) ↦
              rw (together ev r c (some e) o d bad) (elim (Bool-cases (is_broken_pipe (some e))) [
                | inl broken ↦
                    let (t, settled) = broken_pipe_lem c ev (answered (some e)) d (kept (some e)) in
                    rw broken (Takes-refused _ _ ev e t, settled)
                | inr other ↦
                    let (t, settled) = reconnect_lem c ev (answered (some e)) d o (kept (some e)) in
                    rw other (Takes-refused _ _ ev e t, settled)
              ])
        ]
  ]
