-- ===== src/Shim/Persistent/Accepted.antt =====
-- internal/shim/persistent.go: the dispatches of a run and their answers, and the parts of the
-- runner that send one event or drain the ring.
use clai.Common.{
  true, false, List, [], ◌∷◌, ◌++◌, Option, none, some, ◌≡◌, refl, sym, ap, subst, ◌∙◌, arith, inl,
  inr, append_assoc, ◌⊎◌, Option-cases,
}
use clai.Shim.RingBuffer.{drain_all}
use clai.Shim.RingBuffer.Refinement.{IsValid, contents, drain_all_lem}
use clai.Shim.Persistent.{
  Pointer, Error, Call, dialled, dispatched, closed, slept, Network, Runner, send_oneshot,
  send_each, drain_buffer_oneshot, dispatch_each, drain_buffer,
}

-- A dial that failed, and a dispatch of an event with what it answered.
pub data Attempt : Type 0 where
  lost : Attempt
  sent : Pointer → Option Error → Attempt

-- The failed dials and the dispatches among the calls, the oldest first.
abbrev pub attempts : {C : Type 0} → List (Call C) → List Attempt
attempts [] = []
attempts (dispatched c ev err ∷ cs) = attempts cs ++ sent ev err ∷ []
attempts (dialled none ∷ cs) = attempts cs ++ lost ∷ []
attempts (dialled (some c) ∷ cs) = attempts cs
attempts (closed c ∷ cs) = attempts cs
attempts (slept d ∷ cs) = attempts cs

-- The events of the dispatches that returned no error. A daemon may have taken an event and
-- have failed to say so: such an event is not among these.
abbrev pub acknowledged : List Attempt → List Pointer
acknowledged [] = []
acknowledged (sent ev none ∷ l) = ev ∷ acknowledged l
acknowledged (sent ev (some e) ∷ l) = acknowledged l
acknowledged (lost ∷ l) = acknowledged l

pub acknowledged-append :
    (l m : List Attempt) → acknowledged (l ++ m) ≡ acknowledged l ++ acknowledged m
acknowledged-append [] m = refl
acknowledged-append (sent ev none ∷ l) m = ap (λ k. ev ∷ k) (acknowledged-append l m)
acknowledged-append (sent ev (some e) ∷ l) m = acknowledged-append l m
acknowledged-append (lost ∷ l) m = acknowledged-append l m

-- The events whose dispatch returned no error in a list of calls, the oldest first.
abbrev pub accepted : {C : Type 0} → List (Call C) → List Pointer
accepted cs = acknowledged (attempts cs)

-- There is a connection unless the runner has fallen back to one for each event, and the ring
-- holds nothing.
pub record IsSettled {C : Type 0} (r : Runner C) : Type 0 where
  pub valid : IsValid none r.buf
  pub empty : contents none r.buf ≡ []
  pub mode :
      (r.oneshot ≡ true) × (r.dispatcher ≡ none)
      ⊎ (r.oneshot ≡ false) × ((c : C) × (r.dispatcher ≡ some c))

module _ {C : Type 0} (net : Network C) where
  -- Every dial is answered, and what a new connection is asked first succeeds.
  pub record IsReliable : Type 0 where
    pub answers : (cs : List (Call C)) → (c : C) × (net.dials cs ≡ some c)
    pub takes :
        (cs : List (Call C)) (c : C) (ev : Pointer)
        → net.dispatches (dialled (some c) ∷ cs) c ev ≡ none

  -- Failed dials, if any, and then a last one or a dispatch of the event.
  pub data Redials (ev : Pointer) : List Attempt → Type 0 where
    given_up : Redials ev (lost ∷ [])
    last : (err : Option Error) → Redials ev (sent ev err ∷ [])
    redial : {l : List Attempt} → Redials ev l → Redials ev (lost ∷ l)

  -- What was attempted after `before`, for one event.
  pub record Takes (before : List Attempt) (after : List (Call C)) (ev : Pointer) : Type 0 where
    pub tries : List Attempt
    pub adds : attempts after ≡ before ++ tries
    pub redials : Redials ev tries
    pub sure : IsReliable → acknowledged tries ≡ ev ∷ []

  pub Takes-dispatched :
      (cs after : List (Call C)) (c : C) (ev : Pointer)
      → attempts after ≡ attempts cs ++ sent ev (net.dispatches (dialled (some c) ∷ cs) c ev) ∷ []
      → Takes (attempts cs) after ev
  Takes-dispatched cs after c ev e = record {
    tries = sent ev (net.dispatches (dialled (some c) ∷ cs) c ev) ∷ [];
    adds = e;
    redials = last (net.dispatches (dialled (some c) ∷ cs) c ev);
    sure = λ h. ap (λ err. acknowledged (sent ev err ∷ [])) (h.takes cs c ev);
  }

  Takes-nothing :
      (cs : List (Call C)) (ev : Pointer) (h : net.dials cs ≡ none) (after : List (Call C))
      → attempts after ≡ attempts cs ++ lost ∷ []
      → Takes (attempts cs) after ev
  Takes-nothing cs ev h after e = record {
    tries = lost ∷ [];
    adds = e;
    redials = given_up;
    sure = λ r. absurd (ground (arith, (r.answers cs).1));
  }

  pub Takes-redial :
      (before : List Attempt) (after : List (Call C)) (ev : Pointer)
      → Takes (before ++ lost ∷ []) after ev
      → Takes before after ev
  Takes-redial before after ev t = record {
    tries = lost ∷ t.tries;
    adds = t.adds ∙ append_assoc before (lost ∷ []) t.tries;
    redials = redial t.redials;
    sure = t.sure;
  }

  -- `sendOneshot` changes nothing but the calls.
  pub record SameState (r r' : Runner C) : Type 0 where
    pub dispatcher : r'.dispatcher ≡ r.dispatcher
    pub buf : r'.buf ≡ r.buf
    pub oneshot : r'.oneshot ≡ r.oneshot

  pub send_oneshot_lem :
      (ev : Pointer) (r : Runner C)
      → Takes (attempts r.calls) (send_oneshot net ev r).calls ev
        × SameState r (send_oneshot net ev r)
  unfolding send_oneshot
  send_oneshot_lem ev r = elim (Option-cases (net.dials r.calls)) [
    | inl away ↦ rw away (
      Takes-nothing r.calls ev away _ refl,
      record { dispatcher = refl; buf = refl; oneshot = refl },
    )
    | inr (c, found) ↦ rw found (
      Takes-dispatched r.calls _ c ev refl,
      record { dispatcher = refl; buf = refl; oneshot = refl },
    )
  ]

  pub SameState-IsSettled : (r r' : Runner C) → SameState r r' → IsSettled r → IsSettled r'
  SameState-IsSettled r r' h v = record {
    valid = subst (IsValid none) (sym h.buf) v.valid;
    empty = rw h.buf v.empty;
    mode = rw (h.dispatcher, h.oneshot) v.mode;
  }

  abbrev pub drained : Runner C → Runner C
  drained r = record r { buf = (drain_all none r.buf).0 }

  pub drain_buffer_oneshot_lem :
      (r : Runner C) (evs : List Pointer)
      → IsValid none r.buf
      → contents none r.buf ≡ evs
      → drain_buffer_oneshot net r ≡ send_each net evs (drained r)
  unfolding drain_buffer_oneshot
  drain_buffer_oneshot_lem r evs v e =
      ap (λ l. send_each net l (drained r)) ((drain_all_lem none r.buf v).0 ∙ e)

  pub drain_buffer_lem :
      (r : Runner C) (c : C) (evs : List Pointer)
      → r.dispatcher ≡ some c
      → IsValid none r.buf
      → contents none r.buf ≡ evs
      → drain_buffer net r ≡ dispatch_each net c evs (drained r)
  unfolding drain_buffer
  drain_buffer_lem r c evs d v e = rw (d, (drain_all_lem none r.buf v).0, e) refl

  pub oneshot-IsSettled :
      (r : Runner C)
      → r.oneshot ≡ true
      → r.dispatcher ≡ none
      → IsValid none r.buf
      → IsSettled (drained r)
  oneshot-IsSettled r o d v =
      let (_, e, v') = drain_all_lem none r.buf v in
      record { valid = v'; empty = e; mode = inl (o, d) }
