-- ===== src/Timing/Requests.antt =====
-- At which keystrokes suggestions are requested.
use clai.Common.{
  ℕ, ◌+◌, ◌≤◌, ltb, leb, Bool, true, false, not, ◌&&◌, List, [], ◌∷◌, All, ◌≡◌, refl, sym, subst,
  ◌∙◌, ap₂, arith,
}
use clai.Timing.{
  State, idle, typing, fast_typing, paused, Thresholds, Machine, on_keystroke, on_idle, reset,
}

pub data Event : Type 0 where
  keystroke : ℕ → Event
  idle_check : ℕ → Event
  reset_all : Event

abbrev pub handle : Machine → Event → Machine × Bool
handle m (keystroke now) = on_keystroke m now
handle m (idle_check now) = on_idle m now
handle m reset_all = (reset m, false)

-- The answers to a sequence of calls.
abbrev pub answers : Machine → List Event → List Bool
answers m [] = []
answers m (e ∷ es) = let (m', request) = handle m e in request ∷ answers m' es

-- Whether a phrase is being typed, and when the last key was struck.
pub record Phrase : Type 0 where
  pub is_open : Bool
  pub last : ℕ

-- The answers as a phrase calls for them: a key after a pause ends the phrase and is the one that
-- asks, the key after it begins another phrase, and so does a key after a long silence that an
-- idle check has noticed, or after a reset.
abbrev pub asked : Thresholds → Phrase → List Event → List Bool
asked c p [] = []
asked c p (keystroke now ∷ es) =
    let asks = p.is_open && ltb (p.last + c.pause_threshold_ms) now in
    asks ∷ asked c (record { is_open = not asks; last = now }) es
asked c p (idle_check now ∷ es) =
    false
    ∷ asked c (record p { is_open = p.is_open && not (leb (p.last + c.idle_timeout_ms) now) }) es
asked c p (reset_all ∷ es) = false ∷ asked c (record { is_open = false; last = 0 }) es

abbrev pub is_typing : State → Bool
is_typing idle = false
is_typing typing = true
is_typing fast_typing = true
is_typing paused = false

abbrev pub phrase_of : Machine → Phrase
phrase_of m = record { is_open = is_typing m.state; last = m.last_keystroke_ms }

-- One call, as a phrase sees it.
abbrev answer : Thresholds → Phrase → Event → Bool × Phrase
answer c p (keystroke now) =
    let asks = p.is_open && ltb (p.last + c.pause_threshold_ms) now in
    (asks, record { is_open = not asks; last = now })
answer c p (idle_check now) =
    (false, record p { is_open = p.is_open && not (leb (p.last + c.idle_timeout_ms) now) })
answer c p reset_all = (false, record { is_open = false; last = 0 })

handle-answer :
    (m : Machine) (e : Event)
    → let (m', request) = handle m e in
      let (asks, p) = answer m.config (phrase_of m) e in
      (request ≡ asks) × (phrase_of m' ≡ p) × (m'.config ≡ m.config)
unfolding on_keystroke on_idle reset
handle-answer m (keystroke now) = ground arith
handle-answer m (idle_check now) = ground arith
handle-answer m reset_all = (refl, refl, refl)

asked-cons :
    (c : Thresholds) (p : Phrase) (e : Event) (es : List Event)
    → asked c p (e ∷ es) ≡ (answer c p e).0 ∷ asked c (answer c p e).1 es
asked-cons c p (keystroke now) es = refl
asked-cons c p (idle_check now) es = refl
asked-cons c p reset_all es = refl

-- Over any sequence of keystrokes, idle checks and resets, a suggestion is requested at exactly
-- those keystrokes that come more than the pause threshold after the keystroke before in the same
-- phrase. Such a key ends its phrase, as do a reset and an idle check after the idle timeout, and
-- the key that comes after the end begins the next phrase.
pub answers-asked : (m : Machine) (es : List Event) → answers m es ≡ asked m.config (phrase_of m) es
answers-asked m [] = refl
answers-asked m (e ∷ es) =
    let (m', request) = handle m e in
    let here = handle-answer m e in
    ap₂ (λ b bs. b ∷ bs) here.0 (answers-asked m' es ∙ ap₂ (λ c p. asked c p es) here.2 here.1)
    ∙ sym (asked-cons m.config (phrase_of m) e es)

abbrev pub keystrokes : List ℕ → List Event
keystrokes [] = []
keystrokes (t ∷ ts) = keystroke t ∷ keystrokes ts

-- No key comes later than `pause` after the one before.
abbrev pub IsSteady : ℕ → ℕ → List ℕ → Type 0
IsSteady pause last [] = Unit
IsSteady pause last (t ∷ ts) = (t ≤ last + pause) × IsSteady pause t ts

asked_steady :
    (c : Thresholds) (p : Phrase) (ts : List ℕ)
    → IsSteady c.pause_threshold_ms p.last ts
    → All (λ b. b ≡ false) (asked c p (keystrokes ts))
asked_steady c p [] h = tt
asked_steady c p (t ∷ ts) h =
    let asks = p.is_open && ltb (p.last + c.pause_threshold_ms) t in
    (ground arith, asked_steady c (record { is_open = not asks; last = t }) ts h.1)

-- Whatever the state, keys that follow one another within the pause threshold request nothing.
pub answers_steady :
    (m : Machine) (ts : List ℕ)
    → IsSteady m.config.pause_threshold_ms m.last_keystroke_ms ts
    → All (λ b. b ≡ false) (answers m (keystrokes ts))
answers_steady m ts h =
    subst (All (λ b. b ≡ false)) (sym (answers-asked m (keystrokes ts)))
      (asked_steady m.config (phrase_of m) ts h)
