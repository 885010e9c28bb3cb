-- ===== src/Tracker.antt =====
-- internal/suggestions/workflow/tracker.go: the workflows that a session is in the middle of, and
-- the next steps that it is offered. The mutex makes each call one step, and `now` is what `nowFn`
-- returns, in milliseconds since the epoch. Counts of the configuration may be negative.
use clai.Common.{
  ℕ, zero, suc, ◌+◌, ltb, leb, if◌then◌else◌, Bool, true, false, not, ◌&&◌, ◌||◌, List, [], ◌∷◌,
  ◌++◌, length, get_elem?, String, str_eq, Option, none, some, ℤ, pos, negsuc,
}
use Prim.Native.String.{◌++◌ as append}
pub mod Progress
pub mod Candidates
mod Samples

pub record TrackerConfig : Type 0 where
  pub stale_after_commands : ℤ
  pub max_candidates : ℤ
  pub activation_timeout_ms : ℤ

unfoldable pub default_tracker_config : TrackerConfig
default_tracker_config = record {
  stale_after_commands = pos 5;
  max_candidates = pos 3;
  activation_timeout_ms = pos 600_000;
}

-- The fields of `Pattern` that the tracker reads.
pub record Pattern : Type 0 where
  pub pattern_id : String
  pub template_ids : List String
  pub display_names : List String

pub record ActiveWorkflow : Type 0 where
  pub pattern_of : Pattern
  pub current_step : ℕ
  pub commands_since_advance : ℕ
  pub activated_at_ms : ℕ
  pub last_advanced_ms : ℕ

pub record Tracker : Type 0 where
  pub patterns : List Pattern
  pub active : List ActiveWorkflow
  pub cfg : TrackerConfig

unfoldable pub new_tracker : List Pattern → TrackerConfig → Tracker
new_tracker patterns cfg = record { patterns = patterns; active = []; cfg = cfg }

unfoldable pub set_patterns : Tracker → List Pattern → Tracker
set_patterns t patterns = record t { patterns = patterns }

pub record Candidate : Type 0 where
  pub pattern_id : String
  pub template_id : String
  pub display_name : String
  pub workflow_name : String
  pub step_index : ℕ
  pub total_steps : ℕ

-- `nextStep < len(ids) && ids[nextStep] == templateID`
abbrev pub is_at : Option String → String → Bool
is_at none template_id = false
is_at (some id) template_id = str_eq id template_id

-- The body of the loop of `advanceActive`.
unfoldable pub advance : String → ℕ → ActiveWorkflow → ActiveWorkflow
advance template_id now aw =
    if is_at (get_elem? aw.pattern_of.template_ids (aw.current_step + 1)) template_id
    then (record aw {
      current_step = aw.current_step + 1;
      commands_since_advance = 0;
      last_advanced_ms = now;
    })
    else record aw { commands_since_advance = aw.commands_since_advance + 1 }

unfoldable pub advance_active : String → ℕ → List ActiveWorkflow → List ActiveWorkflow
unfolding advance
advance_active template_id now [] = []
advance_active template_id now (aw ∷ rest) =
    advance template_id now aw ∷ advance_active template_id now rest

-- `n >= limit`, for a count `n`.
abbrev pub reaches : ℕ → ℤ → Bool
reaches n (pos limit) = leb limit n
reaches n (negsuc _) = true

-- `timeout > 0 && now-last > timeout`. The difference of two instants may be negative.
abbrev pub timed_out : ℕ → ℕ → ℤ → Bool
timed_out now last (pos zero) = false
timed_out now last (pos (suc timeout)) = ltb (last + suc timeout) now
timed_out now last (negsuc _) = false

-- `CurrentStep >= len(ids)-1`
abbrev pub completed : ActiveWorkflow → Bool
completed aw = leb (length aw.pattern_of.template_ids) (aw.current_step + 1)

-- The three tests of `cleanStale` that remove a workflow.
unfoldable pub is_stale : TrackerConfig → ℕ → ActiveWorkflow → Bool
is_stale cfg now aw =
    reaches aw.commands_since_advance cfg.stale_after_commands
    || (timed_out now aw.last_advanced_ms cfg.activation_timeout_ms || completed aw)

unfoldable pub clean_stale : TrackerConfig → ℕ → List ActiveWorkflow → List ActiveWorkflow
unfolding is_stale
clean_stale cfg now [] = []
clean_stale cfg now (aw ∷ rest) =
    let kept = clean_stale cfg now rest in if is_stale cfg now aw then kept else aw ∷ kept

abbrev pub is_active : String → List ActiveWorkflow → Bool
is_active id [] = false
is_active id (aw ∷ rest) = str_eq aw.pattern_of.pattern_id id || is_active id rest

abbrev pub fresh : Pattern → ℕ → ActiveWorkflow
fresh p now = record {
  pattern_of = p;
  current_step = 0;
  commands_since_advance = 0;
  activated_at_ms = now;
  last_advanced_ms = now;
}

-- The loop of `tryActivate`: `before` holds the workflows that were active when it began, whose
-- ids are not activated again, and the result what is appended.
unfoldable pub activations : List ActiveWorkflow → String → ℕ → List Pattern → List ActiveWorkflow
activations before template_id now [] = []
activations before template_id now (p ∷ ps) =
    let rest = activations before template_id now ps in
    if is_active p.pattern_id before
    then rest
    else if is_at (get_elem? p.template_ids 0) template_id
    then fresh p now ∷ rest
    else rest

unfoldable pub try_activate : Tracker → String → ℕ → List ActiveWorkflow → List ActiveWorkflow
unfolding activations
try_activate t template_id now active = active ++ activations active template_id now t.patterns

-- `joinNames`
abbrev join_rest : List String → String → String
join_rest [] result = result
join_rest (n ∷ ns) result = join_rest ns (append (append result " -> ") n)

abbrev join_names : List String → String
join_names [] = ""
join_names (n ∷ ns) = join_rest ns n

abbrev last_name : String → List String → String
last_name d [] = d
last_name d (n ∷ ns) = last_name n ns

-- `workflowSummary`: up to three names, or the first two and the last.
unfoldable pub workflow_summary : List String → String
workflow_summary (a ∷ b ∷ c ∷ d ∷ names) =
    append a (append " -> " (append b (append " -> ... -> " (last_name d names))))
workflow_summary names = join_names names

abbrev name_at : Option String → String
name_at none = ""
name_at (some n) = n

abbrev pub candidate : ActiveWorkflow → String → Candidate
candidate aw tid = record {
  pattern_id = aw.pattern_of.pattern_id;
  template_id = tid;
  display_name = name_at (get_elem? aw.pattern_of.display_names (aw.current_step + 1));
  workflow_name = workflow_summary aw.pattern_of.display_names;
  step_index = aw.current_step + 1;
  total_steps = length aw.pattern_of.template_ids;
}

abbrev pub offers : String → List Candidate → Bool
offers tid [] = false
offers tid (c ∷ cs) = str_eq c.template_id tid || offers tid cs

-- The loop of `collectCandidates`, from the candidates so far. `seen` is their template ids.
unfoldable pub collect_from : ℤ → List Candidate → List ActiveWorkflow → List Candidate
collect_from limit found [] = found
collect_from limit found (aw ∷ rest) =
    elim (get_elem? aw.pattern_of.template_ids (aw.current_step + 1)) [
      | none ↦ collect_from limit found rest
      | some tid ↦ elim (offers tid found) [
        | true ↦ collect_from limit found rest
        | false ↦ elim (reaches (length (found ++ candidate aw tid ∷ [])) limit) [
          | true ↦ found ++ candidate aw tid ∷ []
          | false ↦ collect_from limit (found ++ candidate aw tid ∷ []) rest
        ]
      ]
    ]

unfoldable pub collect_candidates : ℤ → List ActiveWorkflow → List Candidate
unfolding collect_from
collect_candidates limit active = collect_from limit [] active

unfoldable pub on_command : Tracker → String → ℕ → Tracker × List Candidate
unfolding advance_active clean_stale try_activate collect_candidates
on_command t template_id now =
    let advanced = advance_active template_id now t.active in
    let kept = clean_stale t.cfg now advanced in
    let active = try_activate t template_id now kept in
    (record t { active = active }, collect_candidates t.cfg.max_candidates active)

unfoldable pub active_workflows : Tracker → ℕ
active_workflows t = length t.active
