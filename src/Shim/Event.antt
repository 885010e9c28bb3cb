-- ===== src/Shim/Event.antt =====
-- internal/shim/event.go, the events that the shell hooks write, one line of JSON each, and the
-- dispatcher of internal/shim/persistent.go that makes calls of the IPC client of them. What the
-- JSON library makes of a line is a parameter. Numbers of int and int64 are integers.
use clai.Common.{
  if◌then◌else◌, ◌||◌, [], ◌∷◌, Text, String, str_eq, Option, none, some, ℤ, ◌≡◌, ◌≢◌, refl, arith,
  Bool, true, false, Option-cases, Bool-cases, inl, inr, str_eq_iff,
}

pub record ShimEvent : Type 0 where
  pub type : String
  pub session_id : String
  pub command_id : String
  pub cwd : String
  pub shell : String
  pub command : String
  pub git_branch : String
  pub git_repo_name : String
  pub git_repo_root : String
  pub prev_command_id : String
  pub duration_ms : ℤ
  pub exit_code : ℤ

abbrev pub event_session_start : String
event_session_start = "session_start"

abbrev pub event_session_end : String
event_session_end = "session_end"

abbrev pub event_command_start : String
event_command_start = "command_start"

abbrev pub event_command_end : String
event_command_end = "command_end"

pub data ParseError : Type 0 where
  empty_event_data invalid_json missing_type missing_session_id : ParseError
  unknown_event_type : String → ParseError

pub data Parsed : Type 0 where
  parsed : ShimEvent → Parsed
  refused : ParseError → Parsed

abbrev is_known : ShimEvent → Bool
is_known ev =
    str_eq ev.type event_session_start
    || str_eq ev.type event_session_end
    || str_eq ev.type event_command_start
    || str_eq ev.type event_command_end

-- The tests after the line is read as JSON.
abbrev pub validated : ShimEvent → Parsed
validated ev =
    if is_known ev
    then (if str_eq ev.session_id "" then refused missing_session_id else parsed ev)
    else (if str_eq ev.type "" then refused missing_type else refused (unknown_event_type ev.type))

abbrev pub unmarshalled : Option ShimEvent → Parsed
unmarshalled none = refused invalid_json
unmarshalled (some ev) = validated ev

unfoldable pub parse_shim_event : (Text → Option ShimEvent) → Text → Parsed
parse_shim_event unmarshal [] = refused empty_event_data
parse_shim_event unmarshal (b ∷ bs) = unmarshalled (unmarshal (b ∷ bs))

-- internal/ipc/client.go: what the client says of its environment, and of a command.
pub record ClientInfo : Type 0 where
  pub version : String
  pub os : String
  pub shell : String
  pub hostname : String
  pub username : String

pub record CommandContext : Type 0 where
  pub git_branch : String
  pub git_repo_name : String
  pub git_repo_root : String
  pub prev_command_id : String

-- The calls of the client. They return nothing: what becomes of them is not seen by the caller.
pub data ClientCall : Type 0 where
  session_start : String → String → ClientInfo → ClientCall
  session_end : String → ClientCall
  log_start_with_context : String → String → String → String → CommandContext → ClientCall
  log_end : String → String → ℤ → ℤ → ClientCall

-- The call that `ClientDispatcher.Dispatch` makes, or its error; `info` is `DefaultClientInfo`.
pub data Dispatched : Type 0 where
  called : ClientCall → Dispatched
  unknown_type : String → Dispatched

abbrev pub info_for : ClientInfo → ShimEvent → ClientInfo
info_for info ev = if str_eq ev.shell "" then info else record info { shell = ev.shell }

abbrev pub context_of : ShimEvent → CommandContext
context_of ev = record {
  git_branch = ev.git_branch;
  git_repo_name = ev.git_repo_name;
  git_repo_root = ev.git_repo_root;
  prev_command_id = ev.prev_command_id;
}

unfoldable pub client_dispatch : ClientInfo → ShimEvent → Dispatched
client_dispatch info ev =
    if str_eq ev.type event_session_start
    then called (session_start ev.session_id ev.cwd (info_for info ev))
    else (if str_eq ev.type event_session_end
        then called (session_end ev.session_id)
        else (if str_eq ev.type event_command_start
            then called (
                log_start_with_context ev.session_id ev.command_id ev.cwd ev.command
                  (context_of ev))
            else (if str_eq ev.type event_command_end
                then called (log_end ev.session_id ev.command_id ev.exit_code ev.duration_ms)
                else unknown_type ev.type)))

-- The session that a call is about.
abbrev pub session_of : ClientCall → String
session_of (session_start id cwd info) = id
session_of (session_end id) = id
session_of (log_start_with_context id command_id cwd command context) = id
session_of (log_end id command_id exit_code duration_ms) = id

validated_lem :
    (ev' ev : ShimEvent)
    → validated ev' ≡ parsed ev
    → (is_known ev' ≡ true) × (str_eq ev'.session_id "" ≡ false) × (ev' ≡ ev)
validated_lem ev' ev h = ground arith

dispatch_known :
    (info : ClientInfo) (ev : ShimEvent)
    → is_known ev ≡ true
    → (c : ClientCall) × (client_dispatch info ev ≡ called c) × (session_of c ≡ ev.session_id)
unfolding client_dispatch
dispatch_known info ev h = elim (Bool-cases (str_eq ev.type event_session_start)) [
  | inl e ↦ rw e (_, refl, refl)
  | inr n₁ ↦ rw n₁ (elim (Bool-cases (str_eq ev.type event_session_end)) [
    | inl e ↦ rw e (_, refl, refl)
    | inr n₂ ↦ rw n₂ (elim (Bool-cases (str_eq ev.type event_command_start)) [
      | inl e ↦ rw e (_, refl, refl)
      | inr n₃ ↦
          let e : str_eq ev.type event_command_end ≡ true = ground arith in
          rw (n₃, e) (_, refl, refl)
    ])
  ])
]

-- An event that is read without an error has a type that the dispatcher knows and a session: the
-- dispatcher makes a call for that session and returns no error.
pub parse_shim_event-client_dispatch :
    (unmarshal : Text → Option ShimEvent) (line : Text) (ev : ShimEvent) (info : ClientInfo)
    → parse_shim_event unmarshal line ≡ parsed ev
    → (c : ClientCall) × (client_dispatch info ev ≡ called c)
      × (session_of c ≡ ev.session_id)
      × (ev.session_id ≢ "")
unfolding parse_shim_event client_dispatch
parse_shim_event-client_dispatch unmarshal [] ev info h = absurd (ground arith)
parse_shim_event-client_dispatch unmarshal (b ∷ bs) ev info h =
    elim (Option-cases (unmarshal (b ∷ bs))) [
      | inl none_read ↦ absurd (ground arith)
      | inr (ev', read) ↦
          let (known, named, same) = validated_lem ev' ev (ground arith) in
          let (c, made, about) = dispatch_known info ev (ground arith) in
          (c, made, about, λ e. absurd (ground (arith, (str_eq_iff ev.session_id "").1 e)))
    ]
