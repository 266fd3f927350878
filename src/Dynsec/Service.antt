-- ===== src/Dynsec/Service.antt =====
-- internal/dynsec/service.go: `Read`, `Apply` and the retries. The control channel is an interface of
-- the source: `Transport` with the state of what is behind it. The texts of the errors are left out.
pub mod Answers
pub mod Apply
use mcm.Base.{
  ℕ, zero, suc, Bool, true, false, List, [], ◌∷◌, Option, none, some, if◌then◌else◌, is_empty, any,
}
use mcm.Base.Result.{Result, ok, err}
use mcm.Text.{Bytes, text_eq}
use mcm.Dynsec.Model.{Document}
use mcm.Dynsec.Command.{Command}
use mcm.Dynsec.Issue.{Issue}
use mcm.Dynsec.Updates.{Plan, commands_of}
use mcm.Dynsec.Protocol.{
  CommandResponse, Json, has_failed, parse_clients, parse_groups, parse_roles, parse_default_access,
  parse_anonymous_group, no_access, command_list_clients, command_list_groups, command_list_roles,
  command_get_default_acl_access, command_get_anonymous_group,
}
use mcm.Dynsec.Sort.{sorted}
use mcm.Dynsec.Verify.{verify}

-- What `Do` gives: the answers, or one of the two errors that are tested for, or another one.
pub data Sent : Type 0 where
  answered : List CommandResponse → Sent
  connection_lost response_mismatch : Sent
  broken : Bytes → Sent

pub record Transport (World : Type 0) : Type 0 where
  pub send : List Command → World → Sent × World
  -- Half a second goes by, or the context ends first.
  pub wait : World → Bool × World

pub data ServiceError : Type 0 where
  not_configured : ServiceError
  lost mismatch : ServiceError
  failed : Bytes → ServiceError
  refused : (command : Bytes) → ServiceError
  unanswered : (command : Bytes) → ServiceError
  undecoded : (command : Bytes) → ServiceError
  cancelled : ServiceError
  different : (actual : Document) → List Issue → ServiceError

-- The first failed answer.
unfoldable pub first_failed : List CommandResponse → Option CommandResponse
unfolding has_failed
first_failed [] = none
first_failed (r ∷ rs) = if has_failed r then some r else first_failed rs

unfoldable pub first_unanswered : List CommandResponse → List Bytes → Option Bytes
first_unanswered rs [] = none
first_unanswered rs (n ∷ ns) =
    if any (λ (r : CommandResponse). text_eq r.command n) rs then first_unanswered rs ns else some n

abbrev pub check_expected : Option Bytes → Option ServiceError
check_expected none = none
check_expected (some n) = some (ServiceError.unanswered n)

-- `CheckResponses`; `none` is no error.
unfoldable pub check_responses : List CommandResponse → List Bytes → Option ServiceError
unfolding first_failed first_unanswered
check_responses rs expected = elim (first_failed rs) [
  | some r ↦ some (ServiceError.refused r.command)
  | none ↦ check_expected (first_unanswered rs expected)
]

abbrev pub read_names : List Bytes
read_names =
    command_list_clients ∷ command_list_groups ∷ command_list_roles ∷ command_get_default_acl_access
    ∷ command_get_anonymous_group ∷ []

abbrev pub read_commands : List Command
read_commands =
    Command.list_clients ∷ Command.list_groups ∷ Command.list_roles ∷ Command.get_default_acl_access
    ∷ Command.get_anonymous_group ∷ []

abbrev pub empty_document : Document
empty_document = record {
  clients = [];
  groups = [];
  roles = [];
  default_access = no_access;
  anonymous_group = [];
}

-- A decoded part goes into the document.
abbrev pub decoded {ℓ} :
    {A : Type ℓ} → Option A → Bytes → (A → Document) → Result ServiceError Document
decoded none n f = err (ServiceError.undecoded n)
decoded (some a) n f = ok (f a)

-- One round of the loop of `Read`.
unfoldable pub read_response : Json → CommandResponse → Document → Result ServiceError Document
unfolding parse_clients parse_groups parse_roles parse_default_access parse_anonymous_group
read_response j r d =
    if text_eq r.command command_list_clients
    then decoded (parse_clients j r.payload) r.command (λ p. record d { clients = p.0 })
    else if text_eq r.command command_list_groups
    then decoded (parse_groups j r.payload) r.command (λ p. record d { groups = p.0 })
    else if text_eq r.command command_list_roles
    then decoded (parse_roles j r.payload) r.command (λ p. record d { roles = p.0 })
    else if text_eq r.command command_get_default_acl_access
    then decoded (parse_default_access j r.payload) r.command (λ a. record d { default_access = a })
    else if text_eq r.command command_get_anonymous_group
    then decoded (parse_anonymous_group j r.payload) r.command
        (λ n. record d { anonymous_group = n })
    else ok d

unfoldable pub read_responses :
    Json → List CommandResponse → Document → Result ServiceError Document
unfolding read_response
read_responses j [] d = ok d
read_responses j (r ∷ rs) d = elim (read_response j r d) [
  | err e ↦ err e
  | ok d' ↦ read_responses j rs d'
]

abbrev pub sort_result : Result ServiceError Document → Result ServiceError Document
sort_result (err e) = err e
sort_result (ok d) = ok (sorted d)

-- What `Read` makes of the answer.
unfoldable pub document_of : Json → Sent → Result ServiceError Document
unfolding check_responses read_responses sorted
document_of j Sent.connection_lost = err ServiceError.lost
document_of j Sent.response_mismatch = err ServiceError.mismatch
document_of j (Sent.broken e) = err (ServiceError.failed e)
document_of j (Sent.answered rs) = elim (check_responses rs read_names) [
  | some e ↦ err e
  | none ↦ sort_result (read_responses j rs empty_document)
]

abbrev pub is_lost : ServiceError → Bool
is_lost ServiceError.lost = true
is_lost _ = false

-- What `Apply` makes of the answer to the commands: an error, or nothing.
unfoldable pub refusal : Sent → Option ServiceError
unfolding first_failed
refusal (Sent.answered rs) = elim (first_failed rs) [
  | none ↦ none
  | some r ↦ some (ServiceError.refused r.command)
]
refusal Sent.connection_lost = none
refusal Sent.response_mismatch = none
refusal (Sent.broken e) = some (ServiceError.failed e)

abbrev pub compared : Document → Document → List Issue → Result ServiceError Document
compared desired actual [] = ok actual
compared desired actual (i ∷ is) = err (ServiceError.different actual (i ∷ is))

module _ {World : Type 0} (j : Json) (t : Transport World) where
  unfoldable pub read : World → Result ServiceError Document × World
  unfolding document_of
  read w = let (sent, w') = t.send read_commands w in (document_of j sent, w')

  -- The end of a round: the timer fires, or the context is done.
  abbrev pub after_wait :
      (World → Result ServiceError Document × World)
      → Bool × World
      → Result ServiceError Document × World
  after_wait again (true, w) = again w
  after_wait again (false, w) = (err ServiceError.cancelled, w)

  abbrev pub after_read :
      (World → Result ServiceError Document × World)
      → Result ServiceError Document × World
      → Result ServiceError Document × World
  after_read again (ok d, w) = (ok d, w)
  after_read again (err e, w) = if is_lost e then after_wait again (t.wait w) else (err e, w)

  -- The rounds of `readWithRetry` that are left.
  unfoldable pub retry : ℕ → World → Result ServiceError Document × World
  unfolding read
  retry zero w = (err ServiceError.lost, w)
  retry (suc n) w = after_read (retry n) (read w)

  unfoldable pub read_with_retry : World → Result ServiceError Document × World
  unfolding retry
  read_with_retry w = retry 4 w

  -- The commands are sent in one request, if there are any.
  unfoldable pub dispatch : List Command → World → Option ServiceError × World
  unfolding refusal
  dispatch [] w = (none, w)
  dispatch (c ∷ cs) w = let (sent, w') = t.send (c ∷ cs) w in (refusal sent, w')

  abbrev pub judged :
      Document → Result ServiceError Document × World → Result ServiceError Document × World
  judged desired (err e, w) = (err e, w)
  judged desired (ok actual, w) = (compared desired actual (verify desired actual), w)

  unfoldable pub settle :
      Document → Option ServiceError × World → Result ServiceError Document × World
  unfolding read_with_retry verify
  settle desired (some e, w) = (err e, w)
  settle desired (none, w) = judged desired (read_with_retry w)

  unfoldable pub apply : Plan → Document → World → Result ServiceError Document × World
  unfolding dispatch settle
  apply plan desired w = settle desired (dispatch (commands_of plan) w)

-- A service without a control channel.
unfoldable pub read_service :
    {World : Type 0}
    → Json
    → Option (Transport World)
    → World
    → Result ServiceError Document × World
unfolding read
read_service j none w = (err ServiceError.not_configured, w)
read_service j (some t) w = read j t w

unfoldable pub apply_service :
    {World : Type 0}
    → Json
    → Option (Transport World)
    → Plan
    → Document
    → World
    → Result ServiceError Document × World
unfolding apply
apply_service j none plan desired w = (err ServiceError.not_configured, w)
apply_service j (some t) plan desired w = apply j t plan desired w
