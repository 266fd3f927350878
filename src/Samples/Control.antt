-- ===== src/Samples/Control.antt =====
-- internal/dynsec: a control channel whose plugin answers, and one that refuses a command.
use mcm.Base.{ℕ, suc, ◌≡◌, ◌≢◌, ◌↔◌, refl, true, false, List, [], ◌∷◌, none, some, arith}
use mcm.Base.Int.{ℤ}
use mcm.Base.Members.{Memᴰ}
use mcm.Base.Result.{ok}
use mcm.Text.{Bytes, codes, text_eq}
use mcm.Text.Decimal.{format_uint, digits}
use mcm.Dynsec.Command.{Command}
use mcm.Dynsec.Updates.{Plan, change, ObjectKind, Action}
use mcm.Dynsec.Plan.{build_plan}
use mcm.Dynsec.Protocol.{
  CommandResponse, Json, command_list_clients, command_list_groups, command_list_roles,
  command_get_default_acl_access, command_get_anonymous_group,
}
use mcm.Dynsec.Service.{Sent, Transport, apply}
use mcm.Dynsec.Service.Apply.{Applied, apply_iff}
use mcm.Dynsec.Adapter.{Event, Adapter, Published, Environment, correlation_value, exchange}
use mcm.Dynsec.Adapter.Exchange.{Complete, exchange-Complete, exchange-ends}
use mcm.Samples.Databases.{before, after}

abbrev fine : Bytes → Bytes → CommandResponse
fine name correlation = record {
  command = name;
  payload = codes "{}";
  error = [];
  correlation = correlation;
}

-- Every text decodes to a database without objects.
abbrev json : Json
json = record {
  client_list = λ text. some (ℤ.pos 0, []);
  client_payloads = λ text. some [];
  names = λ text. some [];
  group_list = λ text. some (ℤ.pos 0, []);
  role_list = λ text. some (ℤ.pos 0, []);
  default_acls = λ text. some [];
  anonymous_group = λ text. none;
}

-- A channel that counts its requests and answers each with the same responses.
abbrev channel : List CommandResponse → Transport ℕ
channel rs = record { send = λ cs n. (Sent.answered rs, suc n); wait = λ n. (true, n) }

abbrev listing : List CommandResponse
listing =
    fine command_list_clients []
    ∷ fine command_list_groups []
    ∷ fine command_list_roles []
    ∷ fine command_get_default_acl_access []
    ∷ fine command_get_anonymous_group []
    ∷ []

apply_iff_example :
    (apply json (channel listing) (build_plan before after) after 0 ≡ (ok after, 2))
    ↔ Applied json (channel listing) (build_plan before after) after 0 after 2
apply_iff_example = apply_iff json (channel listing) (build_plan before after) after after 0 2

abbrev refusing : CommandResponse
refusing = record {
  command = codes "addGroupClient";
  payload = [];
  error = codes "Client not found";
  correlation = [];
}

abbrev joining : Plan
joining =
    change ObjectKind.group (codes "team") Action.update
      (Command.add_group_client (codes "team") (codes "ada") none)
    ∷ change ObjectKind.client (codes "ada") Action.update (Command.enable_client (codes "ada"))
    ∷ []

abbrev idle : Adapter
idle = record { is_open = false; lost = false; sequence = 6 }

abbrev two_commands : List Command
two_commands = Command.list_clients ∷ Command.list_roles ∷ []

abbrev second : CommandResponse
second = fine command_list_roles (correlation_value 7 1)

abbrev first : CommandResponse
first = fine command_list_clients (correlation_value 7 0)

-- The answers come in two messages, with one of an earlier request between them.
abbrev two_messages : Environment
two_messages = record {
  refusal = none;
  published = Published.sent;
  marked = false;
  events =
      Event.message (second ∷ fine command_list_roles (correlation_value 6 0) ∷ [])
      ∷ Event.message (first ∷ [])
      ∷ Event.deadline
      ∷ [];
}

two_answers : exchange two_messages two_commands idle ≡ (
  some (Sent.answered (second ∷ first ∷ [])),
  record { is_open = true; lost = false; sequence = 7 },
)
unfolding exchange text_eq format_uint digits
two_answers = refl

exchange-Complete_example : Complete 7 two_commands (second ∷ first ∷ [])
exchange-Complete_example =
    exchange-Complete two_messages two_commands idle
      (record { is_open = true; lost = false; sequence = 7 }) (second ∷ first ∷ []) (omega arith)
      two_answers

-- The connection is lost during the wait, and the timer fires later.
abbrev lost_then_timer : Environment
lost_then_timer = record two_messages { events = Event.dropped ∷ Event.deadline ∷ [] }

exchange-ends_example : (exchange lost_then_timer two_commands idle).0 ≢ none
exchange-ends_example =
    exchange-ends lost_then_timer two_commands idle Event.deadline (Memᴰ.tail (Memᴰ.head refl)) tt

-- A connection that is lost during the wait does not end it, and the timer ends it as a mismatch.
lost_while_waiting :
    (exchange (record two_messages { events = Event.dropped ∷ [] }) two_commands idle).0 ≡ none
unfolding exchange
lost_while_waiting = refl

lost_until_the_timer : (exchange lost_then_timer two_commands idle).0 ≡ some Sent.response_mismatch
unfolding exchange
lost_until_the_timer = refl
