-- ===== src/Dynsec/Adapter.antt =====
-- internal/dynsec/adapter.go: `Adapter.Do`. What the MQTT library and the broker do in a call is its
-- environment: whether a connection opens, what becomes of the publication, and what happens while the
-- loop over the answers waits. The texts of the errors are left out but for those of the environment.
pub mod Collect
pub mod Exchange
use mcm.Base.{
  ℕ, zero, suc, ◌+◌, ◌%◌, ◌^◌, Bool, true, false, not, ◌||◌, List, [], ◌∷◌, ◌++◌, Option, none,
  some, if◌then◌else◌, any, length, ltb,
}
use mcm.Text.{Bytes, codes, text_eq}
use mcm.Text.Decimal.{format_uint}
use mcm.Dynsec.Command.{Command}
use mcm.Dynsec.Protocol.{CommandResponse}
use mcm.Dynsec.Service.{Sent}

-- What happens while the loop over the answers waits, in the order of time. The handler of a lost
-- connection sets a mark and wakes nobody; the other three are the cases of the `select`.
pub data Event : Type 0 where
  dropped : Event
  done : Bytes → Event
  deadline : Event
  message : List CommandResponse → Event

-- `seen` and `collected`.
pub record Collected : Type 0 where
  pub seen : List Bytes
  pub answers : List CommandResponse

abbrev pub contains : List Bytes → Bytes → Bool
contains names k = any (λ s. text_eq s k) names

-- One round over the entries of a message; `none` is an entry that was answered twice.
unfoldable pub take_entry : List Bytes → CommandResponse → Collected → Option Collected
take_entry expected r c =
    if not (contains expected r.correlation)
    then some c
    else if contains c.seen r.correlation
    then none
    else some (record { seen = r.correlation ∷ c.seen; answers = c.answers ++ (r ∷ []) })

unfoldable pub take_entries : List Bytes → List CommandResponse → Collected → Option Collected
unfolding take_entry
take_entries expected [] c = some c
take_entries expected (r ∷ rs) c = elim (take_entry expected r c) [
  | none ↦ none
  | some c' ↦ take_entries expected rs c'
]

abbrev pub is_waiting : List Bytes → Collected → Bool
is_waiting expected c = ltb (length c.answers) (length expected)

-- What the loop ends with, `none` where it still waits, and the mark of a lost connection by then.
abbrev pub Wait : Type 0
Wait = Option Sent × Bool

-- The head of a round: the mark is read here only.
abbrev pub at_head : List Bytes → Bool → (Collected → Wait) → Collected → Wait
at_head expected mark blocked c =
    if not (is_waiting expected c)
    then (some (Sent.answered c.answers), mark)
    else if mark
    then (some Sent.connection_lost, mark)
    else blocked c

abbrev pub after_message : Bool → (Collected → Wait) → Option Collected → Wait
after_message mark onward none = (some Sent.response_mismatch, mark)
after_message mark onward (some c) = onward c

-- The `select`, which blocks until one of its cases comes; a connection that is lost meanwhile is not
-- one of them.
unfoldable pub await : List Bytes → Bool → List Event → Collected → Wait
unfolding take_entries
await expected mark [] c = (none, mark)
await expected mark (dropped ∷ events) c = await expected true events c
await expected mark (done text ∷ events) c = (some (Sent.broken text), mark)
await expected mark (deadline ∷ events) c = (some Sent.response_mismatch, mark)
await expected mark (message rs ∷ events) c =
    after_message mark (at_head expected mark (await expected mark events))
      (take_entries expected rs c)

-- The loop over the answers, by the mark at its beginning.
unfoldable pub collect : List Bytes → Bool → List Event → Collected → Wait
unfolding await
collect expected mark events c = at_head expected mark (await expected mark events) c

abbrev pub nothing : Collected
nothing = record { seen = []; answers = [] }

-- The correlation values of n commands from number i on, for a request of that number.
abbrev pub correlation_value : ℕ → ℕ → Bytes
correlation_value request i = codes "mcm-" ++ (format_uint request ++ (b'-' ∷ format_uint i))

unfoldable pub correlations : ℕ → ℕ → List Command → List Bytes
correlations request i [] = []
correlations request i (c ∷ cs) = correlation_value request i ∷ correlations request (suc i) cs

-- `is_open` says that there is a client and that its connection is open.
pub record Adapter : Type 0 where
  pub is_open : Bool
  pub lost : Bool
  pub sequence : ℕ

pub data Published : Type 0 where
  sent : Published
  slow : Bytes → Published
  -- With the mark of a lost connection, and whether the connection is closed.
  failing : (lost closed : Bool) → Bytes → Published

pub record Environment : Type 0 where
  -- The error of a new connection.
  pub refusal : Option Bytes
  pub published : Published
  -- The mark of a lost connection when the loop begins.
  pub marked : Bool
  pub events : List Event

-- `connectLocked`, behind the reset of a lost connection.
unfoldable pub connect : Option Bytes → Adapter → Option Bytes × Adapter
connect failure a =
    let a' = if a.lost then record a { is_open = false; lost = false } else a in
    if a'.is_open then (none, a') else elim failure [
      | none ↦ (none, record a' { is_open = true; lost = false })
      | some text ↦ (some text, record a' { is_open = false })
    ]

-- The handler of a lost connection, which the MQTT library calls at any time.
unfoldable pub on_connection_lost : Adapter → Adapter
on_connection_lost a = record a { is_open = false; lost = true }

abbrev pub after_collect : Wait → Adapter → Option Sent × Adapter
after_collect (o, mark) a = (o, if mark then on_connection_lost a else a)

abbrev pub after_publish :
    List Bytes → Bool → List Event → Published → Adapter → Option Sent × Adapter
after_publish expected mark events sent a = after_collect (collect expected mark events nothing) a
after_publish expected mark events (slow text) a = (some (Sent.broken text), a)
after_publish expected mark events (failing lost closed text) a = (
  some (if lost || closed then Sent.connection_lost else Sent.broken text),
  record a { is_open = not closed; lost = lost },
)

abbrev pub next_request : Adapter → Adapter
next_request a = record a { sequence = (a.sequence + 1) % 2 ^ 64 }

abbrev pub request_on : Environment → List Command → Option Bytes × Adapter → Option Sent × Adapter
request_on env cs (some text, a) = (some (Sent.broken text), a)
request_on env cs (none, a) =
    let b = next_request a in
    after_publish (correlations b.sequence 0 cs) env.marked env.events env.published b

-- `Do`.
unfoldable pub exchange : Environment → List Command → Adapter → Option Sent × Adapter
unfolding connect collect correlations on_connection_lost
exchange env [] a = (some (Sent.answered []), a)
exchange env (c ∷ cs) a = request_on env (c ∷ cs) (connect env.refusal a)
