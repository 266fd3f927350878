-- ===== src/Dynsec/Adapter/Exchange.antt =====
-- internal/dynsec/adapter.go: the answers that `Do` returns.
use mcm.Base.{
  ◌==◌, ==_iff, ℕ, suc, ◌+◌, ◌^◌, ◌<◌, ◌≤◌, ◌≡◌, refl, sym, ap, ◌∙◌, Bool, true, false, List, [],
  ◌∷◌, ◌++◌, Option, none, some, if◌then◌else◌, length, arith, Bool-cases, inl, inr, ◌≢◌,
}
use mcm.Base.Members.{Memᴰ}
use mcm.Text.{Bytes, text_eq, text_eq_iff, text_eq_refl, codes}
use mcm.Text.Decimal.{format_uint, parse_uint, parse_uint-format_uint}
use mcm.Dynsec.Command.{Command}
use mcm.Dynsec.Protocol.{CommandResponse}
use mcm.Dynsec.Service.{Sent}
use mcm.Dynsec.Adapter.{
  Event, contains, nothing, correlation_value, correlations, Adapter, Published, Environment,
  connect, on_connection_lost, Wait, after_collect, after_publish, next_request, request_on,
  exchange,
}
use mcm.Dynsec.Adapter.Collect.{count, IsUnique, collect-IsAnswer, EndsWait, collect-ends}

format_uint_injective : (i j : ℕ) → i < 2 ^ 64 → j < 2 ^ 64 → format_uint i ≡ format_uint j → i ≡ j
format_uint_injective i j hi hj e =
    sym (parse_uint-format_uint i hi) ∙ ap parse_uint e ∙ parse_uint-format_uint j hj

append_cancel : (xs ys zs : Bytes) → xs ++ ys ≡ xs ++ zs → ys ≡ zs
append_cancel [] ys zs e = e
append_cancel (x ∷ xs) ys zs e = append_cancel xs ys zs (cc e)

correlation_injective :
    (request i j : ℕ)
    → i < 2 ^ 64
    → j < 2 ^ 64
    → correlation_value request i ≡ correlation_value request j
    → i ≡ j
correlation_injective request i j hi hj e =
    let tails =
      append_cancel (format_uint request) (b'-' ∷ format_uint i) (b'-' ∷ format_uint j)
        (append_cancel (codes "mcm-") _ _ e) in
    format_uint_injective i j hi hj (cc tails)

-- A value below the first number is not among the correlation values.
correlations-fresh :
    (request i n : ℕ) (cs : List Command)
    → i < n
    → n + length cs ≤ 2 ^ 64
    → contains (correlations request n cs) (correlation_value request i) ≡ false
unfolding correlations
correlations-fresh request i n [] h b = refl
correlations-fresh request i n (c ∷ cs) h b =
    elim (Bool-cases (text_eq (correlation_value request n) (correlation_value request i))) [
      | inl e ↦
          let same =
            correlation_injective request n i (omega (arith, b)) (omega (arith, b, h))
              ((text_eq_iff _ _).0 e) in
          absurd (omega (arith, same, h))
      | inr e ↦ rw e (correlations-fresh request i (suc n) cs (omega (arith, h)) (omega (arith, b)))
    ]

correlations-IsUnique :
    (request n : ℕ) (cs : List Command)
    → n + length cs ≤ 2 ^ 64
    → IsUnique (correlations request n cs)
unfolding correlations
correlations-IsUnique request n [] b = tt
correlations-IsUnique request n (c ∷ cs) b = (
  correlations-fresh request n (suc n) cs (omega arith) (omega (arith, b)),
  correlations-IsUnique request (suc n) cs (omega (arith, b)),
)

length-correlations :
    (request n : ℕ) (cs : List Command) → length (correlations request n cs) ≡ length cs
unfolding correlations
length-correlations request n [] = refl
length-correlations request n (c ∷ cs) = ap suc (length-correlations request (suc n) cs)

either_way : (t b : Bool) → b ≡ true → (if t then true else b) ≡ true
either_way true b h = refl
either_way false b h = h

correlations-contains :
    (request n k : ℕ) (cs : List Command)
    → n ≤ k
    → k < n + length cs
    → contains (correlations request n cs) (correlation_value request k) ≡ true
unfolding correlations
correlations-contains request n k [] h g = absurd (omega (arith, h, g))
correlations-contains request n k (c ∷ cs) h g = elim (Bool-cases (n == k)) [
  | inl e ↦
      let same : n ≡ k = (==_iff n k).0 e in
      rw same (rw (text_eq_refl (correlation_value request k)) refl)
  | inr e ↦
      either_way (text_eq (correlation_value request n) (correlation_value request k)) _
        (correlations-contains request (suc n) k cs (ground arith) (omega (arith, g)))
]

-- Answers that an exchange returns: one to each of its commands, and nothing else.
abbrev pub Complete : ℕ → List Command → List CommandResponse → Type 0
Complete request cs rs =
    ((i : ℕ) → i < length cs → count (correlation_value request i) rs ≡ 1) × (length rs ≡ length cs)

parts : {A B : Type 0} {p q : A × B} → p ≡ q → (p.0 ≡ q.0) × (p.1 ≡ q.1)
parts e = (ap (λ p. p.0) e, ap (λ p. p.1) e)

after_collect-answered :
    (o : Wait) (b a' : Adapter) (rs : List CommandResponse)
    → after_collect o b ≡ (some (Sent.answered rs), a')
    → (o.0 ≡ some (Sent.answered rs)) × (a'.sequence ≡ b.sequence)
unfolding on_connection_lost
after_collect-answered (o, true) b a' rs h =
    ((parts h).0, ap (λ (x : Adapter). x.sequence) (sym (parts h).1))
after_collect-answered (o, false) b a' rs h =
    ((parts h).0, ap (λ (x : Adapter). x.sequence) (sym (parts h).1))

module _ (env : Environment) where
  published-Complete :
      (p : Published) (b a' : Adapter) (cs : List Command) (rs : List CommandResponse)
      → length cs ≤ 2 ^ 64
      → after_publish (correlations b.sequence 0 cs) env.marked env.events p b
        ≡ (some (Sent.answered rs), a')
      → Complete a'.sequence cs rs
  published-Complete Published.sent b a' cs rs small h =
      let got = after_collect-answered _ b a' rs h in
      let whole =
        collect-IsAnswer (correlations b.sequence 0 cs)
          (correlations-IsUnique b.sequence 0 cs (omega (arith, small))) env.marked env.events rs
          got.0 in
      (
        λ i k. rw got.1 (
            whole.0 (correlation_value b.sequence i)
              (correlations-contains b.sequence 0 i cs (omega arith) (omega (arith, k)))),
        whole.1 ∙ length-correlations b.sequence 0 cs,
      )
  published-Complete (Published.slow text) b a' cs rs small h = let g = (parts h).0 in cc
  published-Complete (Published.failing true closed text) b a' cs rs small h =
      let g = (parts h).0 in cc
  published-Complete (Published.failing false true text) b a' cs rs small h =
      let g = (parts h).0 in cc
  published-Complete (Published.failing false false text) b a' cs rs small h =
      let g = (parts h).0 in cc

  -- The answers that a request on the control channel returns are complete: each of its commands,
  -- of which there are at most 2^64, has exactly one, and there is no other, whatever messages come
  -- in.
  pub exchange-Complete :
      (cs : List Command) (a a' : Adapter) (rs : List CommandResponse)
      → length cs ≤ 2 ^ 64
      → exchange env cs a ≡ (some (Sent.answered rs), a')
      → Complete a'.sequence cs rs
  unfolding exchange
  exchange-Complete [] a a' rs small h =
      let g : some (Sent.answered []) ≡ some (Sent.answered rs) = (parts h).0 in
      let same : [] ≡ rs = (cc) in (λ i k. absurd (omega (arith, k)), rw (← same) refl)
  exchange-Complete (c ∷ cs) a a' rs small h = on (connect env.refusal a) h
    where
      on :
          (p : Option Bytes × Adapter)
          → request_on env (c ∷ cs) p ≡ (some (Sent.answered rs), a')
          → Complete a'.sequence (c ∷ cs) rs
      on (some text, b) g = let f = (parts g).0 in cc
      on (none, b) g = published-Complete env.published (next_request b) a' (c ∷ cs) rs small g

  -- A request on the control channel ends, with answers or an error, if the timer fires or the
  -- context is done at some time after the loop over the answers begins, whatever else happens before
  -- it: messages of any number and content, and a lost connection.
  pub exchange-ends :
      (cs : List Command) (a : Adapter) (e : Event)
      → Memᴰ e env.events
      → EndsWait e
      → (exchange env cs a).0 ≢ none
  unfolding exchange
  exchange-ends [] a e m w = λ h. cc
  exchange-ends (c ∷ cs) a e m w = on (connect env.refusal a)
    where
      sent :
          (p : Published) (ks : List Bytes) (b : Adapter)
          → (after_publish ks env.marked env.events p b).0 ≢ none
      sent Published.sent ks b = collect-ends ks env.marked env.events e nothing m w
      sent (Published.slow text) ks b = λ h. cc
      sent (Published.failing lost closed text) ks b = λ h. cc

      on : (p : Option Bytes × Adapter) → (request_on env (c ∷ cs) p).0 ≢ none
      on (some text, b) = λ h. cc
      on (none, b) =
          sent env.published (correlations (next_request b).sequence 0 (c ∷ cs)) (next_request b)
