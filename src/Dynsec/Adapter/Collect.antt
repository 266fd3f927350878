-- ===== src/Dynsec/Adapter/Collect.antt =====
-- internal/dynsec/adapter.go: what the loop over the answers keeps.
use mcm.Base.{
  ℕ, ◌+◌, ◌≡◌, ◌≢◌, refl, ◌∙◌, Bool, true, false, List, [], ◌∷◌, ◌++◌, none, some, if◌then◌else◌,
  length, Bool-cases, inl, inr, arith, length-append, Option-cases,
}
use mcm.Base.Members.{Memᴰ}
use mcm.Text.{Bytes, text_eq, text_eq_iff, text_eq_refl, text_eq-false}
use mcm.Dynsec.Protocol.{CommandResponse}
use mcm.Dynsec.Service.{Sent}
use mcm.Dynsec.Adapter.{
  Event, Collected, contains, take_entry, take_entries, is_waiting, Wait, at_head, await, collect,
  nothing,
}

-- How many answers carry a correlation value.
abbrev pub count : Bytes → List CommandResponse → ℕ
count k [] = 0
count k (r ∷ rs) = (if text_eq r.correlation k then 1 else 0) + count k rs

-- No value twice.
abbrev pub IsUnique : List Bytes → Type 0
IsUnique [] = Unit
IsUnique (k ∷ ks) = (contains ks k ≡ false) × IsUnique ks

-- How many values are not seen.
abbrev pub missing : List Bytes → List Bytes → ℕ
missing [] seen = 0
missing (k ∷ ks) seen = (if contains seen k then 0 else 1) + missing ks seen

-- Each answer was expected, and none came twice.
pub record IsPartial (expected : List Bytes) (c : Collected) : Type 0 where
  pub once : (k : Bytes) → count k c.answers ≡ (if contains c.seen k then 1 else 0)
  pub balance : missing expected c.seen + length c.answers ≡ length expected

count-append :
    (k : Bytes) (xs ys : List CommandResponse) → count k (xs ++ ys) ≡ count k xs + count k ys
count-append k [] ys = omega arith
count-append k (x ∷ xs) ys = omega (arith, count-append k xs ys)

missing-absent :
    (ks seen : List Bytes) (k : Bytes)
    → contains ks k ≡ false
    → missing ks (k ∷ seen) ≡ missing ks seen
missing-absent [] seen k h = refl
missing-absent (x ∷ xs) seen k h = elim (Bool-cases (text_eq x k)) [
  | inl e ↦ let g = rw e at h in cc
  | inr e ↦
      let other : text_eq k x ≡ false = text_eq-false x k e in
      let ih = missing-absent xs seen k (rw e at h) in rw (other, ih) refl
]

missing-present :
    (ks seen : List Bytes) (k : Bytes)
    → IsUnique ks
    → contains ks k ≡ true
    → contains seen k ≡ false
    → missing ks (k ∷ seen) + 1 ≡ missing ks seen
missing-present [] seen k d h n = cc
missing-present (x ∷ xs) seen k d h n = elim (Bool-cases (text_eq x k)) [
  | inl e ↦
      let same : x ≡ k = (text_eq_iff x k).0 e in
      let rest = missing-absent xs seen k (rw same at d.0) in
      rw (same, text_eq_refl k, n, rest) (omega arith)
  | inr e ↦
      let other : text_eq k x ≡ false = text_eq-false x k e in
      let ih = missing-present xs seen k d.1 (rw e at h) n in rw other (omega (arith, ih))
]

module _ (expected : List Bytes) (distinct : IsUnique expected) where
  take_entry-IsPartial :
      (r : CommandResponse) (c c' : Collected)
      → IsPartial expected c
      → take_entry expected r c ≡ some c'
      → IsPartial expected c'
  unfolding take_entry
  take_entry-IsPartial r c c' v h = elim (Bool-cases (contains expected r.correlation)) [
    | inr e ↦ let g : some c ≡ some c' = rw e at h in let same : c ≡ c' = (cc) in rw (← same) v
    | inl e ↦ elim (Bool-cases (contains c.seen r.correlation)) [
      | inl f ↦ let g = rw (e, f) at h in cc
      | inr f ↦
          let next : Collected = record {
            seen = r.correlation ∷ c.seen;
            answers = c.answers ++ (r ∷ []);
          } in
          let g : some next ≡ some c' = rw (e, f) at h in
          let same : next ≡ c' = (cc) in
          let balance = missing-present expected c.seen r.correlation distinct e f in
          let sum = length-append c.answers (r ∷ []) in
          rw (← same) (record {
            once = λ k. counted k (v.once k) f;
            balance = omega (arith, balance, sum, v.balance);
          })
    ]
  ]
    where
      counted :
          (k : Bytes)
          → count k c.answers ≡ (if contains c.seen k then 1 else 0)
          → contains c.seen r.correlation ≡ false
          → count k (c.answers ++ (r ∷ [])) ≡ (if contains (r.correlation ∷ c.seen) k then 1 else 0)
      counted k h f = elim (Bool-cases (text_eq r.correlation k)) [
        | inl e ↦
            let fresh : contains c.seen k ≡ false = rw ((text_eq_iff r.correlation k).0 e) at f in
            rw (count-append k c.answers (r ∷ []), h, fresh, e) (omega arith)
        | inr e ↦ rw (count-append k c.answers (r ∷ []), h, e) (omega arith)
      ]

  take_entries-IsPartial :
      (rs : List CommandResponse) (c c' : Collected)
      → IsPartial expected c
      → take_entries expected rs c ≡ some c'
      → IsPartial expected c'
  unfolding take_entries
  take_entries-IsPartial [] c c' v h = let same : c ≡ c' = (cc) in rw (← same) v
  take_entries-IsPartial (r ∷ rs) c c' v h = elim (Option-cases (take_entry expected r c)) [
    | inl e ↦ let g = rw (e, take_entries) at h in cc
    | inr (d, e) ↦
        take_entries-IsPartial rs d c' (take_entry-IsPartial r c d v e) (rw (e, take_entries) at h)
  ]

  -- Every value was answered once, and there is nothing else.
  abbrev pub IsAnswer : List CommandResponse → Type 0
  IsAnswer rs =
      ((k : Bytes) → contains expected k ≡ true → count k rs ≡ 1) × (length rs ≡ length expected)

  enough :
      (c : Collected) → IsPartial expected c → is_waiting expected c ≡ false → IsAnswer c.answers
  enough c v h =
      let full : missing expected c.seen ≡ 0 = ground (arith, v.balance) in
      (λ k m. v.once k ∙ rw (seen_all expected k full m) refl, omega (arith, v.balance, full))
    where
      seen_all :
          (ks : List Bytes) (k : Bytes)
          → missing ks c.seen ≡ 0
          → contains ks k ≡ true
          → contains c.seen k ≡ true
      seen_all [] k z m = cc
      seen_all (x ∷ xs) k z m = elim (Bool-cases (text_eq x k)) [
        | inl e ↦ elim (Bool-cases (contains c.seen x)) [
          | inl f ↦ rw ((text_eq_iff x k).0 e) at f
          | inr f ↦ let g = rw f at z in absurd (omega (arith, g))
        ]
        | inr e ↦ seen_all xs k (omega (arith, z)) (rw e at m)
      ]

  -- What the head of a round gives is an answer, if what the rest of it gives is one.
  at_head-IsAnswer :
      (mark : Bool) (blocked : Collected → Wait) (c : Collected) (rs : List CommandResponse)
      → IsPartial expected c
      → ((blocked c).0 ≡ some (Sent.answered rs) → IsAnswer rs)
      → (at_head expected mark blocked c).0 ≡ some (Sent.answered rs)
      → IsAnswer rs
  at_head-IsAnswer mark blocked c rs v onward h = elim (Bool-cases (is_waiting expected c)) [
    | inr w ↦
        let g : some (Sent.answered c.answers) ≡ some (Sent.answered rs) = rw w at h in
        let same : c.answers ≡ rs = (cc) in rw (← same) (enough c v w)
    | inl w ↦ elim (Bool-cases mark) [
      | inl m ↦ let g = rw (w, m) at h in cc
      | inr m ↦ onward (rw (w, m) at h)
    ]
  ]

  await-IsAnswer :
      (mark : Bool) (events : List Event) (c : Collected) (rs : List CommandResponse)
      → IsPartial expected c
      → (await expected mark events c).0 ≡ some (Sent.answered rs)
      → IsAnswer rs
  unfolding await
  await-IsAnswer mark [] c rs v h = cc
  await-IsAnswer mark (Event.dropped ∷ es) c rs v h = await-IsAnswer true es c rs v h
  await-IsAnswer mark (Event.done text ∷ es) c rs v h = cc
  await-IsAnswer mark (Event.deadline ∷ es) c rs v h = cc
  await-IsAnswer mark (Event.message ms ∷ es) c rs v h =
      elim (Option-cases (take_entries expected ms c)) [
        | inl t ↦ let g = rw t at h in cc
        | inr (d, t) ↦
            let v' = take_entries-IsPartial ms c d v t in
            at_head-IsAnswer mark (await expected mark es) d rs v' (await-IsAnswer mark es d rs v')
              (rw t at h)
      ]

  nothing-IsPartial : IsPartial expected nothing
  nothing-IsPartial = record { once = λ k. refl; balance = none_seen expected }
    where
      none_seen : (ks : List Bytes) → missing ks [] + 0 ≡ length ks
      none_seen [] = omega arith
      none_seen (x ∷ xs) = omega (arith, none_seen xs)

  -- Answers that the loop gives are complete.
  pub collect-IsAnswer :
      (mark : Bool) (events : List Event) (rs : List CommandResponse)
      → (collect expected mark events nothing).0 ≡ some (Sent.answered rs)
      → IsAnswer rs
  unfolding collect
  collect-IsAnswer mark events rs h =
      at_head-IsAnswer mark (await expected mark events) nothing rs nothing-IsPartial
        (await-IsAnswer mark events nothing rs nothing-IsPartial) h

-- An event that ends the wait: the timer fires or the context is done.
abbrev pub EndsWait : Event → Type 0
EndsWait (Event.done text) = Unit
EndsWait Event.deadline = Unit
EndsWait _ = ⊥

at_head-ends :
    (expected : List Bytes) (mark : Bool) (blocked : Collected → Wait) (c : Collected)
    → (blocked c).0 ≢ none
    → (at_head expected mark blocked c).0 ≢ none
at_head-ends expected mark blocked c h = elim (Bool-cases (is_waiting expected c)) [
  | inr w ↦ rw w (λ k. cc)
  | inl w ↦ elim (Bool-cases mark) [ inl m ↦ rw (w, m) (λ k. cc) | inr m ↦ rw (w, m) h ]
]

-- The wait ends by then, whatever else happens.
await-ends :
    (expected : List Bytes) (mark : Bool) (events : List Event) (e : Event) (c : Collected)
    → Memᴰ e events
    → EndsWait e
    → (await expected mark events c).0 ≢ none
unfolding await
await-ends expected mark [] e c m w = elim m [ ]
await-ends expected mark (Event.done text ∷ es) e c m w = λ h. cc
await-ends expected mark (Event.deadline ∷ es) e c m w = λ h. cc
await-ends expected mark (Event.dropped ∷ es) e c (Memᴰ.head h) w = let g = rw h at w in absurd g
await-ends expected mark (Event.dropped ∷ es) e c (Memᴰ.tail m) w =
    await-ends expected true es e c m w
await-ends expected mark (Event.message rs ∷ es) e c (Memᴰ.head h) w = let g = rw h at w in absurd g
await-ends expected mark (Event.message rs ∷ es) e c (Memᴰ.tail m) w =
    elim (Option-cases (take_entries expected rs c)) [
      | inl t ↦ rw t (λ h. cc)
      | inr (d, t) ↦ rw t (
          at_head-ends expected mark (await expected mark es) d
            (await-ends expected mark es e d m w))
    ]

pub collect-ends :
    (expected : List Bytes) (mark : Bool) (events : List Event) (e : Event) (c : Collected)
    → Memᴰ e events
    → EndsWait e
    → (collect expected mark events c).0 ≢ none
unfolding collect
collect-ends expected mark events e c m w =
    at_head-ends expected mark (await expected mark events) c
      (await-ends expected mark events e c m w)
