-- ===== src/Passwd/Sorting.antt =====
-- internal/mosquitto/passwd.go: the order in which entries are rendered.
use mathlib.Core.List.{Perm}
use mathlib.Core.List.Perm
use mcm.Base.{true, false, List, [], ◌∷◌, ◌≡◌, Bool-cases, inl, inr}
use mcm.Base.Members.{All}
use mcm.Text.{text_eq, text_lt, text_lt_trans, text_lt_total}
use mcm.Passwd.{PasswdEntry, insert_entry, sort_entries}

insert_entry-All :
    (P : PasswdEntry → Type 0) (e : PasswdEntry) (es : List PasswdEntry)
    → P e
    → All P es
    → All P (insert_entry e es)
unfolding insert_entry
insert_entry-All P e [] p h = (p, tt)
insert_entry-All P e (f ∷ fs) p h = elim (Bool-cases (text_lt f.username e.username)) [
  | inl c ↦ rw c (h.0, insert_entry-All P e fs p h.1)
  | inr c ↦ rw c (p, h)
]

pub sort_entries-All :
    (P : PasswdEntry → Type 0) (es : List PasswdEntry) → All P es → All P (sort_entries es)
unfolding sort_entries
sort_entries-All P [] h = tt
sort_entries-All P (e ∷ es) h =
    insert_entry-All P e (sort_entries es) h.0 (sort_entries-All P es h.1)

-- No name twice.
abbrev pub IsNamedOnce : List PasswdEntry → Type 0
IsNamedOnce [] = Unit
IsNamedOnce (e ∷ es) =
    All (λ (f : PasswdEntry). text_eq e.username f.username ≡ false) es × IsNamedOnce es

-- Every name is less than all behind it.
abbrev pub IsRising : List PasswdEntry → Type 0
IsRising [] = Unit
IsRising (e ∷ es) = All (λ (f : PasswdEntry). text_lt e.username f.username ≡ true) es × IsRising es

rising_from :
    (e f : PasswdEntry) (fs : List PasswdEntry)
    → text_lt e.username f.username ≡ true
    → All (λ (g : PasswdEntry). text_lt f.username g.username ≡ true) fs
    → All (λ (g : PasswdEntry). text_lt e.username g.username ≡ true) fs
rising_from e f [] h a = tt
rising_from e f (g ∷ gs) h a =
    (text_lt_trans e.username f.username g.username h a.0, rising_from e f gs h a.1)

insert_entry-IsRising :
    (e : PasswdEntry) (es : List PasswdEntry)
    → All (λ (f : PasswdEntry). text_eq e.username f.username ≡ false) es
    → IsRising es
    → IsRising (insert_entry e es)
unfolding insert_entry
insert_entry-IsRising e [] other h = (tt, tt)
insert_entry-IsRising e (f ∷ fs) other h =
    let ih = insert_entry-IsRising e fs other.1 h.1 in
    elim (Bool-cases (text_lt f.username e.username)) [
      | inl c ↦ rw c (insert_entry-All (λ g. text_lt f.username g.username ≡ true) e fs c h.0, ih)
      | inr c ↦
          let less = text_lt_total e.username f.username other.0 c in
          rw c ((less, rising_from e f fs less h.0), h)
    ]

-- Entries with names of their own are sorted by rising name.
pub sort_entries-IsRising : (es : List PasswdEntry) → IsNamedOnce es → IsRising (sort_entries es)
unfolding sort_entries
sort_entries-IsRising [] h = tt
sort_entries-IsRising (e ∷ es) h =
    insert_entry-IsRising e (sort_entries es)
      (sort_entries-All (λ f. text_eq e.username f.username ≡ false) es h.0)
      (sort_entries-IsRising es h.1)

insert_entry-perm : (e : PasswdEntry) (es : List PasswdEntry) → Perm (insert_entry e es) (e ∷ es)
unfolding insert_entry
insert_entry-perm e [] = Perm.refl (e ∷ [])
insert_entry-perm e (f ∷ fs) =
    let ih = insert_entry-perm e fs in
    elim (Bool-cases (text_lt f.username e.username)) [
      | inl c ↦ rw c (Perm.trans (Perm.cons f ih) (Perm.swap e f fs))
      | inr c ↦ rw c (Perm.refl (e ∷ f ∷ fs))
    ]

pub sort_entries-perm : (es : List PasswdEntry) → Perm (sort_entries es) es
unfolding sort_entries
sort_entries-perm [] = Perm.refl []
sort_entries-perm (e ∷ es) =
    Perm.trans (insert_entry-perm e (sort_entries es)) (Perm.cons e (sort_entries-perm es))
