-- ===== src/Rocks/Table.antt =====
-- A store that meets the laws of `Rocks`: a column is the list of its values by key. It is used to
-- run the model on concrete inputs.
use native.Mathlib.Decide.{ℕ_discrete}
use mathlib.Core.Path.{subst}
use rock_node.Base.{
  ℕ, zero, suc, ◌+◌, ◌-◌, ◌≡◌, refl, ◌∙◌, ap, ◌==◌, if◌then◌else◌, List, [], ◌∷◌, Option, none,
  some, arith,
}
use rock_node.Rocks.{Rocks, Scan, Greatest}

abbrev Table : Type 0 → Type 0
Table V = List (Option V)

module _ {V : Type 0} where
  abbrev get : Table V → ℕ → Option V
  get [] j = none
  get (x ∷ xs) zero = x
  get (x ∷ xs) (suc j) = get xs j

  abbrev put : Table V → ℕ → V → Table V
  put [] zero v = some v ∷ []
  put [] (suc k) v = none ∷ put [] k v
  put (x ∷ xs) zero v = some v ∷ xs
  put (x ∷ xs) (suc k) v = x ∷ put xs k v

  abbrev delete : Table V → ℕ → Table V
  delete [] k = []
  delete (x ∷ xs) zero = none ∷ xs
  delete (x ∷ xs) (suc k) = x ∷ delete xs k

  -- The entries whose place is not among the first `lo`, counted from `base`.
  abbrev entries : ℕ → Table V → ℕ → List (ℕ × V)
  entries base [] lo = []
  entries base (x ∷ xs) (suc lo) = entries (suc base) xs lo
  entries base (none ∷ xs) zero = entries (suc base) xs zero
  entries base (some v ∷ xs) zero = (base, v) ∷ entries (suc base) xs zero

  abbrev here_or : ℕ → Option V → Option (ℕ × V) → Option (ℕ × V)
  here_or k (some v) o = some (k, v)
  here_or k none o = o

  abbrev seek : Table V → ℕ → Option (ℕ × V)
  seek c zero = here_or zero (get c zero) none
  seek c (suc k) = here_or (suc k) (get c (suc k)) (seek c k)

  pub get-put :
      (c : Table V) (k j : ℕ) (v : V) → get (put c k v) j ≡ (if k == j then some v else get c j)
  get-put [] zero zero v = refl
  get-put [] zero (suc j) v = ground arith
  get-put [] (suc k) zero v = ground arith
  get-put [] (suc k) (suc j) v = get-put [] k j v ∙ ground arith
  get-put (x ∷ xs) zero zero v = refl
  get-put (x ∷ xs) zero (suc j) v = ground arith
  get-put (x ∷ xs) (suc k) zero v = ground arith
  get-put (x ∷ xs) (suc k) (suc j) v = get-put xs k j v ∙ ground arith

  pub get-delete : (c : Table V) (k j : ℕ) → get (delete c k) j ≡ (if k == j then none else get c j)
  get-delete [] k j = ground arith
  get-delete (x ∷ xs) zero zero = refl
  get-delete (x ∷ xs) zero (suc j) = ground arith
  get-delete (x ∷ xs) (suc k) zero = ground arith
  get-delete (x ∷ xs) (suc k) (suc j) = get-delete xs k j ∙ ground arith

  Scan-skip :
      (g : ℕ → Option V) (lo : ℕ) (xs : List (ℕ × V))
      → g lo ≡ none
      → Scan g (suc lo) xs
      → Scan g lo xs
  Scan-skip g lo [] h s = λ j l. elim (ℕ_discrete lo j) [
    | yes e ↦ subst (λ i. g i ≡ none) e h
    | no ne ↦ s j (omega arith)
  ]
  Scan-skip g lo ((k, v) ∷ xs) h (l, e, gap, rest) = (
    omega arith,
    e,
    λ j m q. elim (ℕ_discrete lo j) [
      | yes e ↦ subst (λ i. g i ≡ none) e h
      | no ne ↦ gap j (omega arith) q
    ],
    rest,
  )

  shift :
      (g : ℕ → Option V) (base : ℕ) (x : Option V) (xs : Table V)
      → ((j : ℕ) → g (base + j) ≡ get (x ∷ xs) j)
      → (j : ℕ) → g (suc base + j) ≡ get xs j
  shift g base x xs h j =
      let e : base + suc j ≡ suc base + j = omega arith in subst (λ i. g i ≡ get xs j) e (h (suc j))

  at_base :
      (g : ℕ → Option V) (base : ℕ) (x : Option V) (xs : Table V)
      → ((j : ℕ) → g (base + j) ≡ get (x ∷ xs) j)
      → g base ≡ x
  at_base g base x xs h = let e : base + 0 ≡ base = omega arith in subst (λ i. g i ≡ x) e (h 0)

  -- `g` reads the table from place `base` on.
  entries-Scan :
      (g : ℕ → Option V) (base : ℕ) (c : Table V) (lo : ℕ)
      → ((j : ℕ) → g (base + j) ≡ get c j)
      → Scan g (base + lo) (entries base c lo)
  entries-Scan g base [] lo h =
      λ j l. let e : base + (j - base) ≡ j = omega arith in subst (λ i. g i ≡ none) e (h (j - base))
  entries-Scan g base (x ∷ xs) (suc lo) h =
      let e : suc base + lo ≡ base + suc lo = omega arith in
      subst (λ i. Scan g i (entries (suc base) xs lo)) e
        (entries-Scan g (suc base) xs lo (shift g base x xs h))
  entries-Scan g base (none ∷ xs) zero h =
      let e : base ≡ base + 0 = omega arith in
      let f : suc base + 0 ≡ suc base = omega arith in
      subst (λ i. Scan g i (entries (suc base) xs 0)) e
        (Scan-skip g base _ (at_base g base none xs h) (
          subst (λ i. Scan g i (entries (suc base) xs 0)) f
            (entries-Scan g (suc base) xs zero (shift g base none xs h))))
  entries-Scan g base (some v ∷ xs) zero h =
      let f : suc base + 0 ≡ suc base = omega arith in
      (
        omega arith,
        at_base g base (some v) xs h,
        λ j l m. absurd (omega arith),
        subst (λ i. Scan g i (entries (suc base) xs 0)) f
            (entries-Scan g (suc base) xs zero (shift g base (some v) xs h)),
      )

  pub iter_from-Scan : (c : Table V) (lo : ℕ) → Scan (get c) lo (entries 0 c lo)
  iter_from-Scan c lo =
      let e : 0 + lo ≡ lo = omega arith in
      subst (λ i. Scan (get c) i (entries 0 c lo)) e
        (entries-Scan (get c) 0 c lo (λ j. ap (get c) (omega arith)))

  here-Greatest :
      (c : Table V) (k : ℕ) (x : Option V) (o : Option (ℕ × V))
      → get c (suc k) ≡ x
      → Greatest (get c) k o
      → Greatest (get c) (suc k) (here_or (suc k) x o)
  here-Greatest c k (some v) o e h = (omega arith, e, λ j l m. absurd (omega arith))
  here-Greatest c k none none e h = λ j l. elim (ℕ_discrete (suc k) j) [
    | yes same ↦ subst (λ i. get c i ≡ none) same e
    | no other ↦ h j (omega arith)
  ]
  here-Greatest c k none (some (i, v)) e (l, at, gap) = (
    omega arith,
    at,
    λ j p q. elim (ℕ_discrete (suc k) j) [
      | yes same ↦ subst (λ i. get c i ≡ none) same e
      | no other ↦ gap j p (omega arith)
    ],
  )

  at_zero : (c : Table V) (x : Option V) → get c 0 ≡ x → Greatest (get c) 0 (here_or 0 x none)
  at_zero c (some v) e = (omega arith, e, λ j l m. absurd (omega arith))
  at_zero c none e = λ j l. ground arith

  pub seek-Greatest : (c : Table V) (k : ℕ) → Greatest (get c) k (seek c k)
  seek-Greatest c zero = at_zero c (get c zero) refl
  seek-Greatest c (suc k) = here-Greatest c k (get c (suc k)) (seek c k) refl (seek-Greatest c k)

abbrev pub table_rocks : Rocks
table_rocks = record {
  Column = Table;
  empty = [];
  get = get;
  put = put;
  delete = delete;
  iter_from = λ c lo. entries 0 c lo;
  seek_reverse = seek;
  get-empty = λ j. refl;
  get-put = get-put;
  get-delete = get-delete;
  iter_from-Scan = iter_from-Scan;
  seek_reverse-Greatest = seek-Greatest;
}
