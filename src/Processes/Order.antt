-- ===== src/Processes/Order.antt =====
-- The rows in web/src/pages/Processes.tsx: which processes they are, and in which order.
use Prim.Native.Nat.{compare, Ordering}
use mathlib.Core.List.{Perm, Mem, mem-cons, not-mem-nil, perm_middle, append-nil}
use mathlib.Core.List.Perm
use mathlib.Core.Bool.{Bool-set}
use mathlib.Core.Logic.Or
use ddsds.Common.{
  ◌≡◌, ◌≢◌, ◌⊎◌, ◌≤◌, refl, ap, String, Bool, true, false, not, List, [], ◌∷◌, ◌++◌, some, arith,
  All, filter, Bool-cases, inl, inr,
}
use ddsds.Common.Sort.{sort_by-perm, sort_by-IsSorted, IsSorted}
use ddsds.Text.{codes, decimal, truthy, includes}
use ddsds.Text.Parts.{IsPart, includes-IsPart, includes-not-IsPart}
use ddsds.Processes.{
  ProcessInfo, SortKey, by_name, by_cpu, by_ram, by_pid, SortDir, asc, desc, View, compare_by,
  goes_before, found, sorted, matches_search,
}

abbrev reversed : Ordering → Ordering
reversed Ordering.lt = Ordering.gt
reversed Ordering.eq = Ordering.eq
reversed Ordering.gt = Ordering.lt

-- What the language promises of a comparison of texts, and of one of doubles without NaN.
pub record IsComparison {A : Type 0} (cmp : A → A → Ordering) : Type 0 where
  pub flip : (a b : A) → cmp b a ≡ reversed (cmp a b)
  pub trans : (a b c : A) → cmp a b ≢ Ordering.gt → cmp b c ≢ Ordering.gt → cmp a c ≢ Ordering.gt

pub compare-IsComparison : IsComparison compare
compare-IsComparison = record { flip = λ a b. ground arith; trans = λ a b c h k. ground arith }

-- A row that stands somewhere before another one: the smaller first, or the greater first.
abbrev pub InOrder :
    {N : Type 0} (compare_loads : N → N → Ordering) (locale_compare : String → String → Ordering)
    → SortKey
    → SortDir
    → (earlier later : ProcessInfo N) → Type 0
InOrder compare_loads locale_compare by_name asc a b = locale_compare a.name b.name ≢ Ordering.gt
InOrder compare_loads locale_compare by_name desc a b = locale_compare a.name b.name ≢ Ordering.lt
InOrder compare_loads locale_compare by_cpu asc a b = compare_loads a.cpu b.cpu ≢ Ordering.gt
InOrder compare_loads locale_compare by_cpu desc a b = compare_loads a.cpu b.cpu ≢ Ordering.lt
InOrder compare_loads locale_compare by_ram asc a b = a.ram ≤ b.ram
InOrder compare_loads locale_compare by_ram desc a b = b.ram ≤ a.ram
InOrder compare_loads locale_compare by_pid asc a b = a.pid ≤ b.pid
InOrder compare_loads locale_compare by_pid desc a b = b.pid ≤ a.pid

abbrev pub AllInOrder : {A : Type 0} (In : A → A → Type 0) → List A → Type 0
AllInOrder In [] = Unit
AllInOrder In (x ∷ xs) = All (In x) xs × AllInOrder In xs

-- There is no search, or its lower case stands in the lower case of the name, or in the number.
abbrev pub IsWanted : {N : Type 0} (to_lower : String → String) → String → ProcessInfo N → Type 0
IsWanted to_lower search p =
    (search ≡ "")
    ⊎ (IsPart (codes (to_lower search)) (codes (to_lower p.name))
        ⊎ IsPart (codes (to_lower search)) (codes (decimal p.pid)))

-- What the rows have to be, of the processes and the view.
pub record IsTable {N : Type 0} (compare_loads : N → N → Ordering)
    (locale_compare : String → String → Ordering) (to_lower : String → String)
    (processes : List (ProcessInfo N)) (v : View N) (rows : List (ProcessInfo N)) : Type 0 where
  pub left_out : List (ProcessInfo N)
  pub all_used : Perm (rows ++ left_out) processes
  pub wanted : (p : ProcessInfo N) → Mem p rows → IsWanted to_lower v.search p
  pub unwanted : (p : ProcessInfo N) → Mem p left_out → ¬ IsWanted to_lower v.search p
  pub ordered : AllInOrder (InOrder compare_loads locale_compare v.sort_key v.sort_dir) rows

mem-filter {ℓ} :
    {A : Type ℓ} (f : A → Bool) (x : A) (xs : List A) → Mem x (filter f xs) → f x ≡ true
mem-filter f x [] h = absurd (not-mem-nil h)
mem-filter f x (y ∷ ys) h = elim (Bool-cases (f y)) [
  | inl e ↦
      let at_head : Mem x (y ∷ filter f ys) = rw (e, filter) at h in
      Or.elim (Bool-set (f x) true) (mem-cons.0 at_head) (λ same. rw same e) (mem-filter f x ys)
  | inr e ↦ let later : Mem x (filter f ys) = rw (e, filter) at h in mem-filter f x ys later
]

filter-split {ℓ} :
    {A : Type ℓ} (f : A → Bool) (xs : List A) → Perm (filter f xs ++ filter (λ x. not (f x)) xs) xs
filter-split f [] = Perm.refl []
filter-split f (x ∷ xs) = elim (Bool-cases (f x)) [
  | inl e ↦ rw (e, filter) (Perm.cons x (filter-split f xs))
  | inr e ↦
      rw (e, filter)
        (Perm.trans (perm_middle (filter f xs) (filter (λ y. not (f y)) xs))
          (Perm.cons x (filter-split f xs)))
]

matches_search-IsWanted :
    {N : Type 0} (to_lower : String → String) (search : String) (p : ProcessInfo N)
    → matches_search to_lower (to_lower search) p ≡ true
    → IsWanted to_lower search p
unfolding matches_search
matches_search-IsWanted to_lower search p h =
    elim (Bool-cases (includes (to_lower p.name) (to_lower search))) [
      | inl e ↦ inr (inl (includes-IsPart (to_lower p.name) (to_lower search) e))
      | inr e ↦ inr (inr (includes-IsPart (decimal p.pid) (to_lower search) (ground arith)))
    ]

matches_search-not-IsWanted :
    {N : Type 0} (to_lower : String → String) (search : String) (p : ProcessInfo N)
    → truthy search ≡ true
    → matches_search to_lower (to_lower search) p ≡ false
    → ¬ IsWanted to_lower search p
unfolding matches_search
matches_search-not-IsWanted to_lower search p t h (inl e) = absurd (cc (t, ap truthy e))
matches_search-not-IsWanted to_lower search p t h (inr (inl w)) =
    includes-not-IsPart (to_lower p.name) (to_lower search) (ground arith) w
matches_search-not-IsWanted to_lower search p t h (inr (inr w)) =
    includes-not-IsPart (decimal p.pid) (to_lower search) (ground arith) w

-- The processes that the search finds, and the others.
found-split :
    {N : Type 0} (to_lower : String → String) (search : String) (processes : List (ProcessInfo N))
    → (left_out : List (ProcessInfo N)) × Perm
        (found to_lower search processes ++ left_out)
        processes
      × ((p : ProcessInfo N) → Mem p (found to_lower search processes) → IsWanted to_lower search p)
      × ((p : ProcessInfo N) → Mem p left_out → ¬ IsWanted to_lower search p)
unfolding found
found-split to_lower String.[] processes = (
  [],
  rw (append-nil processes) (Perm.refl processes),
  λ p h. inl refl,
  λ p h. absurd (not-mem-nil h),
)
found-split to_lower (String.◌∷◌ c s) processes =
    let finds = matches_search to_lower (to_lower (String.◌∷◌ c s)) in
    (
      filter (λ p. not (finds p)) processes,
      filter-split finds processes,
      λ p h. matches_search-IsWanted to_lower (String.◌∷◌ c s) p (mem-filter finds p processes h),
      λ p h.
          let missed = mem-filter (λ q. not (finds q)) p processes h in
          matches_search-not-IsWanted to_lower (String.◌∷◌ c s) p refl (ground arith),
    )

module _ {N : Type 0} {compare_loads : N → N → Ordering}
    {locale_compare : String → String → Ordering} (loads : IsComparison compare_loads)
    (names : IsComparison locale_compare) where
  compare_by-IsComparison :
      (key : SortKey) → IsComparison (compare_by compare_loads locale_compare key)
  unfolding compare_by
  compare_by-IsComparison by_name = record {
    flip = λ a b. names.flip a.name b.name;
    trans = λ a b c. names.trans a.name b.name c.name;
  }
  compare_by-IsComparison by_cpu = record {
    flip = λ a b. loads.flip a.cpu b.cpu;
    trans = λ a b c. loads.trans a.cpu b.cpu c.cpu;
  }
  compare_by-IsComparison by_ram = record {
    flip = λ a b. compare-IsComparison.flip a.ram b.ram;
    trans = λ a b c. compare-IsComparison.trans a.ram b.ram c.ram;
  }
  compare_by-IsComparison by_pid = record {
    flip = λ a b. compare-IsComparison.flip a.pid b.pid;
    trans = λ a b c. compare-IsComparison.trans a.pid b.pid c.pid;
  }

  goes_before-asym :
      (key : SortKey) (dir : SortDir) (x y : ProcessInfo N)
      → goes_before compare_loads locale_compare key dir x y ≡ true
      → goes_before compare_loads locale_compare key dir y x ≡ false
  unfolding goes_before
  goes_before-asym key asc x y h = ground (arith, (compare_by-IsComparison key).flip x y)
  goes_before-asym key desc x y h = ground (arith, (compare_by-IsComparison key).flip x y)

  goes_before_trans :
      (key : SortKey) (dir : SortDir) (x y z : ProcessInfo N)
      → goes_before compare_loads locale_compare key dir y x ≡ false
      → goes_before compare_loads locale_compare key dir z y ≡ false
      → goes_before compare_loads locale_compare key dir z x ≡ false
  unfolding goes_before
  goes_before_trans key asc x y z h k =
      let c = compare_by-IsComparison key in
      ground (arith, c.flip x y, c.flip y z, c.flip x z, c.trans x y z)
  goes_before_trans key desc x y z h k =
      let c = compare_by-IsComparison key in ground (arith, c.trans z y x)

  goes_before-InOrder :
      (key : SortKey) (dir : SortDir) (x y : ProcessInfo N)
      → goes_before compare_loads locale_compare key dir y x ≡ false
      → InOrder compare_loads locale_compare key dir x y
  unfolding goes_before compare_by
  goes_before-InOrder by_name asc x y h = ground (arith, names.flip x.name y.name)
  goes_before-InOrder by_name desc x y h = ground (arith, names.flip x.name y.name)
  goes_before-InOrder by_cpu asc x y h = ground (arith, loads.flip x.cpu y.cpu)
  goes_before-InOrder by_cpu desc x y h = ground (arith, loads.flip x.cpu y.cpu)
  goes_before-InOrder by_ram asc x y h = ground arith
  goes_before-InOrder by_ram desc x y h = ground arith
  goes_before-InOrder by_pid asc x y h = ground arith
  goes_before-InOrder by_pid desc x y h = ground arith

  IsSorted-AllInOrder :
      (key : SortKey) (dir : SortDir) (xs : List (ProcessInfo N))
      → IsSorted (goes_before compare_loads locale_compare key dir) xs
      → AllInOrder (InOrder compare_loads locale_compare key dir) xs
  IsSorted-AllInOrder key dir [] h = tt
  IsSorted-AllInOrder key dir (x ∷ xs) h = (first xs h.0, IsSorted-AllInOrder key dir xs h.1)
    where
      first :
          (ys : List (ProcessInfo N))
          → All (λ y. goes_before compare_loads locale_compare key dir y x ≡ false) ys
          → All (InOrder compare_loads locale_compare key dir x) ys
      first [] k = tt
      first (y ∷ ys) k = (goes_before-InOrder key dir x y k.0, first ys k.1)

  -- The rows and the processes that are left out are the processes together, each as often; a process
  -- has a row if there is no search, or if the search, in lower case, stands in its name, in lower
  -- case, or in its number, and it is left out otherwise; and each row may stand before every later one
  -- in the chosen order.
  pub sorted-IsTable :
      (to_lower : String → String) (processes : List (ProcessInfo N)) (v : View N)
      → IsTable compare_loads locale_compare to_lower processes v
          (sorted compare_loads locale_compare to_lower (some processes) v)
  unfolding sorted
  sorted-IsTable to_lower processes v =
      let before = goes_before compare_loads locale_compare v.sort_key v.sort_dir in
      let split = found-split to_lower v.search processes in
      let same = sort_by-perm before (found to_lower v.search processes) in
      record {
        left_out = split.0;
        all_used = Perm.trans (Perm.append_right split.0 same) split.1;
        wanted = λ p h. split.2 p ((Perm.mem_iff same).0 h);
        unwanted = split.3;
        ordered = IsSorted-AllInOrder v.sort_key v.sort_dir _ (
            sort_by-IsSorted before (goes_before-asym v.sort_key v.sort_dir)
              (goes_before_trans v.sort_key v.sort_dir) _);
      }
