-- ===== src/Consolidate/Groups.antt =====
-- The groups that `compare` of tools/consolidate.rs forms.
use agmem.Prelude.{
  ℕ, zero, suc, ◌+◌, ◌-◌, ◌<◌, ◌≤◌, ◌≡◌, ◌↔◌, refl, sym, ap, subst, ◌∙◌, String, Bool, true, false,
  inl, inr, Option, none, some, List, [], ◌∷◌, ◌++◌, append-nil, append_assoc, length, arith, All,
  All-append, ◌==◌, ==_iff, keep_if, range, among, Distinct, Bool-cases, Option-cases,
}
use agmem.Model.{SpaceName}
use agmem.Float.{Float}
use agmem.Dedup.{Thresholds, is_cluster_candidate}
use agmem.Union.{indices, new}
use agmem.Union.Classes.{Forest, class_of, join_merges, new_lem}
use agmem.Consolidate.{
  Embedded, Pairs, Groups, rights, pairs_from, pairs, join_if, contradiction, score, units,
  note_pair, compare_pairs, nothing_found, grouped,
}
use agmem.Consolidate.Table.{keys, of_class, Exact, collect-Table}
use agmem.Consolidate.Links.{Linked, same, Linked-keeps, Represents, Represents-link}

-- A forest of `n` indices whose classes the links tell.
record Joined (n : ℕ) (links : List (ℕ × ℕ)) (parents : List ℕ) : Type 0 where
  forest : Forest parents
  size : length parents ≡ n
  classes : Represents links (class_of parents)

abbrev link_if : Bool → List (ℕ × ℕ) → ℕ → ℕ → List (ℕ × ℕ)
link_if true links l r = links ++ (l, r) ∷ []
link_if false links l r = links

join_if_lem :
    (n : ℕ) (links : List (ℕ × ℕ)) (ps : List ℕ) (close : Bool) (l r : ℕ)
    → Joined n links ps
    → l < n
    → r < n
    → (qs : List ℕ) × (join_if close ps l r ≡ some qs) × Joined n (link_if close links l r) qs
join_if_lem n links ps false l r j hl hr = (ps, refl, j)
join_if_lem n links ps true l r j hl hr =
    let size = j.size in
    let (qs, runs, length_, forest, classes) =
      join_merges ps l r j.forest (omega (arith, size, hl)) (omega (arith, size, hr)) in
    (
      qs,
      runs,
      record {
        forest = forest;
        size = length_ ∙ size;
        classes = Represents-link links l r (class_of ps) (class_of qs) j.classes classes;
      },
    )

abbrev Below : ℕ → ℕ × ℕ → Type 0
Below n (l, r) = (l < n) × (r < n)

rights-Below :
    (n left : ℕ) (rs : List ℕ) → left < n → All (λ r. r < n) rs → All (Below n) (rights left rs)
rights-Below n left [] h k = tt
rights-Below n left (r ∷ rs) h k = ((h, k.0), rights-Below n left rs h k.1)

range-below : (k m n : ℕ) → k + m ≤ n → All (λ i. i < n) (range k m)
range-below k zero n h = tt
range-below k (suc m) n h = (omega (arith, h), range-below (suc k) m n (omega (arith, h)))

pairs_from-Below : (n : ℕ) (ls : List ℕ) → All (λ i. i < n) ls → All (Below n) (pairs_from n ls)
pairs_from-Below n [] h = tt
pairs_from-Below n (l ∷ ls) h =
    let here = h.0 in
    All-append (Below n) (rights l (range (suc l) (n - suc l))) (pairs_from n ls)
      (rights-Below n l _ here (range-below (suc l) (n - suc l) n (omega (arith, here))))
      (pairs_from-Below n ls h.1)

length-indices : (first size : ℕ) → length (indices first size) ≡ size
unfolding indices
length-indices first zero = refl
length-indices first (suc size) = ap suc (length-indices (suc first) size)

new-Joined : (n : ℕ) → Joined n [] (new n)
new-Joined n =
    let (forest, own) = new_lem n in
    record {
      forest = forest;
      size = length-indices 0 n;
      classes = λ i j. (
        λ e. subst (Linked [] i) (sym (own i) ∙ e ∙ own j) (same i),
        Linked-keeps [] (class_of (new n)) i j (λ l r none_. elim none_ [ ]),
      );
    }

class_absent : (c : ℕ → ℕ) (i : ℕ) (is : List ℕ) → of_class c (c i) is ≡ [] → among is i ≡ false
class_absent c i [] h = refl
class_absent c i (x ∷ is) h = elim (Bool-cases (c x == c i)) [
  | inl e ↦ absurd (ground (arith, h, e))
  | inr e ↦
      let apart : (x == i) ≡ false = elim (Bool-cases (x == i)) [
        | inl q ↦ let one : c x ≡ c i = ap c ((==_iff x i).0 q) in absurd (ground (arith, one, e))
        | inr q ↦ q
      ] in
      ground (arith, apart, class_absent c i is (ground (arith, h, e)))
]

among-range : (k n i : ℕ) → k ≤ i → i < k + n → among (range k n) i ≡ true
among-range k zero i low high = absurd (omega arith)
among-range k (suc n) i low high = elim (Bool-cases (k == i)) [
  | inl e ↦ rw e refl
  | inr e ↦ rw e (among-range (suc k) n i (ground (arith, e)) (omega arith))
]

module _ (fl : Float) {Time : Type 0} (sqrt to_f32 : fl.F → fl.F) (lower : String → String)
    (arrange : List (ℕ × List ℕ) → List (ℕ × List ℕ)) (bands : Thresholds fl) (space : SpaceName)
    (rows : List (Embedded fl.F Time)) where
  open fl use {F}

  abbrev vectors : List (Option (List F))
  vectors = units fl sqrt to_f32 lower arrange bands space rows

  -- Both rows were measured, and they are close enough for one cluster.
  abbrev pub is_close : ℕ × ℕ → Bool
  is_close (l, r) = elim (score fl vectors l r) [
    | none ↦ false
    | some s ↦ is_cluster_candidate fl bands s
  ]

  abbrev walk : List (ℕ × ℕ) → Pairs F Time → Option (Pairs F Time)
  walk = compare_pairs fl sqrt to_f32 lower arrange bands space rows

  abbrev note_one : ℕ → ℕ → F → Pairs F Time → Option (Pairs F Time)
  note_one = note_pair fl sqrt to_f32 lower arrange bands space rows

  note_pair_lem :
      (n : ℕ) (links : List (ℕ × ℕ)) (l r : ℕ) (s : F) (found : Pairs F Time)
      → Joined n links found.groups
      → l < n
      → r < n
      → (next : Pairs F Time) × (note_one l r s found ≡ some next)
        × Joined n (link_if (is_cluster_candidate fl bands s) links l r) next.groups
  unfolding note_pair
  note_pair_lem n links l r s found j hl hr =
      let (qs, runs, joined) =
        join_if_lem n links found.groups (is_cluster_candidate fl bands s) l r j hl hr in
      (
        record {
          similarity = ((l, r), s) ∷ found.similarity;
          groups = qs;
          contradictions =
              found.contradictions
              ++ contradiction fl sqrt to_f32 lower arrange bands space rows s l r;
        },
        rw runs refl,
        joined,
      )

  skip_pair :
      (l r : ℕ) (ps : List (ℕ × ℕ)) (found : Pairs F Time)
      → score fl vectors l r ≡ none
      → walk ((l, r) ∷ ps) found ≡ walk ps found
  unfolding compare_pairs
  skip_pair l r ps found h = rw (h, compare_pairs) refl

  take_pair :
      (l r : ℕ) (ps : List (ℕ × ℕ)) (found next : Pairs F Time) (s : F)
      → score fl vectors l r ≡ some s
      → note_one l r s found ≡ some next
      → walk ((l, r) ∷ ps) found ≡ walk ps next
  unfolding compare_pairs
  take_pair l r ps found next s h k = rw (h, compare_pairs) (rw k refl)

  kept_pair :
      (close : Bool) (links : List (ℕ × ℕ)) (l r : ℕ) (ps : List (ℕ × ℕ))
      → is_close (l, r) ≡ close
      → link_if close links l r ++ keep_if is_close ps ≡ links ++ keep_if is_close ((l, r) ∷ ps)
  kept_pair true links l r ps h = rw h (append_assoc links ((l, r) ∷ []) (keep_if is_close ps))
  kept_pair false links l r ps h = rw h refl

  absent_pair : (l r : ℕ) → score fl vectors l r ≡ none → is_close (l, r) ≡ false
  absent_pair l r h = rw (h, is_close) refl

  measured_pair :
      (l r : ℕ) (s : F)
      → score fl vectors l r ≡ some s
      → is_close (l, r) ≡ is_cluster_candidate fl bands s
  measured_pair l r s h = rw (h, is_close) refl

  compare_pairs_lem :
      (n : ℕ) (ps links : List (ℕ × ℕ)) (found : Pairs F Time)
      → Joined n links found.groups
      → All (Below n) ps
      → (all : Pairs F Time) × (walk ps found ≡ some all)
        × Joined n (links ++ keep_if is_close ps) all.groups
  unfolding compare_pairs
  compare_pairs_lem n [] links found j h =
      (found, refl, subst (λ ls. Joined n ls found.groups) (sym (append-nil links)) j)
  compare_pairs_lem n ((l, r) ∷ ps) links found j h = elim (Option-cases (score fl vectors l r)) [
    | inl absent ↦
        let (all, runs, joined) = compare_pairs_lem n ps links found j h.1 in
        (
          all,
          skip_pair l r ps found absent ∙ runs,
          subst (λ ls. Joined n ls all.groups)
              (kept_pair false links l r ps (absent_pair l r absent)) joined,
        )
    | inr (s, measured) ↦
        let (next, noted, joined) = note_pair_lem n links l r s found j h.0.0 h.0.1 in
        let (all, runs, done_) = compare_pairs_lem n ps _ next joined h.1 in
        (
          all,
          take_pair l r ps found next s measured noted ∙ runs,
          subst (λ ls. Joined n ls all.groups)
              (kept_pair _ links l r ps (measured_pair l r s measured)) done_,
        )
  ]

  -- A result of the pass with its classes: one for all the indices that a chain of close pairs joins.
  -- Each group holds, in order, the indices of one class, and each index is in the one group of its
  -- class.
  abbrev pub Grouping : Type 0
  Grouping =
      (found : Pairs F Time) × (groups : Groups) × (grouped fl sqrt to_f32 lower arrange bands space
          rows
        ≡ some (found, groups))
      × (c : ℕ → ℕ) × ((i j : ℕ)
          → (c i ≡ c j) ↔ Linked (keep_if is_close (pairs (length rows))) i j)
      × Distinct (keys groups)
      × All (Exact c (range 0 (length rows))) groups
      × ((i : ℕ) → i < length rows → among (keys groups) (c i) ≡ true)

  -- The pass over a space's rows never panics, whatever their number, and groups their indices by
  -- the chains of pairs at or above the cluster bar: two indices share a group exactly when such a
  -- chain joins them, and each group lists its indices in order.
  pub grouped-Grouping : Grouping
  unfolding grouped
  grouped-Grouping =
      let n = length rows in
      let (found, walks, joined) =
        compare_pairs_lem n (pairs n) []
          (nothing_found fl sqrt to_f32 lower arrange bands space rows) (new-Joined n)
          (pairs_from-Below n (range 0 n) (range-below 0 n n (omega arith))) in
      let c = class_of found.groups in
      let (groups, collects, table) =
        collect-Table c n (range 0 n) found.groups [] [] joined.forest joined.size (λ j. refl)
          (range-below 0 n n (omega arith))
          (record { distinct = tt; exact = tt; full = λ x out. refl }) in
      (
        found,
        groups,
        rw walks (rw collects refl),
        c,
        joined.classes,
        table.distinct,
        table.exact,
        λ i h. elim (Bool-cases (among (keys groups) (c i))) [
          | inl here ↦ here
          | inr gone ↦
              let absent = class_absent c i (range 0 n) (table.full (c i) gone) in
              absurd (ground (arith, absent, among-range 0 n i (omega arith) (omega (arith, h))))
        ],
      )
