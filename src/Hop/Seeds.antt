-- ===== src/Hop/Seeds.antt =====
-- The names the hop follows: `seeds` of tools/hop.rs.
use agmem.Prelude.{
  ℕ, ◌+◌, ◌<◌, ◌≡◌, refl, ap, ◌∙◌, String, Bool, true, false, not, ◌&&◌, ◌||◌, List, [], ◌∷◌, ◌++◌,
  map, arith, ltb, str_eq, eq_iff, if◌then◌else◌, take, any, keep_if, All, All-map, Bool-cases, inl,
  inr,
}
use agmem.Hop.{
  contains, carriers, hubs, tally, tally_list, tally_all, by_count, name_of, ranked_names, seeds,
  seed_cap,
}
use agmem.Sort.{IsSorted, sort_by-IsSorted, All-sort_by, any-sort_by}
use agmem.Hop.Hubs.{contains-snoc}

-- The count that the tallies hold for an entity, 0 where they do not hold it.
count_in : List (String × ℕ) → String → ℕ
count_in [] e = 0
count_in ((name, count) ∷ ranked) e = if str_eq name e then count else count_in ranked e

-- Each name stands once, with a count above 0.
IsTally : List (String × ℕ) → Type 0
IsTally [] = Unit
IsTally ((name, count) ∷ ranked) = (0 < count) × (count_in ranked name ≡ 0) × IsTally ranked

count_in-tally :
    (ranked : List (String × ℕ)) (x e : String)
    → count_in (tally ranked x) e
      ≡ (if str_eq x e then count_in ranked e + 1 else count_in ranked e)
unfolding count_in tally
count_in-tally [] x e = ground arith
count_in-tally ((name, count) ∷ ranked) x e =
    ground (arith, count_in-tally ranked x e, eq_iff name x, eq_iff name e, eq_iff x e)

tally-IsTally :
    (ranked : List (String × ℕ)) (x : String) → IsTally ranked → IsTally (tally ranked x)
unfolding IsTally tally
tally-IsTally [] x t = unfold count_in in (omega arith, refl, tt)
tally-IsTally ((name, count) ∷ ranked) x t = elim (Bool-cases (str_eq name x)) [
  | inl e ↦ rw e (omega arith, t.1, t.2)
  | inr e ↦ rw e (
    t.0,
    ground (arith, count_in-tally ranked x name, eq_iff x name, eq_iff name x, t.1),
    tally-IsTally ranked x t.2,
  )
]

one_if : Bool → ℕ
one_if b = if b then 1 else 0

count_in-tally_list :
    (seen : List String) (ranked : List (String × ℕ)) (list : List String) (e : String)
    → count_in (tally_list seen ranked list) e
      ≡ count_in ranked e + one_if (not (contains seen e) && contains list e)
unfolding tally_list one_if
count_in-tally_list seen ranked [] e = ground arith
count_in-tally_list seen ranked (x ∷ list) e = elim (Bool-cases (contains seen x)) [
  | inl again ↦ rw again (count_in-tally_list seen ranked list e ∙ ground (arith, eq_iff e x))
  | inr fresh ↦ rw fresh (
      count_in-tally_list (seen ++ x ∷ []) (tally ranked x) list e
      ∙ ground (arith, contains-snoc seen x e, count_in-tally ranked x e, eq_iff e x, eq_iff x e))
]

tally_list-IsTally :
    (seen : List String) (ranked : List (String × ℕ)) (list : List String)
    → IsTally ranked
    → IsTally (tally_list seen ranked list)
unfolding tally_list
tally_list-IsTally seen ranked [] t = t
tally_list-IsTally seen ranked (x ∷ list) t = elim (Bool-cases (contains seen x)) [
  | inl again ↦ rw again (tally_list-IsTally seen ranked list t)
  | inr fresh ↦
      rw fresh
        (tally_list-IsTally (seen ++ x ∷ []) (tally ranked x) list (tally-IsTally ranked x t))
]

count_in-tally_all :
    (ranked : List (String × ℕ)) (top : List (List String)) (e : String)
    → count_in (tally_all ranked top) e ≡ count_in ranked e + carriers top e
unfolding tally_all carriers
count_in-tally_all ranked [] e = omega arith
count_in-tally_all ranked (list ∷ top) e =
    count_in-tally_all (tally_list [] ranked list) top e
    ∙ unfold one_if in ground (arith, count_in-tally_list [] ranked list e)

tally_all-IsTally :
    (ranked : List (String × ℕ)) (top : List (List String))
    → IsTally ranked
    → IsTally (tally_all ranked top)
unfolding tally_all
tally_all-IsTally ranked [] t = t
tally_all-IsTally ranked (list ∷ top) t =
    tally_all-IsTally (tally_list [] ranked list) top (tally_list-IsTally [] ranked list t)

-- In a tally each entry holds the count of its name.
IsCounted : List (String × ℕ) → String × ℕ → Type 0
IsCounted ranked (name, count) = (0 < count) × (count ≡ count_in ranked name)

IsCounted-cons :
    (name : String) (count : ℕ) (ranked : List (String × ℕ)) (entry : String × ℕ)
    → count_in ranked name ≡ 0
    → IsCounted ranked entry
    → IsCounted ((name, count) ∷ ranked) entry
unfolding IsCounted count_in
IsCounted-cons name count ranked (n, c) h k = ground (arith, eq_iff name n)

entries-IsCounted : (ranked : List (String × ℕ)) → IsTally ranked → All (IsCounted ranked) ranked
unfolding IsTally
entries-IsCounted [] t = tt
entries-IsCounted ((name, count) ∷ ranked) t = (
  (unfold IsCounted count_in in ground (arith, eq_iff name name)),
  All-map (IsCounted ranked) (IsCounted ((name, count) ∷ ranked)) ranked
      (λ entry k. IsCounted-cons name count ranked entry t.1 k) (entries-IsCounted ranked t.2),
)

any-name :
    (ranked : List (String × ℕ)) (e : String)
    → IsTally ranked
    → any (λ entry. str_eq e (name_of entry)) ranked ≡ ltb 0 (count_in ranked e)
unfolding IsTally count_in
any-name [] e t = refl
any-name ((name, count) ∷ ranked) e t =
    ground (arith, any-name ranked e t.2, eq_iff e name, eq_iff name e)

contains-map :
    (ranked : List (String × ℕ)) (e : String)
    → contains (map name_of ranked) e ≡ any (λ entry. str_eq e (name_of entry)) ranked
contains-map [] e = refl
contains-map (entry ∷ ranked) e = ap (λ b. str_eq e (name_of entry) || b) (contains-map ranked e)

-- Dropping the hubs drops just their entries.
any-keep_if :
    (hubs : List String) (ranked : List (String × ℕ)) (e : String)
    → any
        (λ entry. str_eq e (name_of entry))
        (keep_if (λ entry. not (contains hubs (name_of entry))) ranked)
      ≡ (any (λ entry. str_eq e (name_of entry)) ranked && not (contains hubs e))
any-keep_if hubs [] e = refl
any-keep_if hubs ((name, count) ∷ ranked) e =
    ground (arith, any-keep_if hubs ranked e, eq_iff e name)

All-keep_if :
    (P : String × ℕ → Type 0) (p : String × ℕ → Bool) (ranked : List (String × ℕ))
    → All P ranked
    → All P (keep_if p ranked)
All-keep_if P p [] h = tt
All-keep_if P p (entry ∷ ranked) h = elim (Bool-cases (p entry)) [
  | inl e ↦ rw e (h.0, All-keep_if P p ranked h.1)
  | inr e ↦ rw e (All-keep_if P p ranked h.1)
]

-- An entry holds how many of the top hits name it.
abbrev pub Agrees : List (List String) → String × ℕ → Type 0
Agrees top (name, count) = count ≡ carriers top name

counts : (top : List (List String)) (e : String) → count_in (tally_all [] top) e ≡ carriers top e
counts top e = unfold count_in in (count_in-tally_all [] top e ∙ omega arith)

IsCounted-Agrees :
    (top : List (List String)) (entry : String × ℕ)
    → IsCounted (tally_all [] top) entry
    → Agrees top entry
unfolding IsCounted
IsCounted-Agrees top (name, count) h = h.1 ∙ counts top name

by_count_total : (a b : String × ℕ) → by_count a b ≡ false → by_count b a ≡ true
by_count_total (a, m) (b, n) h = ground arith

by_count_trans :
    (a b c : String × ℕ) → by_count a b ≡ true → by_count b c ≡ true → by_count a c ≡ true
by_count_trans (a, m) (b, n) (c, l) h k = ground arith

-- The seeds are the first five names of a ranking, most agreement first, of exactly the entities
-- that a top hit names and that are no hub, each with the number of top hits that name it.
pub seeds_ranked :
    (top : List (List String)) (hubs : List String) (e : String)
    → (seeds top hubs ≡ map name_of (take seed_cap (ranked_names top hubs)))
      × IsSorted by_count (ranked_names top hubs)
      × All (Agrees top) (ranked_names top hubs)
      × (contains (map name_of (ranked_names top hubs)) e
          ≡ (ltb 0 (carriers top e) && not (contains hubs e)))
unfolding seeds ranked_names
seeds_ranked top hubs e =
    let t = tally_all-IsTally [] top (unfold IsTally in tt) in
    (
      refl,
      sort_by-IsSorted by_count by_count_total by_count_trans _,
      All-sort_by by_count (Agrees top) _ (
          All-keep_if (Agrees top) _ (tally_all [] top) (
            All-map (IsCounted (tally_all [] top)) (Agrees top) _ (IsCounted-Agrees top)
              (entries-IsCounted (tally_all [] top) t))),
      contains-map _ e
          ∙ any-sort_by by_count _ _
          ∙ any-keep_if hubs (tally_all [] top) e
          ∙ ground (arith, any-name (tally_all [] top) e t, counts top e),
    )
