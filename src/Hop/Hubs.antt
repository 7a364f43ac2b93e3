-- ===== src/Hop/Hubs.antt =====
-- The topic the hop does not follow: `hubs` of tools/hop.rs.
use agmem.Prelude.{
  ◌*◌, ◌≡◌, refl, ◌∙◌, String, Bool, ◌&&◌, ◌||◌, List, [], ◌∷◌, ◌++◌, arith, ltb, leb, str_eq,
  eq_iff, length, keep_if, Bool-cases, inl, inr,
}
use agmem.Hop.{contains, carriers, add_new, name_all, hubs, hub_min_pool}

pub contains-snoc :
    (xs : List String) (x e : String) → contains (xs ++ x ∷ []) e ≡ (contains xs e || str_eq e x)
contains-snoc [] x e = ground arith
contains-snoc (y ∷ xs) x e = ground (arith, contains-snoc xs x e)

contains-add_new :
    (named list : List String) (e : String)
    → contains (add_new named list) e ≡ (contains named e || contains list e)
unfolding add_new
contains-add_new named [] e = ground arith
contains-add_new named (x ∷ list) e = elim (Bool-cases (contains named x)) [
  | inl known ↦ rw known (contains-add_new named list e ∙ ground (arith, eq_iff e x))
  | inr fresh ↦
      rw fresh (contains-add_new (named ++ x ∷ []) list e ∙ ground (arith, contains-snoc named x e))
]

contains-name_all :
    (named : List String) (pool : List (List String)) (e : String)
    → contains (name_all named pool) e ≡ (contains named e || ltb 0 (carriers pool e))
unfolding name_all carriers
contains-name_all named [] e = ground arith
contains-name_all named (list ∷ pool) e =
    contains-name_all (add_new named list) pool e ∙ ground (arith, contains-add_new named list e)

contains-keep_if :
    (p : String → Bool) (xs : List String) (e : String)
    → contains (keep_if p xs) e ≡ (contains xs e && p e)
contains-keep_if p [] e = refl
contains-keep_if p (x ∷ xs) e = ground (arith, contains-keep_if p xs e, eq_iff e x)

-- An entity is a hub exactly when the pool has eight candidates or more and at least half of them
-- carry it.
pub hubs_exact :
    (pool : List (List String)) (e : String)
    → contains (hubs pool) e
      ≡ (leb hub_min_pool (length pool) && leb (length pool) (2 * carriers pool e))
unfolding hubs
hubs_exact pool e = elim (Bool-cases (ltb (length pool) hub_min_pool)) [
  | inl small ↦ rw small (ground arith)
  | inr large ↦
      rw
        (
          large,
          contains-keep_if (λ name. leb (length pool) (2 * carriers pool name)) (name_all [] pool)
              e,
          contains-name_all [] pool e,
        )
        (ground arith)
]
