-- ===== src/Metrics/Handles.antt =====
-- Handles that share counters: the registry of crates/sg-core/src/metrics.rs. Changes through
-- the handles of names, and snapshots.
use securitygingercia.Prelude.{
  ap, zero, suc, ◌∙◌, sym, ◌⊎◌, ℕ, ◌+◌, ◌<◌, String, some, List, [], ◌∷◌, ◌++◌, ◌≡◌, ◌≢◌, refl,
  arith, length, get_elem?, set, inl, inr, Option-cases, Bool-cases, ◌==◌, eq_iff, some-injective,
  get_elem?-set_self, lt_of_get_elem?,
}
use securitygingercia.Metrics.{Registry, lookup, register, handle, through, snapshot}

lookup-cons :
    (name k : String) (place : ℕ) (rest : List (String × ℕ)) (p : ℕ)
    → lookup k ((name, place) ∷ rest) ≡ some p
    → ((name ≡ k) × (place ≡ p)) ⊎ ((name ≢ k) × (lookup k rest ≡ some p))
unfolding lookup
lookup-cons name k place rest p e = elim (Bool-cases (name == k)) [
  | inl t ↦ inl ((eq_iff name k).0 t, some-injective _ _ (rw t at e))
  | inr t ↦ inr ((λ same. cc (t, (eq_iff name k).1 same)), rw t at e)
]

module _ {M : Type 0} where
  -- Each name has a place in the store, and no two have the same.
  pub record IsSound (r : Registry M) : Type 0 where
    pub bounded : (k : String) (p : ℕ) → lookup k r.names ≡ some p → p < length r.store
    pub apart :
        (j k : String) (p : ℕ) → lookup j r.names ≡ some p → lookup k r.names ≡ some p → j ≡ k

  abbrev pub empty : Registry M
  empty = record { names = []; store = [] }

  length-append_one : (xs : List M) (x : M) → length (xs ++ x ∷ []) ≡ length xs + 1
  length-append_one [] x = refl
  length-append_one (y ∷ ys) x = omega (arith, length-append_one ys x)

  get_elem?-append :
      (xs : List M) (x : M) (i : ℕ) → i < length xs → get_elem? (xs ++ x ∷ []) i ≡ get_elem? xs i
  get_elem?-append [] x i h = absurd (omega arith)
  get_elem?-append (y ∷ ys) x zero h = refl
  get_elem?-append (y ∷ ys) x (suc i) h = get_elem?-append ys x i (omega arith)

  get_elem?-set_ne :
      (xs : List M) (i j : ℕ) (v : M) → i ≢ j → get_elem? (set xs i v) j ≡ get_elem? xs j
  get_elem?-set_ne [] i j v n = refl
  get_elem?-set_ne (x ∷ xs) zero zero v n = absurd (n refl)
  get_elem?-set_ne (x ∷ xs) zero (suc j) v n = refl
  get_elem?-set_ne (x ∷ xs) (suc i) zero v n = refl
  get_elem?-set_ne (x ∷ xs) (suc i) (suc j) v n = get_elem?-set_ne xs i j v (λ e. n (ap suc e))

  register_one-IsSound :
      (fresh : M) (name : String) (r : Registry M)
      → IsSound r
      → IsSound (record { names = (name, length r.store) ∷ r.names; store = r.store ++ fresh ∷ [] })
  register_one-IsSound fresh name r s = record {
    bounded = λ k p e. elim (lookup-cons name k (length r.store) r.names p e) [
      | inl (same, at) ↦ omega (arith, at, length-append_one r.store fresh)
      | inr (other, f) ↦ omega (arith, s.bounded k p f, length-append_one r.store fresh)
    ];
    apart = λ j k p e f. elim (lookup-cons name j (length r.store) r.names p e) [
      | inl (same, at) ↦ elim (lookup-cons name k (length r.store) r.names p f) [
        | inl (same', at') ↦ sym same ∙ same'
        | inr (other, g) ↦ absurd (omega (arith, at, s.bounded k p g))
      ]
      | inr (other, g) ↦ elim (lookup-cons name k (length r.store) r.names p f) [
        | inl (same', at') ↦ absurd (omega (arith, at', s.bounded j p g))
        | inr (other', h) ↦ s.apart j k p g h
      ]
    ];
  }

  -- A registry of any names over a sound one is sound: each name has a place in the store, and no
  -- two have the same.
  pub register-IsSound :
      (fresh : M) (names : List String) (r : Registry M)
      → IsSound r
      → IsSound (register fresh names r)
  unfolding register
  register-IsSound fresh [] r s = s
  register-IsSound fresh (name ∷ names) r s =
      register-IsSound fresh names
        (record { names = (name, length r.store) ∷ r.names; store = r.store ++ fresh ∷ [] })
        (register_one-IsSound fresh name r s)

  handle-registered :
      (fresh : M) (name : String) (r : Registry M) (place : ℕ)
      → lookup name r.names ≡ some place
      → handle fresh name r ≡ (place, r)
  unfolding handle
  handle-registered fresh name r place e = rw (e, handle) refl

  -- In a sound registry, a change through the handle of a registered name is what a snapshot then
  -- shows under the name, and under any other name it shows what it did.
  pub snapshot-through :
      (fresh : M) (name other : String) (f : M → M) (r : Registry M) (m : M)
      → IsSound r
      → snapshot name r ≡ some m
      → name ≢ other
      → (snapshot name (through (handle fresh name r).0 f (handle fresh name r).1) ≡ some (f m))
        × (snapshot other (through (handle fresh name r).0 f (handle fresh name r).1)
            ≡ snapshot other r)
  unfolding snapshot through
  snapshot-through fresh name other f r m s e n = elim (Option-cases (lookup name r.names)) [
    | inl g ↦ cc (rw (g, snapshot) at e)
    | inr (place, g) ↦
        let here : get_elem? r.store place ≡ some m = rw (g, snapshot) at e in
        rw (handle-registered fresh name r place g) (
          rw (here, through)
            (
              rw (g, snapshot)
                  (get_elem?-set_self r.store place (f m) (lt_of_get_elem? r.store place m here)),
              under_other place here g,
            ))
  ]
    where
      under_other :
          (place : ℕ)
          → get_elem? r.store place ≡ some m
          → lookup name r.names ≡ some place
          → snapshot other (record r { store = set r.store place (f m) }) ≡ snapshot other r
      under_other place here g = elim (Option-cases (lookup other r.names)) [
        | inl h ↦ rw (h, snapshot) refl
        | inr (place', h) ↦
            rw (h, snapshot)
              (get_elem?-set_ne r.store place place' (f m)
                (λ same. n (s.apart name other place g (rw same h))))
      ]
