-- ===== src/Metrics/Snapshots/Entries.antt =====
-- What a snapshot shows under each name (crates/sg-core/src/metrics.rs).
use mathlib.Core.Option
use securitygingercia.Prelude.{
  length-append, ◌++◌, All-keep, ◌≤◌, ap, All, ℕ, ◌<◌, String, true, false, Option, none, some,
  List, [], ◌∷◌, ◌≡◌, ◌≢◌, refl, ◌∙◌, sym, arith, not, ◌==◌, eq_iff, get_elem?, length, Bool-cases,
  Option-cases, inl, inr, get_elem?_of_lt,
}
use securitygingercia.Metrics.{register, Registry, lookup, snapshot as shown}
use securitygingercia.Metrics.Snapshots.{without, live, entries_from, entries}

module _ {A : Type 0} where
  lookup-without :
      (name other : String) (xs : List (String × A))
      → name ≢ other
      → lookup other (without name xs) ≡ lookup other xs
  unfolding lookup without
  lookup-without name other [] n = refl
  lookup-without name other ((k, a) ∷ rest) n = elim (Bool-cases (k == name)) [
    | inl e ↦ rw (e, apart k e) (lookup-without name other rest n)
    | inr e ↦ rw e (ground (arith, lookup-without name other rest n))
  ]
    where
      apart : (k : String) → (k == name) ≡ true → (k == other) ≡ false
      apart k e = elim (Bool-cases (k == other)) [
        | inl f ↦ absurd (n (sym ((eq_iff k name).0 e) ∙ (eq_iff k other).0 f))
        | inr f ↦ f
      ]

  lookup-live : (name : String) (xs : List (String × A)) → lookup name (live xs) ≡ lookup name xs
  unfolding lookup live
  lookup-live name [] = refl
  lookup-live name ((k, a) ∷ rest) = elim (Bool-cases (k == name)) [
    | inl e ↦ rw e refl
    | inr e ↦ rw e (
        lookup-without k name (live rest) (λ same. cc (e, (eq_iff k name).1 same))
        ∙ lookup-live name rest)
  ]

module _ {A : Type 0} (P : String × A → Type 0) where
  All-live : (xs : List (String × A)) → All P xs → All P (live xs)
  unfolding live without
  All-live [] h = tt
  All-live ((k, a) ∷ rest) h =
      (h.0, All-keep P (λ entry. not (entry.0 == k)) (live rest) (All-live rest h.1))

All-longer :
    (n m : ℕ) (xs : List (String × ℕ))
    → n ≤ m
    → All (λ entry. entry.1 < n) xs
    → All (λ entry. entry.1 < m) xs
All-longer n m [] l h = tt
All-longer n m (x ∷ xs) l h = (omega (arith, h.0), All-longer n m xs l h.1)

-- Every place that is registered is in the store.
abbrev pub AreStored : {M : Type 0} → Registry M → Type 0
AreStored r = All (λ entry. entry.1 < length r.store) r.names

module _ {M : Type 0} where
  pub register-AreStored :
      (fresh : M) (names : List String) (r : Registry M)
      → AreStored r
      → AreStored (register fresh names r)
  unfolding register
  register-AreStored fresh [] r h = h
  register-AreStored fresh (name ∷ names) r h =
      register-AreStored fresh names
        (record { names = (name, length r.store) ∷ r.names; store = r.store ++ fresh ∷ [] })
        (
          omega (arith, length-append r.store (fresh ∷ [])),
          All-longer (length r.store) (length (r.store ++ fresh ∷ [])) r.names
              (omega (arith, length-append r.store (fresh ∷ []))) h,
        )

module _ {M S : Type 0} (show : M → S) where
  -- What is shown of a place.
  abbrev at_place : List M → Option ℕ → Option S
  at_place store none = none
  at_place store (some place) = Option.map show (get_elem? store place)

  lookup-entries_from :
      (name : String) (store : List M) (xs : List (String × ℕ))
      → All (λ entry. entry.1 < length store) xs
      → lookup name (entries_from show store xs) ≡ at_place store (lookup name xs)
  unfolding lookup entries_from
  lookup-entries_from name store [] h = refl
  lookup-entries_from name store ((k, place) ∷ rest) h =
      let (m, e) = get_elem?_of_lt store place h.0 in
      rw (e, entries_from)
        (elim (Bool-cases (k == name)) [
          | inl t ↦ rw (t, e) refl
          | inr t ↦ rw t (lookup-entries_from name store rest h.1)
        ])

  at_place-eq :
      (name : String) (r : Registry M)
      → at_place r.store (lookup name r.names) ≡ Option.map show (shown name r)
  unfolding shown
  at_place-eq name r = elim (Option-cases (lookup name r.names)) [
    | inl e ↦ rw (e, shown) refl
    | inr (place, e) ↦ rw (e, shown) refl
  ]

  -- What is listed under a name.
  pub lookup-entries :
      (name : String) (r : Registry M)
      → AreStored r
      → lookup name (entries show r) ≡ Option.map show (shown name r)
  unfolding entries
  lookup-entries name r h =
      lookup-entries_from name r.store (live r.names)
        (All-live (λ entry. entry.1 < length r.store) r.names h)
      ∙ ap (at_place r.store) (lookup-live name r.names)
      ∙ at_place-eq name r
