-- ===== src/Base/Assoc.antt =====
-- `std::map` and `std::unordered_map` as association lists in their order of iteration. The standard
-- leaves the order of an `unordered_map` open; here a new key goes to the end.
use Prim.Native.Nat.{ℕ}
use mathlib.Core.Path.{◌≡◌, refl, sym, ◌∙◌, subst, subst₂}
use mathlib.Core.Logic.{◌↔◌, inl, inr}
use mathlib.Core.Bool.{Bool, true, false}
use mathlib.Core.List.{List, [], ◌∷◌}
use mathlib.Core.Option.{Option, none, some}
use mathlib.Core.Option
use native.Mathlib.Omega.{arith}
use irc_chat.Base.Tests.{Bool-cases, ◌==◌, ==_iff, if◌then◌else◌}
use irc_chat.Base.Text.{Str, str_eq, str_eq_iff}

-- Equality of keys.
pub record Eq {ℓ} (A : Type ℓ) : Type ℓ where
  pub beq : A → A → Bool
  pub beq_iff : (a b : A) → (beq a b ≡ true) ↔ (a ≡ b)

instance abbrev pub nat_eq : Eq ℕ
nat_eq = record { beq = ◌==◌; beq_iff = ==_iff }

instance abbrev pub text_eq : Eq Str
text_eq = record { beq = str_eq; beq_iff = str_eq_iff }

abbrev pub Map {ℓ κ} : Type ℓ → Type κ → Type (ℓ ⊔ κ)
Map K V = List (K × V)

module _ {ℓ κ} {K : Type ℓ} ⦃e : Eq K⦄ {V : Type κ} where
  unfoldable pub lookup : K → Map K V → Option V
  lookup k [] = none
  lookup k ((j, v) ∷ m) = if e.beq j k then some v else lookup k m

  unfoldable pub contains : K → Map K V → Bool
  contains k [] = false
  contains k ((j, v) ∷ m) = if e.beq j k then true else contains k m

  -- `emplace` and `insert`: a key that is there keeps its value.
  unfoldable pub insert : K → V → Map K V → Map K V
  insert k v [] = (k, v) ∷ []
  insert k v ((j, w) ∷ m) = if e.beq j k then (j, w) ∷ m else (j, w) ∷ insert k v m

  -- A write through a reference to the value of `k`.
  unfoldable pub update : K → (V → V) → Map K V → Map K V
  update k f [] = []
  update k f ((j, w) ∷ m) = if e.beq j k then (j, f w) ∷ m else (j, w) ∷ update k f m

  unfoldable pub erase : K → Map K V → Map K V
  erase k [] = []
  erase k ((j, w) ∷ m) = if e.beq j k then erase k m else (j, w) ∷ erase k m

  pub lookup-insert :
      (k j : K) (v : V) (m : Map K V)
      → lookup j (insert k v m) ≡ (
          if e.beq k j then (elim (lookup k m) [ none ↦ some v | some w ↦ some w ]) else lookup j m)
  unfolding lookup insert
  lookup-insert k j v [] = ground arith
  lookup-insert k j v ((i, w) ∷ m) =
      ground (arith, e.beq_iff k j, e.beq_iff i k, e.beq_iff i j, lookup-insert k j v m)

  pub lookup-update :
      (k j : K) (f : V → V) (m : Map K V)
      → lookup j (update k f m) ≡ (if e.beq k j then Option.map f (lookup j m) else lookup j m)
  unfolding lookup update
  lookup-update k j f [] = ground arith
  lookup-update k j f ((i, w) ∷ m) =
      ground (arith, e.beq_iff k j, e.beq_iff i k, e.beq_iff i j, lookup-update k j f m)

  pub lookup-erase :
      (k j : K) (m : Map K V) → lookup j (erase k m) ≡ (if e.beq k j then none else lookup j m)
  unfolding lookup erase
  lookup-erase k j [] = ground arith
  lookup-erase k j ((i, w) ∷ m) =
      ground (arith, e.beq_iff k j, e.beq_iff i k, e.beq_iff i j, lookup-erase k j m)

  pub contains-lookup :
      (k : K) (m : Map K V) → contains k m ≡ (elim (lookup k m) [ none ↦ false | some _ ↦ true ])
  unfolding lookup contains
  contains-lookup k [] = refl
  contains-lookup k ((j, w) ∷ m) = ground (arith, contains-lookup k m)

  pub contains-insert :
      (k j : K) (v : V) (m : Map K V)
      → contains j (insert k v m) ≡ (if e.beq k j then true else contains j m)
  unfolding insert contains
  contains-insert k j v [] = ground arith
  contains-insert k j v ((i, w) ∷ m) =
      ground (arith, e.beq_iff k j, e.beq_iff i k, e.beq_iff i j, contains-insert k j v m)

  pub contains-update :
      (k j : K) (f : V → V) (m : Map K V) → contains j (update k f m) ≡ contains j m
  unfolding update contains
  contains-update k j f [] = refl
  contains-update k j f ((i, w) ∷ m) = ground (arith, contains-update k j f m)

  pub contains-erase :
      (k j : K) (m : Map K V) → contains j (erase k m) ≡ (if e.beq k j then false else contains j m)
  unfolding erase contains
  contains-erase k j [] = ground arith
  contains-erase k j ((i, w) ∷ m) =
      ground (arith, e.beq_iff k j, e.beq_iff i k, e.beq_iff i j, contains-erase k j m)

  pub update-update :
      (k : K) (f g : V → V) (m : Map K V) → update k f (update k g m) ≡ update k (λ v. f (g v)) m
  unfolding update
  update-update k f g [] = refl
  update-update k f g ((i, w) ∷ m) = ground (arith, update-update k f g m)

  pub erase-update : (k : K) (f : V → V) (m : Map K V) → erase k (update k f m) ≡ erase k m
  unfolding erase update
  erase-update k f [] = refl
  erase-update k f ((i, w) ∷ m) = ground (arith, erase-update k f m)

-- `P` holds of every entry.
abbrev pub AllIn {ℓ κ μ} : {K : Type ℓ} {V : Type κ} → (K → V → Type μ) → Map K V → Type μ
AllIn P [] = Unit
AllIn P ((k, v) ∷ m) = P k v × AllIn P m

module _ {ℓ κ μ} {K : Type ℓ} ⦃e : Eq K⦄ {V : Type κ} (P : K → V → Type μ) where
  pub AllIn-lookup : (k : K) (v : V) (m : Map K V) → AllIn P m → lookup k m ≡ some v → P k v
  unfolding lookup
  AllIn-lookup k v [] h q = cc
  AllIn-lookup k v ((j, w) ∷ m) h q = elim (Bool-cases (e.beq j k)) [
    | inl hit ↦ subst₂ P ((e.beq_iff j k).0 hit) (ground arith) h.0
    | inr miss ↦ AllIn-lookup k v m h.1 (rw miss at q)
  ]

  pub AllIn-insert : (k : K) (v : V) (m : Map K V) → P k v → AllIn P m → AllIn P (insert k v m)
  unfolding insert
  AllIn-insert k v [] p h = (p, h)
  AllIn-insert k v ((j, w) ∷ m) p h = elim (Bool-cases (e.beq j k)) [
    | inl hit ↦ rw hit h
    | inr miss ↦ rw miss (h.0, AllIn-insert k v m p h.1)
  ]

  pub AllIn-update :
      (k : K) (f : V → V) (m : Map K V)
      → ((v : V) → lookup k m ≡ some v → P k v → P k (f v))
      → AllIn P m
      → AllIn P (update k f m)
  unfolding update lookup
  AllIn-update k f [] step h = h
  AllIn-update k f ((j, w) ∷ m) step h = elim (Bool-cases (e.beq j k)) [
    | inl hit ↦
        let same = (e.beq_iff j k).0 hit in
        rw hit (
          subst (λ x. P x (f w)) (sym same)
              (step w (rw (hit, lookup)) (subst (λ x. P x w) same h.0)),
          h.1,
        )
    | inr miss ↦ rw miss (h.0, AllIn-update k f m (λ v q. step v (rw (miss, lookup) q)) h.1)
  ]

  pub AllIn-erase : (k : K) (m : Map K V) → AllIn P m → AllIn P (erase k m)
  unfolding erase
  AllIn-erase k [] h = h
  AllIn-erase k ((j, w) ∷ m) h = elim (Bool-cases (e.beq j k)) [
    | inl hit ↦ rw hit (AllIn-erase k m h.1)
    | inr miss ↦ rw miss (h.0, AllIn-erase k m h.1)
  ]

-- A map holds a key once.
module _ {ℓ κ} {K : Type ℓ} ⦃e : Eq K⦄ {V : Type κ} where
  abbrev pub Distinct : Map K V → Type 0
  Distinct [] = Unit
  Distinct ((k, v) ∷ m) = (contains k m ≡ false) × Distinct m

  pub Distinct-insert : (k : K) (v : V) (m : Map K V) → Distinct m → Distinct (insert k v m)
  unfolding insert contains
  Distinct-insert k v [] h = (refl, tt)
  Distinct-insert k v ((j, w) ∷ m) h = elim (Bool-cases (e.beq j k)) [
    | inl hit ↦ rw hit h
    | inr miss ↦ rw miss (
      contains-insert k j v m ∙ ground (arith, e.beq_iff k j, e.beq_iff j k, h.0),
      Distinct-insert k v m h.1,
    )
  ]

  pub Distinct-update : (k : K) (f : V → V) (m : Map K V) → Distinct m → Distinct (update k f m)
  unfolding update
  Distinct-update k f [] h = h
  Distinct-update k f ((j, w) ∷ m) h = elim (Bool-cases (e.beq j k)) [
    | inl hit ↦ rw hit h
    | inr miss ↦ rw miss (contains-update k j f m ∙ h.0, Distinct-update k f m h.1)
  ]

  pub Distinct-erase : (k : K) (m : Map K V) → Distinct m → Distinct (erase k m)
  unfolding erase
  Distinct-erase k [] h = h
  Distinct-erase k ((j, w) ∷ m) h = elim (Bool-cases (e.beq j k)) [
    | inl hit ↦ rw hit (Distinct-erase k m h.1)
    | inr miss ↦ rw miss (contains-erase k j m ∙ ground (arith, h.0), Distinct-erase k m h.1)
  ]
