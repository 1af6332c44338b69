-- ===== src/Base/Unique.antt =====
-- Membership by decidable equality, ordered lists without duplicates (`dict.fromkeys`), and the least
-- element by a rank (`min(..., key=...)`).
use Prim.Native.Nat.{ℕ, ◌≤◌}
use mathlib.Core.Path.{◌≡◌, refl}
use mathlib.Core.Logic.{◌↔◌, ◌⊎◌, inl, inr}
use mathlib.Core.Bool.{Bool, true, false, ◌||◌}
use mathlib.Core.List.{List, [], ◌∷◌, ◌++◌}
use native.Mathlib.Omega.{arith}
use langgraph_refund_agent.Base.Tests.{ltb, if◌then◌else◌}
use langgraph_refund_agent.Base.Lists.{All, all}

module _ {ℓ} {A : Type ℓ} (dec : Discrete A) where
  -- `a in xs`
  unfoldable pub mem : A → List A → Bool
  mem a [] = false
  mem a (x ∷ xs) = elim (dec a x) [ yes _ ↦ true | no _ ↦ mem a xs ]

  -- The elements not seen yet, at their first occurrences.
  pub unique_after : List A → List A → List A
  unique_after seen [] = []
  unique_after seen (x ∷ xs) = elim (mem x seen) [
    | true ↦ unique_after seen xs
    | false ↦ x ∷ unique_after (x ∷ seen) xs
  ]

  unfoldable pub unique : List A → List A
  unfolding unique_after
  unique xs = unique_after [] xs

  -- No element occurs twice.
  abbrev pub Distinct : List A → Type 0
  Distinct [] = Unit
  Distinct (x ∷ xs) = (mem x xs ≡ false) × Distinct xs

  pub mem-append : (a : A) (xs ys : List A) → mem a (xs ++ ys) ≡ (mem a xs || mem a ys)
  unfolding mem
  mem-append a [] ys = refl
  mem-append a (x ∷ xs) ys =
      elim (dec a x)
        as (λ d.
          (elim d [ yes _ ↦ true | no _ ↦ mem a (xs ++ ys) ])
          ≡ (elim d [ yes _ ↦ true | no _ ↦ mem a xs ] || mem a ys)) [
            | yes _ ↦ refl
            | no _ ↦ mem-append a xs ys
          ]

  pub mem-cons : (a x : A) (xs : List A) → (mem a (x ∷ xs) ≡ true) ↔ ((a ≡ x) ⊎ (mem a xs ≡ true))
  unfolding mem
  mem-cons a x xs =
      elim (dec a x)
        as (λ d.
          (elim d [ yes _ ↦ true | no _ ↦ mem a xs ] ≡ true) ↔ ((a ≡ x) ⊎ (mem a xs ≡ true))) [
            | yes e ↦ (λ _. inl e, λ _. refl)
            | no n ↦ (λ h. inr h, elim [ inl e ↦ absurd (n e) | inr h ↦ h ])
          ]

  -- What a test holds of all elements it holds of a member.
  pub all-mem :
      (p : A → Bool) (a : A) (xs : List A) → all p xs ≡ true → mem a xs ≡ true → p a ≡ true
  all-mem p a [] h m = unfold mem in ground arith
  all-mem p a (x ∷ xs) h m =
      let here : (a ≡ x) → p a ≡ true = λ e. rw e (ground arith) in
      ground (arith, here, mem-cons a x xs, all-mem p a xs)

  pub mem-unique_after :
      (a : A) (seen xs : List A)
      → (mem a (unique_after seen xs) ≡ true) ↔ ((mem a xs ≡ true) × (mem a seen ≡ false))
  unfolding unique_after
  mem-unique_after a seen [] = unfold mem in ground arith
  mem-unique_after a seen (x ∷ xs) = ground (
    arith,
    mem-cons a x xs,
    mem-cons a x seen,
    mem-cons a x (unique_after (x ∷ seen) xs),
    mem-unique_after a seen xs,
    mem-unique_after a (x ∷ seen) xs,
  )

  -- Nothing is lost and nothing is added.
  pub mem-unique : (a : A) (xs : List A) → mem a (unique xs) ≡ mem a xs
  unfolding unique
  mem-unique a xs = unfold mem in ground (arith, mem-unique_after a [] xs)

  unique_after-Distinct : (seen xs : List A) → Distinct (unique_after seen xs)
  unfolding unique_after
  unique_after-Distinct seen [] = tt
  unique_after-Distinct seen (x ∷ xs) = ground (
    arith,
    mem-cons x x seen,
    mem-unique_after x (x ∷ seen) xs,
    unique_after-Distinct seen xs,
    unique_after-Distinct (x ∷ seen) xs,
  )

  pub unique-Distinct : (xs : List A) → Distinct (unique xs)
  unfolding unique
  unique-Distinct xs = unique_after-Distinct [] xs

module _ {ℓ} {A : Type ℓ} (rank : A → ℕ) where
  -- Python's `min` keeps the first of several least elements.
  unfoldable pub min_from : A → List A → A
  min_from best [] = best
  min_from best (x ∷ xs) = min_from (if ltb (rank x) (rank best) then x else best) xs

  pub min_from-le :
      (best : A) (xs : List A)
      → (rank (min_from best xs) ≤ rank best) × All (λ x. rank (min_from best xs) ≤ rank x) xs
  unfolding min_from
  min_from-le best [] = (omega arith, tt)
  min_from-le best (x ∷ xs) =
      let b = if ltb (rank x) (rank best) then x else best in
      let ih = min_from-le b xs in
      let here : (rank b ≤ rank best) × (rank b ≤ rank x) = ground arith in
      (omega (arith, ih.0, here.0), (omega (arith, ih.0, here.1), ih.1))

  pub min_from-mem :
      (dec : Discrete A) (best : A) (xs : List A) → mem dec (min_from best xs) (best ∷ xs) ≡ true
  unfolding min_from
  min_from-mem dec best [] = unfold mem in ground arith
  min_from-mem dec best (x ∷ xs) =
      let b = if ltb (rank x) (rank best) then x else best in
      let chosen : (b ≡ x) ⊎ (b ≡ best) = ground arith in
      ground (
        arith,
        chosen,
        mem-cons dec (min_from b xs) b xs,
        mem-cons dec (min_from b xs) best (x ∷ xs),
        mem-cons dec (min_from b xs) x xs,
        min_from-mem dec b xs,
      )
