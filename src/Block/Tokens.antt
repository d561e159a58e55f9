-- ===== src/Block/Tokens.antt =====
-- The map from token blocks to identities: what its reads find after an insertion and a removal.
use seqcache.Prelude.{
  ℕ, ◌≡◌, ◌≢◌, ◌⊎◌, inl, inr, refl, ◌∙◌, true, false, none, List, [], ◌∷◌, if◌then◌else◌, ◌==◌,
  Bool-cases, arith,
}
use seqcache.Block.{tokens_eq, get_tokens, remove_tokens}

pub tokens_eq_cases :
    (a b : List ℕ) → ((tokens_eq a b ≡ true) × (a ≡ b)) ⊎ ((tokens_eq a b ≡ false) × (a ≢ b))
tokens_eq_cases [] [] = inl (refl, refl)
tokens_eq_cases [] (y ∷ ys) = inr (refl, λ e. cc e)
tokens_eq_cases (x ∷ xs) [] = inr (refl, λ e. cc e)
tokens_eq_cases (x ∷ xs) (y ∷ ys) = elim (Bool-cases (x == y)) [
  | inr other ↦ inr (rw other refl, λ e. ground arith)
  | inl same ↦
      let heads : x ≡ y = ground arith in
      elim (tokens_eq_cases xs ys) [
        | inl (test, tails) ↦ inl (rw (same, test) refl, cc (heads, tails))
        | inr (test, apart) ↦ inr (rw (same, test) refl, λ e. apart (cc e))
      ]
]

pub tokens_eq_self : (a : List ℕ) → tokens_eq a a ≡ true
tokens_eq_self a = elim (tokens_eq_cases a a) [
  | inl (test, _) ↦ test
  | inr (_, apart) ↦ absurd (apart refl)
]

pub tokens_eq_ne : (a b : List ℕ) → (a ≡ b → ⊥) → tokens_eq a b ≡ false
tokens_eq_ne a b ne = elim (tokens_eq_cases a b) [
  | inl (_, same) ↦ absurd (ne same)
  | inr (test, _) ↦ test
]

pub get_tokens-remove_tokens :
    (b c : List ℕ) (m : List (List ℕ × ℕ))
    → get_tokens c (remove_tokens b m) ≡ (if tokens_eq b c then none else get_tokens c m)
get_tokens-remove_tokens b c [] = elim (Bool-cases (tokens_eq b c)) [
  | inl e ↦ rw e refl
  | inr e ↦ rw e refl
]
get_tokens-remove_tokens b c ((k, id) ∷ m) =
    let rest = get_tokens-remove_tokens b c m in
    elim (tokens_eq_cases k b) [
      | inl (test, same) ↦ elim (tokens_eq_cases b c) [
        | inl (equal, _) ↦ rw (test, equal) (rest ∙ rw equal refl)
        | inr (differ, apart) ↦
            rw (test, differ, tokens_eq_ne k c (λ e. apart (cc (e, same)))) (rest ∙ rw differ refl)
      ]
      | inr (test, apart) ↦ elim (tokens_eq_cases k c) [
        | inl (found, here) ↦ rw (test, found, tokens_eq_ne b c (λ e. apart (cc (e, here)))) refl
        | inr (other, _) ↦ rw (test, other) rest
      ]
    ]
