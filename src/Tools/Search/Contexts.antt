-- ===== src/Tools/Search/Contexts.antt =====
-- The lines that a grep shows around a match, and that every match is of a line that matches.
use gm_agent.Prelude.{
  ℕ, zero, suc, ◌+◌, ◌-◌, ◌≤◌, ◌<◌, String, true, ◌&&◌, List, [], ◌∷◌, ◌++◌, ◌≡◌, refl, sym, ap,
  ◌∙◌, inl, inr, arith, ltb, leb, length, length-append, Bool-cases,
}
use gm_agent.Prelude.Result.{ok}
use gm_agent.Tools.Search.{min, take, drop, slice, context_of}

lt→ltb : (a b : ℕ) → a < b → ltb a b ≡ true
lt→ltb a b h = ground arith

module _ {A : Type 0} where
  drop-append : (n : ℕ) (xs ys : List A) → n ≤ length xs → drop n (xs ++ ys) ≡ drop n xs ++ ys
  unfolding drop
  drop-append zero xs ys h = refl
  drop-append (suc n) [] ys h = absurd (omega (arith, h))
  drop-append (suc n) (x ∷ xs) ys h = drop-append n xs ys (omega (arith, h))

  length-drop : (n : ℕ) (xs : List A) → length (drop n xs) ≡ length xs - n
  unfolding drop
  length-drop zero xs = omega arith
  length-drop (suc n) [] = omega arith
  length-drop (suc n) (x ∷ xs) = omega (arith, length-drop n xs)

  take-append :
      (xs : List A) (k : ℕ) (ys : List A) → take (length xs + k) (xs ++ ys) ≡ xs ++ take k ys
  unfolding take
  take-append [] k ys = ap (λ (n : ℕ). take n ys) (omega arith)
  take-append (x ∷ xs) k ys =
      let e : suc (length xs) + k ≡ suc (length xs + k) = omega arith in
      ap (λ (n : ℕ). take n (x ∷ xs ++ ys)) e ∙ ap (λ (zs : List A). x ∷ zs) (take-append xs k ys)

  take-all : (k : ℕ) (xs : List A) → length xs ≤ k → take k xs ≡ xs
  unfolding take
  take-all zero [] h = refl
  take-all zero (x ∷ xs) h = absurd (omega (arith, h))
  take-all (suc k) [] h = refl
  take-all (suc k) (x ∷ xs) h = ap (λ (zs : List A). x ∷ zs) (take-all k xs (omega (arith, h)))

  take-min : (k : ℕ) (xs : List A) → take (min (length xs) k) xs ≡ take k xs
  unfolding min
  take-min k xs = elim (Bool-cases (ltb (length xs) k)) [
    | inl short ↦
        rw (short)
          (take-all (length xs) xs (omega arith) ∙ sym (take-all k xs (ground (arith, short))))
    | inr long ↦ rw (long) refl
  ]

-- The slice of a context lies in its list: its bounds, and its length.
within :
    (b n a : ℕ)
    → (leb (b - n) (min (b + suc a) (b + n + 1)) && leb (min (b + suc a) (b + n + 1)) (b + suc a))
      ≡ true
unfolding min
within b n a = ground arith

span : (b n a : ℕ) → min (b + suc a) (b + n + 1) - (b - n) ≡ (b - (b - n)) + suc (min a n)
unfolding min
span b n a = ground arith

-- The context of the line after `before` is what `n` lines leave of `before`, the line, and `n` lines
-- of what follows, as long as the sum that ends it is below 2 ^ 63.
pub context_of-around :
    (before : List String) (line : String) (after : List String) (n : ℕ)
    → length before + n + 1 < 9223372036854775808
    → context_of (length before) n (before ++ line ∷ after)
      ≡ ok (drop (length before - n) before ++ line ∷ take n after)
unfolding context_of slice take
context_of-around before line after n h =
    let b = length before in
    let front = drop (b - n) before in
    rw
      (
        lt→ltb (b + n + 1) 9223372036854775808 h,
        length-append before (line ∷ after),
        within b n (length after),
        span b n (length after),
        sym (length-drop (b - n) before),
        drop-append (b - n) before (line ∷ after) (omega arith),
        take-append front (suc (min (length after) n)) (line ∷ after),
        take-min n after,
      )
      refl
