-- ===== src/Tools/Search/Laws.antt =====
-- Which files a glob finds, and how many.
use gm_agent.Prelude.{
  ◌<+>◌, ◌||◌, ℕ, zero, suc, ◌+◌, ◌<◌, String, Bool, true, false, not, ◌&&◌, List, [], ◌∷◌, ◌++◌,
  ◌≡◌, refl, ap, ◌∙◌, inl, inr, arith, leb, length, length-append, append-nil, append_assoc,
  if◌then◌else◌, Bool-cases,
}
use gm_agent.Prelude.Result.{value, failed}
use gm_agent.Prelude.Integers.{ℤ, pos, negsuc}
use gm_agent.Tools.Search.{
  positive_or, Visit, SearchLib, Found, add_match, take, glob_hits, match_double_star, glob_visit,
  glob_walk,
}

leb-true : (a b : ℕ) → a ≡ b → leb a b ≡ true
leb-true a b h = ground arith

leb-false : (a b : ℕ) → b < a → leb a b ≡ false
leb-false a b h = ground arith

-- What a walk has found, when its number is kept.
abbrev pub so_far : {A : Type 0} → List A → Bool → Found A
so_far ms stop = record { matches = ms; count = length ms; skip_all = stop }

abbrev pub cut_off : {A : Type 0} → ℕ → List A → Found A
cut_off max_results ms = so_far ms (leb max_results (length ms))

add_match-cut_off :
    {A : Type 0} (max_results : ℕ) (x : A) (ms : List A)
    → add_match max_results x (so_far ms false) ≡ cut_off max_results (ms ++ x ∷ [])
unfolding add_match
add_match-cut_off max_results x ms = rw (length-append ms (x ∷ [])) refl

module _ {W : Type 0} (lib : SearchLib W) (base_dir pattern : String) where
  -- The pattern matches the name of the file, or, as a regular expression, its whole path from the base;
  -- for this "**" becomes ".*", and then every "*" becomes "[^/]*".
  abbrev pub is_match : Visit → Bool
  is_match visit =
      lib.glob_match pattern (lib.base visit.path)
      || (elim (lib.compile
          ("^" <+> lib.replace_all (lib.replace_all pattern "**" ".*") "*" "[^/]*" <+> "$")) [
            | failed x ↦ false
            | value matches ↦ matches (lib.rel base_dir visit.path)
          ])

  -- The files that match, each with no regard to the others: what was visited without an error and is no
  -- directory.
  abbrev pub hit_paths : List Visit → List String
  hit_paths [] = []
  hit_paths (visit ∷ visits) =
      let rest = hit_paths visits in
      if not visit.failure && (not visit.is_dir && is_match visit)
      then lib.rel base_dir visit.path ∷ rest
      else rest

  glob_visit-eq :
      (max_results : ℕ) (visit : Visit) (found : Found String)
      → glob_visit lib base_dir pattern max_results visit found ≡ (
          if not visit.failure && (not visit.is_dir && is_match visit)
          then add_match max_results (lib.rel base_dir visit.path) found
          else found)
  unfolding glob_visit glob_hits match_double_star
  glob_visit-eq max_results visit found = ground arith

  -- The walk over `visits` goes on from `ms` until `max_results` are found.
  abbrev pub Walks : List Visit → ℕ → ℕ → List String → Type 0
  Walks visits max_results left ms =
      length ms + suc left ≡ max_results
      → glob_walk lib base_dir pattern max_results visits (so_far ms false)
        ≡ cut_off max_results (ms ++ take (suc left) (hit_paths visits))

  after_hit :
      (visits : List Visit) (max_results left : ℕ) (ms : List String) (x : String)
      → ((l : ℕ) (ns : List String) → Walks visits max_results l ns)
      → length ms + suc left ≡ max_results
      → (if (add_match max_results x (so_far ms false)).skip_all
          then add_match max_results x (so_far ms false)
          else glob_walk lib base_dir pattern max_results visits
              (add_match max_results x (so_far ms false)))
        ≡ cut_off max_results (ms ++ take (suc left) (x ∷ hit_paths visits))
  unfolding take
  after_hit visits max_results zero ms x ih room =
      rw
        (
          add_match-cut_off max_results x ms,
          length-append ms (x ∷ []),
          leb-true max_results (length ms + 1) (omega (arith, room)),
        )
        refl
  after_hit visits max_results (suc left) ms x ih room =
      rw
        (
          add_match-cut_off max_results x ms,
          leb-false max_results (length (ms ++ x ∷ []))
              (omega (arith, room, length-append ms (x ∷ []))),
        )
        (ih left (ms ++ x ∷ []) (omega (arith, room, length-append ms (x ∷ [])))
          ∙ ap (λ (ns : List String). cut_off max_results ns)
              (append_assoc ms (x ∷ []) (take (suc left) (hit_paths visits))))

  pub glob_walk-from :
      (visits : List Visit) (max_results left : ℕ) (ms : List String)
      → Walks visits max_results left ms
  unfolding glob_walk add_match take
  glob_walk-from [] max_results left ms room =
      rw (append-nil ms, leb-false max_results (length ms) (omega (arith, room))) refl
  glob_walk-from (visit ∷ visits) max_results left ms room =
      elim (Bool-cases (not visit.failure && (not visit.is_dir && is_match visit))) [
        | inr missed ↦
            rw (glob_walk, glob_visit-eq max_results visit (so_far ms false), missed)
              (glob_walk-from visits max_results left ms room)
        | inl hit ↦
            rw (glob_walk, glob_visit-eq max_results visit (so_far ms false), hit)
              (after_hit visits max_results left ms (lib.rel base_dir visit.path)
                (λ l ns. glob_walk-from visits max_results l ns) room)
      ]

pub positive_or-suc : (d : ℕ) (z : ℤ) → (k : ℕ) × (positive_or (suc d) z ≡ suc k)
unfolding positive_or
positive_or-suc d (pos zero) = (d, refl)
positive_or-suc d (pos (suc n)) = (n, refl)
positive_or-suc d (negsuc n) = (d, refl)
