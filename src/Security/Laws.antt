-- ===== src/Security/Laws.antt =====
-- What a path that ValidatePath accepts is sure of, and that nothing else is asked of it.
use gm_agent.Prelude.{
  ◌↔◌, String, Bool, true, false, ◌||◌, none, List, [], ◌∷◌, ◌++◌, ◌≡◌, ◌⊎◌, refl, ap, inl, inr,
  any, arith, All, Bool-cases, some-none, eq_iff, ◌==◌,
}
use gm_agent.Prelude.Trim.{starts_with_self}
use gm_agent.Prelude.Result.{value, Reply-cases}
use text.Mathlib.Text.{starts_with}
use gm_agent.Security.{
  PathLib, PathValidator, suspicious_patterns, contains_suspicious_pattern, absolute_of, in_allowed,
  validate_path,
}

or-false : (a b : Bool) → (a || b) ≡ false → (a ≡ false) × (b ≡ false)
or-false a b h = ground arith

any-All :
    (p : String → Bool) (xs : List String) → any p xs ≡ false → All (λ (x : String). p x ≡ false) xs
unfolding any
any-All p [] h = tt
any-All p (x ∷ xs) h = let (first, rest) = or-false (p x) (any p xs) h in (first, any-All p xs rest)

All-any :
    (p : String → Bool) (xs : List String) → All (λ (x : String). p x ≡ false) xs → any p xs ≡ false
unfolding any
All-any p [] h = refl
All-any p (x ∷ xs) (first, rest) = rw (first, All-any p xs rest) refl

-- What no accepted path may contain: the parent directory inside it, the directories of the system and
-- of the administrator, key files, and the places of secrets.
abbrev pub forbidden : List String
forbidden =
    "/../" ∷ "/etc/" ∷ "/proc/" ∷ "/sys/" ∷ "/dev/" ∷ "/root/" ∷ ".ssh/" ∷ ".aws/" ∷ ".gcp/"
    ∷ "id_rsa" ∷ "id_dsa" ∷ "id_ecdsa" ∷ "id_ed25519" ∷ ".env" ∷ "credentials" ∷ "secrets" ∷ []

-- Some entry of the list is where the text begins.
abbrev pub BeginsWithOne : List String → String → Type 0
BeginsWithOne allowed relative =
    (before : List String) × (p : String) × (after : List String) × (allowed ≡ before ++ p ∷ after)
    × (starts_with relative p ≡ true)

begins_or_is : (s p : String) → (starts_with s p || s == p) ≡ starts_with s p
begins_or_is s p = elim (Bool-cases (s == p)) [
  | inr other ↦ ground arith
  | inl same ↦ let e : s ≡ p = ground (arith, eq_iff s p) in rw (e, starts_with_self p) refl
]

module _ (relative : String) where
  any-BeginsWithOne :
      (ps : List String)
      → any (λ q. starts_with relative q || relative == q) ps ≡ true
      → BeginsWithOne ps relative
  unfolding any
  any-BeginsWithOne [] h = absurd (cc h)
  any-BeginsWithOne (p ∷ ps) h = elim (Bool-cases (starts_with relative p)) [
    | inl begun ↦ ([], p, ps, refl, begun)
    | inr apart ↦
        let (before, q, after, e, begun) =
          any-BeginsWithOne ps (rw (begins_or_is relative p, apart) at h) in
        (p ∷ before, q, after, ap (λ (l : List String). p ∷ l) e, begun)
  ]

  BeginsWithOne-any :
      (before : List String) (p : String) (after : List String)
      → starts_with relative p ≡ true
      → any (λ q. starts_with relative q || relative == q) (before ++ p ∷ after) ≡ true
  unfolding any
  BeginsWithOne-any [] p after begun = rw (begun) refl
  BeginsWithOne-any (b ∷ before) p after begun =
      ground (arith, BeginsWithOne-any before p after begun)

module _ (lib : PathLib) (v : PathValidator) where
  in_allowed-BeginsWithOne :
      (allowed : List String) (relative : String)
      → in_allowed lib allowed relative ≡ true
      → (allowed ≡ []) ⊎ BeginsWithOne allowed relative
  unfolding in_allowed
  in_allowed-BeginsWithOne [] relative h = inl refl
  in_allowed-BeginsWithOne (p ∷ ps) relative h = inr (any-BeginsWithOne relative (p ∷ ps) h)

  BeginsWithOne-in_allowed :
      (before : List String) (p : String) (after : List String) (relative : String)
      → starts_with relative p ≡ true
      → in_allowed lib (before ++ p ∷ after) relative ≡ true
  unfolding in_allowed
  BeginsWithOne-in_allowed [] p after relative begun = BeginsWithOne-any relative [] p after begun
  BeginsWithOne-in_allowed (b ∷ before) p after relative begun =
      BeginsWithOne-any relative (b ∷ before) p after begun

  -- Below the working directory as filepath.Rel says, with none of the forbidden texts in the clean
  -- path in lower case, and below one of the allowed paths where there are any.
  abbrev pub IsSafe : String → Type 0
  IsSafe path =
      (relative : String) × (lib.rel v.work_dir (absolute_of lib v (lib.clean path))
        ≡ value relative)
      × (starts_with relative ".." ≡ false)
      × All (λ (p : String). lib.contains (lib.to_lower (lib.clean path)) p ≡ false) forbidden
      × ((v.allowed_paths ≡ []) ⊎ BeginsWithOne v.allowed_paths relative)

  validate_path_sound : (path : String) → validate_path lib v path ≡ none → IsSafe path
  unfolding validate_path contains_suspicious_pattern suspicious_patterns
  validate_path_sound path h =
      elim (Reply-cases (lib.rel v.work_dir (absolute_of lib v (lib.clean path)))) [
        | inr (x, e) ↦ absurd (some-none (rw (e, validate_path) at h))
        | inl (relative, e) ↦ elim (Bool-cases (starts_with relative "..")) [
          | inl up ↦ absurd (some-none (rw (e, up, validate_path) at h))
          | inr down ↦ elim (Bool-cases (contains_suspicious_pattern lib (lib.clean path))) [
            | inl bad ↦ absurd (some-none (rw (e, down, bad, validate_path) at h))
            | inr fine ↦ elim (Bool-cases (in_allowed lib v.allowed_paths relative)) [
              | inr other ↦ absurd (some-none (rw (e, down, fine, other, validate_path) at h))
              | inl inside ↦ (
                relative,
                e,
                down,
                any-All (lib.contains (lib.to_lower (lib.clean path))) forbidden fine,
                in_allowed-BeginsWithOne v.allowed_paths relative inside,
              )
            ]
          ]
        ]
      ]

  inside :
      (relative : String)
      → (v.allowed_paths ≡ []) ⊎ BeginsWithOne v.allowed_paths relative
      → in_allowed lib v.allowed_paths relative ≡ true
  unfolding in_allowed
  inside relative (inl e) = rw (e, in_allowed) refl
  inside relative (inr (before, p, after, e, begun)) =
      rw (e) (BeginsWithOne-in_allowed before p after relative begun)

  validate_path_complete : (path : String) → IsSafe path → validate_path lib v path ≡ none
  unfolding validate_path contains_suspicious_pattern suspicious_patterns
  validate_path_complete path (relative, e, down, clean, allowed) =
      let fine : contains_suspicious_pattern lib (lib.clean path) ≡ false =
        All-any (lib.contains (lib.to_lower (lib.clean path))) forbidden clean in
      rw (e, down, fine, inside relative allowed, validate_path) refl

  -- ValidatePath accepts a path exactly if filepath.Rel gives it a relative path from the working
  -- directory that does not begin with "..", its clean form has in lower case none of the forbidden
  -- texts, and the relative path begins with one of the allowed paths, unless none is listed.
  pub validate_path-Safe : (path : String) → (validate_path lib v path ≡ none) ↔ IsSafe path
  validate_path-Safe path = (validate_path_sound path, validate_path_complete path)
