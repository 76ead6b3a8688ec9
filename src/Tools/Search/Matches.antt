-- ===== src/Tools/Search/Matches.antt =====
-- A grep ends without a panic, with no more matches than it may report, each of a line that matches.
use gm_agent.Prelude.{
  ℕ, zero, suc, ◌+◌, ◌≤◌, ◌<◌, String, Bool, true, false, ◌||◌, List, [], ◌∷◌, ◌++◌, ◌≡◌, refl, sym,
  ap, ◌∙◌, inl, inr, arith, length, length-append, append_assoc, All, All-append, if◌then◌else◌,
  Bool-cases,
}
use gm_agent.Prelude.Text.{split_lines}
use gm_agent.Prelude.Result.{Result, ok, value, Reply-cases}
use gm_agent.Prelude.Integers.{ℤ, pos, negsuc}
use gm_agent.Tools.Search.{
  GrepArgs, GrepMatch, Visit, SearchLib, Found, nothing, add_match, positive_or, text_or,
  context_for, is_binary_content, grep_lines, grep_visit, grep_walk,
}
use gm_agent.Tools.Search.Contexts.{context_of-around}

abbrev pub max_int : ℕ
max_int = 9223372036854775807

context_for-ok :
    (before : List String) (line : String) (after : List String) (z : ℤ)
    → length before + positive_or 0 z < max_int
    → (context : List String) × (context_for (length before) z (before ++ line ∷ after)
        ≡ ok context)
unfolding context_for positive_or
context_for-ok before line after (pos zero) h = ([], refl)
context_for-ok before line after (pos (suc n)) h =
    (_, context_of-around before line after (suc n) (omega (arith, h)))
context_for-ok before line after (negsuc n) h = ([], refl)

context_at :
    (lines : List String) (i : ℕ) (before : List String) (line : String) (after : List String)
    (z : ℤ)
    → lines ≡ before ++ line ∷ after
    → i ≡ length before
    → length lines + positive_or 0 z < max_int
    → (context : List String) × (context_for i z lines ≡ ok context)
context_at lines i before line after z split at small =
    rw (at, split)
      (context_for-ok before line after z (
        omega (
          arith,
          small,
          ap (λ (xs : List String). length xs) split,
          length-append before (line ∷ after),
        )))

module _ (hits : String → Bool) (max_results : ℕ) where
  -- At most `max_results` matches, all of lines that match; fewer while the walk goes on.
  pub record Within (found : Found GrepMatch) : Type 0 where
    pub counted : found.count ≡ length found.matches
    pub bounded : found.count ≤ max_results
    pub goes_on : found.skip_all ≡ false → found.count < max_results
    pub matching : All (λ (m : GrepMatch). hits m.line ≡ true) found.matches

  add_match-Within :
      (m : GrepMatch) (found : Found GrepMatch)
      → hits m.line ≡ true
      → Within found
      → found.count < max_results
      → Within (add_match max_results m found)
  unfolding add_match
  add_match-Within m found hit h room = record {
    counted = omega (arith, h.counted, length-append found.matches (m ∷ []));
    bounded = omega (arith, room);
    goes_on = λ on. ground (arith, on);
    matching =
        All-append (λ (x : GrepMatch). hits x.line ≡ true) found.matches (m ∷ []) h.matching
          (hit, tt);
  }

  -- The result is there, and is in the bounds.
  abbrev pub Ends : Result (Found GrepMatch) → Type 0
  Ends result = (end : Found GrepMatch) × (result ≡ ok end) × Within end

  next-Ends :
      (stop : Bool) (next : Found GrepMatch) (rest : Found GrepMatch → Result (Found GrepMatch))
      → Within next
      → (stop ≡ false → Ends (rest next))
      → Ends (if stop then ok next else rest next)
  next-Ends true next rest h on = (next, refl, h)
  next-Ends false next rest h on = on refl

  grep_lines-Ends :
      (args : GrepArgs) (file : String) (lines before rest : List String) (i : ℕ)
      (found : Found GrepMatch)
      → lines ≡ before ++ rest
      → i ≡ length before
      → length lines + positive_or 0 args.context_lines < max_int
      → Within found
      → found.count < max_results
      → Ends (grep_lines hits args max_results file lines i rest found)
  unfolding grep_lines
  grep_lines-Ends args file lines before [] i found split at small h room = (found, refl, h)
  grep_lines-Ends args file lines before (line ∷ rest) i found split at small h room =
      let split' : lines ≡ (before ++ line ∷ []) ++ rest =
        split ∙ sym (append_assoc before (line ∷ []) rest) in
      let at' : i + 1 ≡ length (before ++ line ∷ []) =
        omega (arith, at, length-append before (line ∷ [])) in
      elim (Bool-cases (hits line)) [
        | inr other ↦
            rw (other, grep_lines)
              (grep_lines-Ends args file lines (before ++ line ∷ []) rest (i + 1) found split' at'
                small h room)
        | inl hit ↦
            let (context, e) =
              context_at lines i before line rest args.context_lines split at small in
            let m : GrepMatch = record {
              file = file;
              line_number = i + 1;
              line = line;
              context = context;
            } in
            let h' = add_match-Within m found hit h room in
            rw (hit, e, grep_lines)
              (next-Ends (add_match max_results m found).skip_all (add_match max_results m found)
                (λ next. grep_lines hits args max_results file lines (i + 1) rest next) h'
                (λ on.
                  grep_lines-Ends args file lines (before ++ line ∷ []) rest (i + 1)
                    (add_match max_results m found) split' at' small h' (h'.goes_on on)))
      ]

  module _ {W : Type 0} (lib : SearchLib W) (args : GrepArgs) (w : W) where
    -- The lines of a readable file and the context are fewer than an int counts.
    abbrev pub Countable : Type 0
    Countable =
        (path content : String)
        → lib.read_file path w ≡ value content
        → length (split_lines content) + positive_or 0 args.context_lines < max_int

    grep_visit-Ends :
        (visit : Visit) (found : Found GrepMatch)
        → Countable
        → Within found
        → found.count < max_results
        → Ends (grep_visit lib hits args max_results w visit found)
    unfolding grep_visit
    grep_visit-Ends visit found small h room = elim (Bool-cases (visit.failure || visit.is_dir)) [
      | inl over ↦ rw (over, grep_visit) (found, refl, h)
      | inr file ↦
          elim (Bool-cases (lib.glob_match (text_or "*" args.file_pattern) (lib.base visit.path))) [
            | inr other ↦ rw (file, other, grep_visit) (found, refl, h)
            | inl named ↦ elim (Reply-cases (lib.read_file visit.path w)) [
              | inr (x, e) ↦ rw (file, named, e, grep_visit) (found, refl, h)
              | inl (content, e) ↦ elim (Bool-cases (is_binary_content content)) [
                | inl binary ↦ rw (file, named, e, binary, grep_visit) (found, refl, h)
                | inr plain ↦
                    rw (file, named, e, plain, grep_visit)
                      (grep_lines-Ends args visit.path (split_lines content) []
                        (split_lines content) 0 found refl refl (small visit.path content e) h room)
              ]
            ]
          ]
    ]

    grep_walk-Ends :
        (visits : List Visit) (found : Found GrepMatch)
        → Countable
        → Within found
        → found.count < max_results
        → Ends (grep_walk lib hits args max_results w visits found)
    unfolding grep_walk
    grep_walk-Ends [] found small h room = (found, refl, h)
    grep_walk-Ends (visit ∷ visits) found small h room =
        let (next, e, h') = grep_visit-Ends visit found small h room in
        rw (grep_walk, e)
          (next-Ends next.skip_all next (λ f. grep_walk lib hits args max_results w visits f) h'
            (λ on. grep_walk-Ends visits next small h' (h'.goes_on on)))

-- A grep for at least one match ends without a panic where no readable file has so many lines that they
-- and the context pass what an int counts; what it found is no more than it may report, and every match
-- is of a line that matches.
pub grep_walk-Within :
    {W : Type 0} (lib : SearchLib W) (hits : String → Bool) (args : GrepArgs) (limit : ℕ) (w : W)
    (visits : List Visit)
    → Countable hits (suc limit) lib args w
    → (end : Found GrepMatch) × (grep_walk lib hits args (suc limit) w visits nothing ≡ ok end)
      × Within hits (suc limit) end
grep_walk-Within lib hits args limit w visits small =
    grep_walk-Ends hits (suc limit) lib args w visits nothing small
      (record { counted = refl; bounded = omega arith; goes_on = λ on. omega arith; matching = tt })
      (omega arith)
