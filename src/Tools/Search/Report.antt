-- ===== src/Tools/Search/Report.antt =====
-- What a glob reports of the files that it has found.
use text.Mathlib.TextLemmas
use gm_agent.Prelude.{
  ◌⊎◌, ◌≤◌, ◌<+>◌, ℕ, zero, suc, ◌<◌, String, false, ◌==◌, List, [], ◌∷◌, ◌≡◌, refl, ap, inl, inr,
  arith, leb, length, Bool-cases,
}
use gm_agent.Prelude.Result.{value}
use gm_agent.Tools.Search.{
  GlobArgs, positive_or, text_or, print_glob, handle_glob, SearchLib, Found, take, lines_of_matches,
  print_limit,
}
use gm_agent.Tools.Search.Laws.{cut_off, hit_paths, positive_or-suc, glob_walk-from}

take-full : {A : Type 0} (n : ℕ) (xs : List A) → leb n (length (take n xs)) ≡ leb n (length xs)
unfolding take
take-full zero xs = ground arith
take-full (suc n) [] = refl
take-full (suc n) (x ∷ xs) = ground (arith, take-full n xs)

-- One line for each path.
abbrev pub listing : List String → String
listing [] = ""
listing (path ∷ paths) = ("  " <+> path <+> "\n") <+> listing paths

listing-eq :
    (paths : List String) → lines_of_matches (λ path. "  " <+> path <+> "\n") paths ≡ listing paths
unfolding lines_of_matches
listing-eq [] = refl
listing-eq (path ∷ paths) = ap (λ (t : String). ("  " <+> path <+> "\n") <+> t) (listing-eq paths)

-- What is told of the files that match: the first of them up to the limit, their number, and that
-- there is a limit exactly if as many match.
abbrev pub Tells : {W : Type 0} → SearchLib W → ℕ → List String → String → Type 0
Tells lib limit [] text = text ≡ "No files found matching pattern"
Tells lib limit (path ∷ paths) text =
    let shown = take limit (path ∷ paths) in
    ((limit ≤ length (path ∷ paths))
      × (text
          ≡ "Found "
            <+> lib.format_int (length shown)
            <+> " file(s):\n"
            <+> listing shown
            <+> "\n(Limited to "
            <+> lib.format_int limit
            <+> " results)"))
    ⊎ ((length (path ∷ paths) < limit)
        × (text ≡ "Found " <+> lib.format_int (length shown) <+> " file(s):\n" <+> listing shown))

print_limit-eq :
    {W : Type 0} (lib : SearchLib W) (limit : ℕ) (hits : List String)
    → ((limit ≤ length hits)
        × (print_limit lib limit (length (take limit hits))
            ≡ "\n(Limited to " <+> lib.format_int limit <+> " results)"))
      ⊎ ((length hits < limit) × (print_limit lib limit (length (take limit hits)) ≡ ""))
unfolding print_limit
print_limit-eq lib limit hits = elim (Bool-cases (leb limit (length hits))) [
  | inl many ↦ inl (ground arith, rw (take-full limit hits, many) refl)
  | inr few ↦ inr (ground arith, rw (take-full limit hits, few) refl)
]

print_glob-Tells :
    {W : Type 0} (lib : SearchLib W) (k : ℕ) (hits : List String)
    → Tells lib (suc k) hits (print_glob lib (suc k) (cut_off (suc k) (take (suc k) hits)))
unfolding print_glob take
print_glob-Tells lib k [] = refl
print_glob-Tells lib k (path ∷ paths) = elim (print_limit-eq lib (suc k) (path ∷ paths)) [
  | inl (many, e) ↦ inl (many, rw (e, listing-eq (take k paths)) refl)
  | inr (few, e) ↦ inr (
    few,
    rw (e, listing-eq (take k paths), TextLemmas.append-nil (listing (take (suc k) (path ∷ paths))))
        refl,
  )
]

-- A glob with a pattern tells of the files of the walk that match, in the walk's order and cut off at
-- the limit, which is 100 unless the arguments give one above 0; the reader is told of the limit
-- exactly if at least that many match.
pub handle_glob-Tells :
    {W : Type 0} (lib : SearchLib W) (args_json : String) (args : GlobArgs) (w : W)
    → lib.unmarshal_glob args_json ≡ value args
    → (args.pattern == "") ≡ false
    → (text : String) × (handle_glob lib args_json w ≡ value text)
      × Tells lib
          (positive_or 100 args.max_results)
          (hit_paths lib
            (text_or "." args.base_dir)
            args.pattern
            (lib.walk (text_or "." args.base_dir) w))
          text
unfolding handle_glob
handle_glob-Tells lib args_json args w parsed given =
    let (k, e) = positive_or-suc 99 args.max_results in
    let hits =
      hit_paths lib (text_or "." args.base_dir) args.pattern
        (lib.walk (text_or "." args.base_dir) w) in
    (
      print_glob lib (suc k) (cut_off (suc k) (take (suc k) hits)),
      rw (parsed, given, handle_glob, e)
          (ap (λ (f : Found String). value (print_glob lib (suc k) f))
            (glob_walk-from lib (text_or "." args.base_dir) args.pattern
              (lib.walk (text_or "." args.base_dir) w) (suc k) k [] (omega arith))),
      rw (e) (print_glob-Tells lib k hits),
    )
