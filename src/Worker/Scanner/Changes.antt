-- ===== src/Worker/Scanner/Changes.antt =====
-- When a path of src/worker/scanner.rs has changed, and what kind of files it has.
pub mod Passing
use vorleser_server.Prelude.{
  ◌>>=◌, ℕ, ◌+◌, String, Bool, true, Option, none, some, List, [], ◌∷◌, if◌then◌else◌, ◌==◌, nat_eq,
  string_eq, bytes_eq, bool_eq, ltb, leb, Result, ok, err,
}
use vorleser_server.Errors.{Failure}
use vorleser_server.Db.{NaiveDateTime}
use vorleser_server.Path.{extension}
use vorleser_server.Worker.Host.{Host, entries}

module _ {S : Type 0} (H : Host S) where
  -- collect() stops at the first error.
  unfoldable pub collect_times :
      List (Result Failure String) → S → Result Failure (List NaiveDateTime)
  collect_times [] s = ok []
  collect_times (err e ∷ _) s = err e
  collect_times (ok p ∷ es) s = H.modified p s >>= λ t. collect_times es s >>= λ ts. ok (t ∷ ts)

  -- iter().max()
  abbrev pub latest : List NaiveDateTime → Option NaiveDateTime
  latest [] = none
  latest (t ∷ ts) = elim (latest ts) [ none ↦ some t | some u ↦ if ltb u t then some t else some u ]

  unfoldable pub most_recent_change : String → S → Result Failure (Option NaiveDateTime)
  unfolding collect_times
  most_recent_change path s = collect_times (entries (H.walk path s)) s >>= λ ts. ok (latest ts)

  abbrev pub is_due : Option NaiveDateTime → Option NaiveDateTime → Bool
  is_due (some recent_change_time) (some last_scan_time) = leb last_scan_time recent_change_time
  is_due (some _) none = true
  is_due none _ = true

  unfoldable pub should_scan : String → Option NaiveDateTime → S → Result Failure Bool
  unfolding most_recent_change
  should_scan path last_scan s = most_recent_change path s >>= λ t. ok (is_due t last_scan)

  -- *counts.entry(el).or_insert(0) += 1
  abbrev pub count_in : String → List (String × ℕ) → List (String × ℕ)
  count_in e [] = (e, 1) ∷ []
  count_in e ((x, n) ∷ counts) = if x == e then (x, n + 1) ∷ counts else (x, n) ∷ count_in e counts

  unfoldable pub count_extensions :
      List (Result Failure String) → List (String × ℕ) → List (String × ℕ)
  count_extensions [] counts = counts
  count_extensions (err _ ∷ es) counts = count_extensions es counts
  count_extensions (ok p ∷ es) counts = elim (extension p) [
    | none ↦ count_extensions es counts
    | some e ↦ count_extensions es (count_in e counts)
  ]

  -- The stable sort by count.
  abbrev pub insert_by_count : String × ℕ → List (String × ℕ) → List (String × ℕ)
  insert_by_count x [] = x ∷ []
  insert_by_count x (y ∷ ys) = if leb x.1 y.1 then x ∷ y ∷ ys else y ∷ insert_by_count x ys

  abbrev pub sort_by_count : List (String × ℕ) → List (String × ℕ)
  sort_by_count [] = []
  sort_by_count (x ∷ xs) = insert_by_count x (sort_by_count xs)

  -- filetypes.pop().map(|el| el.0)
  abbrev pub last_type : List (String × ℕ) → Option String
  last_type [] = none
  last_type (x ∷ []) = some x.0
  last_type (x ∷ y ∷ ys) = last_type (y ∷ ys)

  unfoldable pub probable_audio_filetype : String → S → Option String
  unfolding count_extensions
  probable_audio_filetype path s =
      last_type (sort_by_count (H.drain (count_extensions (entries (H.walk path s)) [])))
