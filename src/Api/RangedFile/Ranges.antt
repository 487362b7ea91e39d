-- ===== src/Api/RangedFile/Ranges.antt =====
-- Which ranges src/api/ranged_file.rs answers rightly.
use vorleser_server.Prelude.{
  ℕ, zero, suc, ◌+◌, ◌-◌, ◌≤◌, ◌<◌, ◌≡◌, refl, sym, ap, ◌∙◌, true, some, List, [], ◌∷◌, length,
  take, drop, arith, length-drop,
}
use vorleser_server.Api.RangedFile.{
  ByteRangeSpec, from_to, all_from, last, RangedResponse, ranged, respond_to, bytes, add_u64,
  sub_u64, from_start, from_end,
}

-- The first and the last byte that a range asks of a file of the size, if it lies within the file.
pub data Asks (size : ℕ) : ByteRangeSpec → ℕ → ℕ → Type 0 where
  asks_from_to : (from to : ℕ) → from ≤ to → to < size → Asks size (from_to from to) from to
  asks_all_from : (from : ℕ) → from < size → Asks size (all_from from) from (size - 1)
  asks_last : (n : ℕ) → 0 < n → n ≤ size → Asks size (last n) (size - n) (size - 1)

-- A right answer: these bytes of the file, their number, and the headers that say so.
pub record Answers (file : List ℕ) (first to : ℕ) (r : RangedResponse) : Type 0 where
  pub partial : r.partial_content ≡ true
  pub content : r.body ≡ take (to + 1 - first) (drop first file)
  pub size : r.body_size ≡ to + 1 - first
  pub complete : length r.body ≡ r.body_size
  pub header : r.content_range ≡ some (first, to, length file)

length-take : (n : ℕ) (l : List ℕ) → n ≤ length l → length (take n l) ≡ n
length-take zero l h = refl
length-take (suc n) [] h = omega arith
length-take (suc n) (x ∷ xs) h = omega (arith, length-take n xs)

take-all : (l : List ℕ) → take (length l) l ≡ l
take-all [] = refl
take-all (x ∷ xs) = ap (λ l. x ∷ l) (take-all xs)

take-whole : (n : ℕ) (l : List ℕ) → n ≡ length l → l ≡ take n l
take-whole n l e = sym (ap (λ n. take n l) e ∙ take-all l)

-- The arithmetic of `u64` within its bounds.
add_lem : (a b : ℕ) → a + b < 18446744073709551616 → add_u64 a b ≡ a + b
add_lem a b h = omega arith

sub_lem : (a b : ℕ) → b ≤ a → a < 18446744073709551616 → sub_u64 a b ≡ a - b
sub_lem a b h k = omega arith

from_start_lem :
    (from : ℕ) (file : List ℕ) → from < 9223372036854775808 → from_start from file ≡ drop from file
from_start_lem from file h = ground arith

from_end_lem :
    (n : ℕ) (file : List ℕ)
    → n ≤ length file
    → length file < 9223372036854775808
    → from_end n file ≡ drop (length file - n) file
from_end_lem n file h k = ground arith

module _ (file : List ℕ) (small : length file < 9223372036854775808) where
  answers :
      (first to : ℕ)
      → first ≤ to
      → to < length file
      → (r : RangedResponse) → r.partial_content ≡ true
      → r.body ≡ take (to + 1 - first) (drop first file)
      → r.body_size ≡ to + 1 - first
      → r.content_range ≡ some (first, to, length file)
      → Answers file first to r
  answers first to h k r partial content size header = record {
    partial = partial;
    content = content;
    size = size;
    complete =
        ap length content
        ∙ length-take (to + 1 - first) (drop first file) (omega (arith, length-drop first file))
        ∙ sym size;
    header = header;
  }

-- A range that lies within the file is answered with exactly its bytes and the right headers, for a
-- file of less than 2^63 bytes, whatever ranges follow it in the request.
pub respond_to-in_range :
    (file : List ℕ) (spec : ByteRangeSpec) (rest : List ByteRangeSpec) (first to : ℕ)
    → length file < 9223372036854775808
    → Asks (length file) spec first to
    → (r : RangedResponse) × (respond_to file (some (some (bytes (spec ∷ rest)))) ≡ some r)
      × Answers file first to r
unfolding respond_to ranged
respond_to-in_range file _ rest _ _ small (asks_from_to from to h k) = (
  ranged file (from_to from to),
  refl,
  answers file small from to h k _ refl
      (ap (λ n. take n (from_start from file)) count
        ∙ ap (take (to + 1 - from)) (from_start_lem from file (omega arith)))
      count refl,
)
  where
    count : sub_u64 (add_u64 to 1) from ≡ to + 1 - from
    count = omega arith
respond_to-in_range file _ rest _ _ small (asks_all_from from h) = (
  ranged file (all_from from),
  refl,
  answers file small from (length file - 1) (omega arith) (omega arith) _ refl
      (from_start_lem from file (omega arith)
        ∙ take-whole (length file - 1 + 1 - from) (drop from file)
            (omega (arith, length-drop from file)))
      (omega arith)
      (ap (λ to. some (from, to, length file))
        (sub_lem (length file) 1 (omega arith) (omega arith))),
)
respond_to-in_range file _ rest _ _ small (asks_last n h k) = (
  ranged file (last n),
  refl,
  answers file small (length file - n) (length file - 1) (omega arith) (omega arith) _ refl
      (from_end_lem n file k small
        ∙ take-whole (length file - 1 + 1 - (length file - n)) (drop (length file - n) file)
            (omega (arith, length-drop (length file - n) file)))
      (omega arith)
      (ap (λ first. some (first, sub_u64 (length file) 1, length file))
          (sub_lem (length file) n k (omega arith))
        ∙ ap (λ to. some (length file - n, to, length file))
            (sub_lem (length file) 1 (omega arith) (omega arith))),
)

take-short : (n : ℕ) (l : List ℕ) → length l ≤ n → take n l ≡ l
take-short zero [] h = refl
take-short zero (x ∷ xs) h = ground arith
take-short (suc n) [] h = refl
take-short (suc n) (x ∷ xs) h = ap (λ l. x ∷ l) (take-short n xs (omega arith))

-- For a file of less than 2^63 bytes, a range that begins in the file and ends beyond it, at less
-- than 2^64 - 1, is not cut off: the rest of the file is sent, but the number of bytes that is
-- announced is that of the range, which is larger.
pub ranged-overrun :
    (file : List ℕ) (from to : ℕ)
    → length file < 9223372036854775808
    → from < length file
    → length file ≤ to
    → to < 18446744073709551615
    → ((ranged file (from_to from to)).body ≡ drop from file)
      × ((ranged file (from_to from to)).body_size ≡ to + 1 - from)
      × (length (ranged file (from_to from to)).body < (ranged file (from_to from to)).body_size)
unfolding ranged
ranged-overrun file from to small begins ends fits =
    (whole, count, omega (arith, count, ap length whole, length-drop from file))
  where
    count : sub_u64 (add_u64 to 1) from ≡ to + 1 - from
    count = omega arith

    whole : take (sub_u64 (add_u64 to 1) from) (from_start from file) ≡ drop from file
    whole =
        ap (λ n. take n (from_start from file)) count
        ∙ ap (take (to + 1 - from)) (from_start_lem from file (omega arith))
        ∙ take-short (to + 1 - from) (drop from file) (omega (arith, length-drop from file))
