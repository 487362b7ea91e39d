-- ===== src/Api/RangedFile.antt =====
-- src/api/ranged_file.rs: the answer to a request for a part of a file. The arithmetic is that of
-- `u64` in a release build, which wraps around. A file is its bytes; that it is gone when
-- its length is asked for, which panics, is left out.
pub mod Ranges
use vorleser_server.Prelude.{
  ℕ, ◌+◌, ◌-◌, ◌%◌, Bool, true, false, Option, none, some, List, [], ◌∷◌, length, take, drop,
  if◌then◌else◌, leb,
}

-- hyper's `ByteRangeSpec` and `Range`.
pub data ByteRangeSpec : Type 0 where
  from_to : ℕ → ℕ → ByteRangeSpec
  all_from : ℕ → ByteRangeSpec
  last : ℕ → ByteRangeSpec

pub data Range : Type 0 where
  bytes : List ByteRangeSpec → Range
  unregistered : Range

-- `Body::Sized(body, size)` with what can be read of the body, and the headers.
pub record RangedResponse : Type 0 where
  pub partial_content : Bool
  pub body : List ℕ
  pub body_size : ℕ
  pub content_range : Option (ℕ × ℕ × ℕ)

abbrev pub add_u64 : ℕ → ℕ → ℕ
add_u64 a b = (a + b) % 18446744073709551616

abbrev pub sub_u64 : ℕ → ℕ → ℕ
sub_u64 a b = (a + 18446744073709551616 - b) % 18446744073709551616

-- seek(SeekFrom::End(-(n as i64))): before the start it fails, and the position stays. A number
-- above 2^63 is negative as an `i64`, and the seek goes past the end; 2^63 is the least `i64`, which
-- is its own negative.
abbrev pub from_end : ℕ → List ℕ → List ℕ
from_end n file =
    if leb 9223372036854775809 n
    then []
    else (if leb n (length file) then drop (length file - n) file else file)

-- seek(SeekFrom::Start(from)) fails from 2^63 on, and the position stays.
abbrev pub from_start : ℕ → List ℕ → List ℕ
from_start from file = if leb 9223372036854775808 from then file else drop from file

unfoldable pub ranged : List ℕ → ByteRangeSpec → RangedResponse
ranged file (from_to from to) =
    let first_byte_not_sent = add_u64 to 1 in
    record {
      partial_content = true;
      body = take (sub_u64 first_byte_not_sent from) (from_start from file);
      body_size = sub_u64 first_byte_not_sent from;
      content_range = some (from, to, length file);
    }
ranged file (all_from from) = record {
  partial_content = true;
  body = from_start from file;
  body_size = sub_u64 (length file) from;
  content_range = some (from, sub_u64 (length file) 1, length file);
}
ranged file (last n) = record {
  partial_content = true;
  body = from_end n file;
  body_size = n;
  content_range = some (sub_u64 (length file) n, sub_u64 (length file) 1, length file);
}

-- The header `Range`, if there is one, as hyper parses it. `None` is a panic: for a header that does
-- not parse, for an empty list of ranges, and for a unit that is not bytes.
unfoldable pub respond_to : List ℕ → Option (Option Range) → Option RangedResponse
unfolding ranged
respond_to file none =
    some (record {
      partial_content = false;
      body = file;
      body_size = length file;
      content_range = none;
    })
respond_to file (some none) = none
respond_to file (some (some unregistered)) = none
respond_to file (some (some (bytes []))) = none
respond_to file (some (some (bytes (spec ∷ _)))) = some (ranged file spec)
