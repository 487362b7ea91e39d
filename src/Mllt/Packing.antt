-- ===== src/Mllt/Packing.antt =====
-- What a reader of the table of src/helpers/mllt.rs gets back from it.
use vorleser_server.Prelude.{
  ℕ, ◌+◌, ◌-◌, ◌*◌, ◌/◌, ◌%◌, ◌≤◌, ◌<◌, ◌≡◌, refl, List, nat_eq, ok, arith,
}
use vorleser_server.Mllt.{
  Mp3Frame, Running, pack, reference, bytes_of, duration_of, advanced, corrected, millis_offset_of,
  millis, bytes_offset_of, as_u16, sub_u64,
}

-- An entry of two bytes, read as 15 bits of size and one bit of time.
abbrev pub size_bits : ℕ → ℕ
size_bits entry = entry / 2

abbrev pub time_bit : ℕ → ℕ
time_bit entry = entry % 2

-- What one reference tells, with the running durations after it.
pub record Told (min_bytes_per_ref millis_per_ref : ℕ) (chunk : List Mp3Frame) (r r' : Running)
    (entry : ℕ) : Type 0 where
  pub fits : entry < 65536
  pub exact_bytes : min_bytes_per_ref + size_bits entry ≡ bytes_of chunk
  pub advance : r'.duration ≡ r.duration + duration_of chunk
  pub estimate : r'.estimated ≡ r.estimated + (millis_per_ref + time_bit entry) * millis
  pub not_ahead : r'.estimated ≤ r'.duration
  pub within_a_millisecond : r'.duration < r'.estimated + millis

-- The arithmetic of an entry.
entry_size :
    (min_bytes bytes ms : ℕ)
    → min_bytes ≤ bytes
    → bytes < min_bytes + 32768
    → min_bytes + size_bits (as_u16 (as_u16 (sub_u64 bytes min_bytes) * 2) + ms % 2) ≡ bytes
entry_size min_bytes bytes ms least most = omega arith

entry_fits : (n ms : ℕ) → as_u16 (n * 2) + ms % 2 < 65536
entry_fits n ms = omega arith

entry_time : (n ms : ℕ) → ms < 2 → time_bit (as_u16 (n * 2) + ms % 2) ≡ ms
entry_time n ms h = omega arith

gap_small : (gap : ℕ) → gap < 2 * millis → gap / millis < 2
gap_small gap h = omega arith

module _ (frames_per_ref min_bytes_per_ref millis_per_ref : ℕ) where
  -- A reference to a chunk that is at least as large as the minimum and exceeds it by less than 2^15
  -- bytes, and that runs ahead of the estimate by less than two milliseconds: it tells the size
  -- exactly, and with the bit of time the estimate is behind the true time by less than a millisecond.
  pub reference-Told :
      (chunk : List Mp3Frame) (r : Running)
      → min_bytes_per_ref ≤ bytes_of chunk
      → bytes_of chunk < min_bytes_per_ref + 32768
      → r.estimated + millis_per_ref * millis ≤ r.duration + duration_of chunk
      → r.duration + duration_of chunk < r.estimated + millis_per_ref * millis + 2 * millis
      → (entry : ℕ) × (r' : Running) × (reference frames_per_ref min_bytes_per_ref millis_per_ref
            chunk r
          ≡ ok (entry, r'))
        × Told min_bytes_per_ref millis_per_ref chunk r r' entry
  unfolding reference pack
  reference-Told chunk r least most late soon = (
    pack size gap,
    corrected after,
    ground arith,
    record {
      fits = entry_fits size gap;
      exact_bytes = entry_size min_bytes_per_ref (bytes_of chunk) gap least most;
      advance = refl;
      estimate =
          omega (
            arith,
            entry_time size gap (gap_small (after.duration - after.estimated) (omega arith)),
          );
      not_ahead = omega arith;
      within_a_millisecond = omega arith;
    },
  )
    where
      after : Running
      after = advanced frames_per_ref min_bytes_per_ref millis_per_ref chunk r

      gap : ℕ
      gap = millis_offset_of after

      size : ℕ
      size = bytes_offset_of frames_per_ref min_bytes_per_ref millis_per_ref chunk
