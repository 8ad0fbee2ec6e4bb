-- ===== src/Filesystem/Windows/Times.antt =====
-- The file time that `refresh_windows_clear_age` of src/filesystem/mod.rs sets.
use atomic_blob_store.Prelude.{
  ℕ, ◌+◌, ◌*◌, ◌/◌, ◌%◌, ◌^◌, ◌<◌, ◌≡◌, ◌↔◌, ltb, if◌then◌else◌, Option, none, some, arith,
}
use atomic_blob_store.Prelude.Bytes.{u64_max}

abbrev pub windows_epoch_offset_100ns : ℕ
windows_epoch_offset_100ns = 116444736000000000

abbrev pub hundred_ns_per_second : ℕ
hundred_ns_per_second = 10000000

-- `checked_mul` and `checked_add` of `u64`.
abbrev pub checked : ℕ → Option ℕ
checked n = if ltb u64_max n then none else some n

abbrev pub and_checked : Option ℕ → (ℕ → ℕ) → Option ℕ
and_checked none f = none
and_checked (some n) f = checked (f n)

abbrev pub halves : Option ℕ → Option (ℕ × ℕ)
halves none = none
halves (some ticks) = some (ticks % 2 ^ 32, ticks / 2 ^ 32)

-- The low and the high half of the file time of a moment.
unfoldable pub file_time : ℕ → ℕ → Option (ℕ × ℕ)
file_time secs nanos = halves (
    and_checked
      (and_checked (checked (secs * hundred_ns_per_second)) (λ ticks. ticks + nanos / 100))
      (λ ticks. ticks + windows_epoch_offset_100ns))

-- The file time is the number of 100 nanoseconds since the epoch of Windows, in two halves of 32 bits,
-- wherever that number fits 64 bits, and otherwise there is none: no step on the way overflows
-- unnoticed.
pub file_time_iff :
    (secs nanos low high : ℕ)
    → (file_time secs nanos ≡ some (low, high)) ↔ (
        (low < 2 ^ 32)
        × (high < 2 ^ 32)
        × (high * 2 ^ 32 + low ≡ secs * 10000000 + nanos / 100 + 116444736000000000))
unfolding file_time
file_time_iff secs nanos low high = ground arith
