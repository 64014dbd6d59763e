-- ===== src/Durations.antt =====
-- Go's time.Duration, a signed 64-bit count of nanoseconds, kept as the word that represents it: a word
-- from 2^63 on is the negative number that is 2^64 less. An instant is shifted back by a negative one.
use minidp.Base.{ℕ, ◌+◌, ◌-◌, ◌*◌, ◌/◌, ◌%◌, ◌^◌, ◌≤◌, if◌then◌else◌, ltb, arith}

abbrev pub word : ℕ
word = 2 ^ 64

abbrev pub half : ℕ
half = 2 ^ 63

abbrev pub second : ℕ
second = 1_000_000_000

-- time.Duration(n) * time.Second, where n is a positive int
unfoldable pub seconds : ℕ → ℕ
seconds n = (n * second) % word

-- t.Add(d)
unfoldable pub shift : ℕ → ℕ → ℕ
shift t d = if ltb d half then t + d else t - (word - d)

-- int(d.Seconds()), which rounds towards 0, again as a word
unfoldable pub whole_seconds : ℕ → ℕ
whole_seconds d = if ltb d half then d / second else (word - (word - d) / second) % word

-- A later instant, shifted alike, is not earlier.
pub shift_mono : (t u d : ℕ) → t ≤ u → shift t d ≤ shift u d
unfolding shift
shift_mono t u d h = ground arith
