-- ===== src/Auth/Time.antt =====
-- Instants and durations as internal/auth uses `time.Time`: an instant counts the nanoseconds since
-- Go's zero time, which is 0; a duration is an int64 of nanoseconds.
use urbino.Base.{ℕ, ◌+◌, ◌-◌, ◌*◌, Bool, ltb, if◌then◌else◌}
use urbino.Base.Int.{ℤ, pos, negsuc, pos_part, neg_part, sub_ℕ}
use urbino.Base.Int64.{max_int64}

abbrev pub Time : Type 0
Time = ℕ

abbrev pub second : ℕ
second = 1000000000

abbrev pub hour : ℕ
hour = 3600 * 1000000000

abbrev pub before : Time → Time → Bool
before a b = ltb a b

abbrev pub after : Time → Time → Bool
after a b = ltb b a

-- `t.Add(d)`, for results at or behind the zero time.
abbrev pub add_time : Time → ℤ → Time
add_time t d = t + pos_part d - neg_part d

-- `a.Sub(b)`, which stops at the largest and the smallest duration.
abbrev saturate : ℤ → ℤ
saturate (pos n) = if ltb max_int64 n then pos max_int64 else pos n
saturate (negsuc n) = if ltb max_int64 n then negsuc max_int64 else negsuc n

unfoldable pub sub_time : Time → Time → ℤ
sub_time a b = saturate (sub_ℕ a b)
