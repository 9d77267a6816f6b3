-- ===== src/Time.antt =====
-- time.Time and time.Duration: an instant is its nanoseconds since the zero time of Go (January 1,
-- year 1, UTC), as an integer, so IsZero is a test for 0. The location of a Go time is left out,
-- and UTC() with it. A duration is an int64 of nanoseconds.
use payrune.Prelude.{ℕ, Bool, ◌+◌, ◌/◌}
use payrune.Prelude.Int.{ℤ, pos, negsuc, sub_ℕ, ◌+ℤ◌, eqb_ℤ, ltb_ℤ}

abbrev pub Time : Type 0
Time = ℤ

abbrev pub Duration : Type 0
Duration = ℤ

abbrev pub zero_time : Time
zero_time = pos 0

-- Time.IsZero
abbrev pub is_zero : Time → Bool
is_zero t = eqb_ℤ t zero_time

-- Time.Add
abbrev pub add : Time → Duration → Time
add t d = t +ℤ d

-- Time.After
abbrev pub after : Time → Time → Bool
after t u = ltb_ℤ u t

abbrev pub second : ℕ
second = 1000000000

-- The seconds between the zero time and January 1, 1970.
abbrev pub unix_epoch : ℕ
unix_epoch = 62135596800

-- Time.Unix: the whole seconds since 1970, rounded down.
abbrev pub unix : Time → ℤ
unix (pos t) = sub_ℕ (t / second) unix_epoch
unix (negsuc t) = negsuc (t / second + unix_epoch)
