-- ===== src/Formats/Clocks.antt =====
-- isFullTime of formats.go on texts with two digits in each field.
use jsonschema.Prelude.{
  ℕ, ◌+◌, ◌-◌, ◌*◌, ◌/◌, ◌%◌, ◌≤◌, ◌<◌, Bool, true, false, not, ◌&&◌, ◌||◌, [], ◌∷◌, ◌++◌, Option,
  none, some, ◌≡◌, refl, ap, ◌∙◌, ◌==◌, ltb, leb, if◌then◌else◌, arith, Bool-cases, inl, inr,
}
use jsonschema.Prelude.Bytes.{Bytes}
use jsonschema.Prelude.Int.{ℤ, pos, ◌+ℤ◌, ◌-ℤ◌, neg_ℤ, eqb_ℤ, ltb_ℤ}
use jsonschema.Prelude.Atoi.{atoi, unsigned, in_range, read_digits}
use jsonschema.Formats.Times.{
  is_full_time, clock_fields, clock_ok, leap_allowed, offset_after, skip_fraction, read_offset,
  numeric_offset, offset_minutes,
}

-- Two digits.
unfoldable pub two : ℕ → Bytes
two n = (b'0' + n / 10) ∷ (b'0' + n % 10) ∷ []

-- A zone: UTC, or hours and minutes ahead of it or behind it.
pub data Zone : Type 0 where
  utc : Zone
  ahead : ℕ → ℕ → Zone
  behind : ℕ → ℕ → Zone

unfoldable pub print_zone : Zone → Bytes
unfolding two
print_zone utc = b'Z' ∷ []
print_zone (ahead h m) = b'+' ∷ (two h ++ b':' ∷ two m)
print_zone (behind h m) = b'-' ∷ (two h ++ b':' ∷ two m)

unfoldable pub print_time : ℕ → ℕ → ℕ → Zone → Bytes
unfolding two print_zone
print_time h m s z = two h ++ b':' ∷ (two m ++ b':' ∷ (two s ++ print_zone z))

-- The fields of a zone in their ranges.
unfoldable pub zone_in_range : Zone → Bool
zone_in_range utc = true
zone_in_range (ahead h m) = leb h 23 && leb m 59
zone_in_range (behind h m) = leb h 23 && leb m 59

-- The minute of the UTC day, for fields in their ranges.
unfoldable pub utc_minute : ℕ → ℕ → Zone → ℕ
utc_minute h m utc = h * 60 + m
utc_minute h m (ahead zh zm) = (h * 60 + m + 1440 - (zh * 60 + zm)) % 1440
utc_minute h m (behind zh zm) = (h * 60 + m + (zh * 60 + zm)) % 1440

-- What RFC 3339 asks of a time: fields in their ranges, and second 60 only at the end of a UTC day.
unfoldable pub rfc_time : ℕ → ℕ → ℕ → Zone → Bool
unfolding zone_in_range utc_minute
rfc_time h m s z =
    leb h 23
    && (leb m 59 && (leb s 60 && (zone_in_range z && (not (s == 60) || utc_minute h m z == 1439))))

atoi-two : (n : ℕ) → n < 100 → atoi (two n) ≡ some (pos n)
unfolding atoi unsigned read_digits in_range two
atoi-two n h = ground arith

leap-ahead :
    (h m o : ℕ)
    → h ≤ 23
    → m ≤ 59
    → o ≤ 1439
    → leap_allowed (pos h) (pos m) (pos o) ≡ ((h * 60 + m + 1440 - o) % 1440 == 1439)
unfolding leap_allowed ◌+ℤ◌ ◌-ℤ◌
leap-ahead h m o x y z = ground arith

leap-behind :
    (h m o : ℕ)
    → h ≤ 23
    → m ≤ 59
    → o ≤ 1439
    → leap_allowed (pos h) (pos m) (neg_ℤ (pos o)) ≡ ((h * 60 + m + o) % 1440 == 1439)
unfolding leap_allowed ◌+ℤ◌ ◌-ℤ◌
leap-behind h m o x y z = ground arith

-- The offset of a zone in its ranges.
zone_offset : Zone → Option ℤ
zone_offset utc = some (pos 0)
zone_offset (ahead h m) = if leb h 23 && leb m 59 then some (pos (h * 60 + m)) else none
zone_offset (behind h m) = if leb h 23 && leb m 59 then some (neg_ℤ (pos (h * 60 + m))) else none

-- Two digits in each field of a zone.
unfoldable pub zone_two : Zone → Bool
zone_two utc = true
zone_two (ahead h m) = ltb h 100 && ltb m 100
zone_two (behind h m) = ltb h 100 && ltb m 100

offset_minutes-ahead :
    (h m : ℕ) → offset_minutes b'+' (some (pos h)) (some (pos m)) ≡ zone_offset (ahead h m)
unfolding offset_minutes zone_offset ◌+ℤ◌
offset_minutes-ahead h m = ground arith

offset_minutes-behind :
    (h m : ℕ) → offset_minutes b'-' (some (pos h)) (some (pos m)) ≡ zone_offset (behind h m)
unfolding offset_minutes zone_offset ◌+ℤ◌
offset_minutes-behind h m = ground arith

read_offset-print : (z : Zone) → zone_two z ≡ true → read_offset (print_zone z) ≡ zone_offset z
unfolding read_offset print_zone zone_two zone_offset numeric_offset
read_offset-print utc t = refl
read_offset-print (ahead h m) t =
    (λ i. offset_minutes b'+' (atoi-two h (ground arith) i) (atoi-two m (ground arith) i))
    ∙ offset_minutes-ahead h m
read_offset-print (behind h m) t =
    (λ i. offset_minutes b'-' (atoi-two h (ground arith) i) (atoi-two m (ground arith) i))
    ∙ offset_minutes-behind h m

offset_after-print :
    (z : Zone) → zone_two z ≡ true → offset_after (skip_fraction (print_zone z)) ≡ zone_offset z
unfolding offset_after skip_fraction print_zone zone_offset
offset_after-print utc t = refl
offset_after-print (ahead h m) t = read_offset-print (ahead h m) t
offset_after-print (behind h m) t = read_offset-print (behind h m) t

leap-utc : (h m : ℕ) → h ≤ 23 → m ≤ 59 → leap_allowed (pos h) (pos m) (pos 0) ≡ (h * 60 + m == 1439)
unfolding leap_allowed ◌+ℤ◌ ◌-ℤ◌
leap-utc h m x y = ground arith

sixty :
    (s : ℕ) (l b : Bool)
    → l ≡ b
    → (if eqb_ℤ (pos s) (pos 60) then l else true) ≡ (not (s == 60) || b)
sixty s l b e = ground arith

-- An offset in its ranges, or none.
clock_ok-guarded :
    (h m s : ℕ) (o : ℤ) (b u : Bool)
    → (b ≡ true → leap_allowed (pos h) (pos m) o ≡ u)
    → clock_ok (pos h) (pos m) (pos s) (if b then some o else none) ≡ b && (not (s == 60) || u)
unfolding clock_ok
clock_ok-guarded h m s o true u e = sixty s (leap_allowed (pos h) (pos m) o) u (e refl)
clock_ok-guarded h m s o false u e = refl

minutes : (zh zm : ℕ) → leb zh 23 && leb zm 59 ≡ true → zh * 60 + zm ≤ 1439
minutes zh zm h = ground arith

clock_ok-rfc :
    (h m s : ℕ) (z : Zone)
    → h ≤ 23
    → m ≤ 59
    → clock_ok (pos h) (pos m) (pos s) (zone_offset z)
      ≡ zone_in_range z && (not (s == 60) || utc_minute h m z == 1439)
unfolding clock_ok zone_offset zone_in_range utc_minute
clock_ok-rfc h m s utc x y =
    sixty s (leap_allowed (pos h) (pos m) (pos 0)) (h * 60 + m == 1439) (leap-utc h m x y)
clock_ok-rfc h m s (ahead zh zm) x y =
    clock_ok-guarded h m s (pos (zh * 60 + zm)) (leb zh 23 && leb zm 59) _
      (λ t. leap-ahead h m (zh * 60 + zm) x y (minutes zh zm t))
clock_ok-rfc h m s (behind zh zm) x y =
    clock_ok-guarded h m s (neg_ℤ (pos (zh * 60 + zm))) (leb zh 23 && leb zm 59) _
      (λ t. leap-behind h m (zh * 60 + zm) x y (minutes zh zm t))

ranged :
    (h m s : ℕ) (k q : Bool)
    → (h ≤ 23 → m ≤ 59 → k ≡ q)
    → (if ltb_ℤ (pos 23) (pos h) || (ltb_ℤ (pos 59) (pos m) || ltb_ℤ (pos 60) (pos s))
        then false
        else k)
      ≡ leb h 23 && (leb m 59 && (leb s 60 && q))
ranged h m s k q e = elim (Bool-cases (leb h 23 && leb m 59)) [
  | inl t ↦ at (e (ground arith) (ground arith))
  | inr t ↦ ground arith
]
  where
    at :
        k ≡ q
        → (if ltb_ℤ (pos 23) (pos h) || (ltb_ℤ (pos 59) (pos m) || ltb_ℤ (pos 60) (pos s))
            then false
            else k)
          ≡ leb h 23 && (leb m 59 && (leb s 60 && q))
    at e = ground arith

clock_fields-rfc :
    (h m s : ℕ) (z : Zone)
    → zone_two z ≡ true
    → clock_fields (some (pos h)) (some (pos m)) (some (pos s)) (print_zone z) ≡ rfc_time h m s z
unfolding clock_fields rfc_time
clock_fields-rfc h m s z t =
    ranged h m s (clock_ok (pos h) (pos m) (pos s) (offset_after (skip_fraction (print_zone z)))) _
      (λ x y.
        ap (clock_ok (pos h) (pos m) (pos s)) (offset_after-print z t) ∙ clock_ok-rfc h m s z x y)

is_full_time-fields :
    (h m s : ℕ) (z : Zone)
    → is_full_time (print_time h m s z)
      ≡ clock_fields (atoi (two h)) (atoi (two m)) (atoi (two s)) (print_zone z)
unfolding is_full_time print_time
is_full_time-fields h m s utc = refl
is_full_time-fields h m s (ahead zh zm) = refl
is_full_time-fields h m s (behind zh zm) = refl

-- On the text of a time with two digits in each field, isFullTime asks what RFC 3339 asks: hours up to
-- 23, minutes up to 59, seconds up to 60, an offset in the same ranges, and second 60 only in the
-- last minute of a UTC day.
pub is_full_time-rfc :
    (h m s : ℕ) (z : Zone)
    → h < 100
    → m < 100
    → s < 100
    → zone_two z ≡ true
    → is_full_time (print_time h m s z) ≡ rfc_time h m s z
is_full_time-rfc h m s z x y w t =
    is_full_time-fields h m s z
    ∙ ((λ i. clock_fields (atoi-two h x i) (atoi-two m y i) (atoi-two s w i) (print_zone z))
        ∙ clock_fields-rfc h m s z t)
